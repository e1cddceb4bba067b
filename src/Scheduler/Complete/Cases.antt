-- ===== src/Scheduler/Complete/Cases.antt =====
-- internal/scheduler/scheduler.go: what the completion of a task by its worker comes to.
use job_raft.Scheduler.Complete.{
  count_outcome, valid_lease, run_error, finish, finished, complete_task_with_result, Outcome,
}
use job_raft.Store.{ok, Store}
use job_raft.Task.{running, invalid_lease, Err, Task}
use job_raft.Base.{
  ℕ, ◌≡◌, ◌⊎◌, inl, inr, String, true, none, some, List, arith, ◌==◌, if◌then◌else◌, Bool-cases,
}
use job_raft.Scheduler.{write_if_state, unreserve, Scheduler}
use job_raft.Store.Contract.{Replaced, IsLawful}
use job_raft.Scheduler.Moves.{write_if_state-ComparesAndSets}

-- The record that a completion stores: a result is kept only with a success.
abbrev pub completed : ℕ → String → List ℕ → Task → Task × Outcome
completed now failure result t =
    finished now (if failure == "" then record t { result = result } else t) (run_error failure)

module _ {S : Type 0} (api : Store S) (law : IsLawful api) where
  -- A completion of a stored task, whose record has the identifier that it is stored under, is
  -- refused and changes nothing; or the lease was valid, the stored record is the one that the
  -- outcome gives, the running table lost the task's entry, the counter of the outcome alone
  -- was advanced, and nothing else of the scheduler's state changed. The store keeps the
  -- contract of Store/Contract.
  pub complete_task_cases :
      (now now' : ℕ) (worker id token failure : String) (result : List ℕ) (s : Scheduler S)
      (t : Task)
      → api.get id s.store ≡ ok t
      → t.id ≡ id
      → ((e : Err) × (complete_task_with_result api now now' worker id token failure result s
            ≡ (some e, s)))
        ⊎ ((st : S) × (valid_lease t worker token now ≡ true)
            × Replaced api id (completed now' failure result t).0 s.store st
            × (complete_task_with_result api now now' worker id token failure result s ≡ (
              none,
              unreserve id
                  (count_outcome (completed now' failure result t).1 (record s { store = st })),
            )))
  unfolding complete_task_with_result finish
  complete_task_cases now now' worker id token failure result s t found named =
      elim (Bool-cases (valid_lease t worker token now)) [
        | inr no' ↦ inl (invalid_lease, ground arith)
        | inl valid ↦
            let u = completed now' failure result t in
            elim (write_if_state-ComparesAndSets api law id running t.lease_token u.0 s.store) [
              | inl (e, q, kept) ↦ inl (e, ground arith)
              | inr (current, _, _, _, _, wrote, new) ↦ inr (
                (write_if_state api id running t.lease_token u.0 s.store).1,
                valid,
                new,
                ground arith,
              )
            ]
      ]
