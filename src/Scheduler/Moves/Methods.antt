-- ===== src/Scheduler/Moves/Methods.antt =====
-- internal/scheduler/scheduler.go: every method that changes tasks only takes steps of their life.
use job_raft.Base.{
  ℕ, ◌≡◌, refl, sym, ◌∙◌, inl, inr, String, true, Option, none, some, List, arith, ◌==◌, ltb_ℤ,
  if◌then◌else◌, Bool-cases, pos,
}
use job_raft.Task.{running, Task, is_terminal, add_time}
use job_raft.Store.{Store, Result-cases}
use job_raft.Store.Contract.{IsLawful}
use job_raft.Scheduler.{Scheduler, write_if_state, fail_unready_task, unreserve, cancel_running}
use job_raft.Scheduler.Claim.{is_claimable}
use job_raft.Scheduler.Complete.{
  Outcome, finished, released, finish, count_outcome, complete_task_with_result, renew_task_lease,
  valid_lease, valid_lease_lem, renewed_task, write_if_lease, run_error,
}
use job_raft.Scheduler.Cancel.{cancel, canceled_task}
use job_raft.Scheduler.Moves.{
  Edge, Runs, Runs-one, Runs-of_eq, write_if_state-Moves, write_if_lease-Moves,
}

finished-Edge :
    (now : ℕ) (t current : Task) (run_err : Option String)
    → current.status ≡ running
    → Edge current (finished now t run_err).0
unfolding finished released
finished-Edge now t current none h = elim (Bool-cases (ltb_ℤ (pos 0) t.schedule)) [
  | inl periodic ↦ Edge.scheduled h (ground arith)
  | inr once ↦ Edge.succeeded h (ground arith)
]
finished-Edge now t current (some e) h = elim (Bool-cases (ltb_ℤ t.attempts t.retry.max_attempts)) [
  | inl left ↦ Edge.put_back h (ground arith)
  | inr out ↦ Edge.exhausted h (ground arith)
]

store-count_outcome :
    {S : Type 0} (o : Outcome) (s : Scheduler S) → (count_outcome o s).store ≡ s.store
unfolding count_outcome
store-count_outcome o s = ground arith

pub store-cancel_running :
    {S : Type 0} (id : String) (s : Scheduler S) → (cancel_running id s).store ≡ s.store
unfolding cancel_running
store-cancel_running id s = ground arith

module _ {S : Type 0} (api : Store S) (law : IsLawful api) where
  finish-store :
      (now : ℕ) (t : Task) (run_err : Option String) (s : Scheduler S)
      → (finish api now t run_err s).1.store
        ≡ (write_if_state api t.id running t.lease_token (finished now t run_err).0 s.store).1
  unfolding finish count_outcome
  finish-store now t run_err s = ground arith

  pub finish-Runs :
      (now : ℕ) (t : Task) (run_err : Option String) (s : Scheduler S)
      → Runs api s.store (finish api now t run_err s).1.store
  finish-Runs now t run_err s = rw (finish-store now t run_err s) (
      Runs-one (
        write_if_state-Moves api law t.id running t.lease_token _ s.store
          (λ current _ p _. finished-Edge now t current run_err p)))

  pub complete_task_with_result-Runs :
      (now now' : ℕ) (worker id token failure : String) (result : List ℕ) (s : Scheduler S)
      → Runs api s.store
          (complete_task_with_result api now now' worker id token failure result s).1.store
  unfolding complete_task_with_result
  complete_task_with_result-Runs now now' worker id token failure result s =
      elim (Result-cases (api.get id s.store)) [
        | inl (e, p) ↦ Runs-of_eq (ground arith)
        | inr (t, p) ↦ elim (Bool-cases (valid_lease t worker token now)) [
          | inr invalid ↦ Runs-of_eq (ground arith)
          | inl valid ↦
              let u = if failure == "" then record t { result = result } else t in
              let r = finish api now' u (run_error failure) s in
              let done : (complete_task_with_result api now now' worker id token failure result
                    s).1.store
                  ≡ r.1.store =
                ground arith in
              rw done (finish-Runs now' u (run_error failure) s)
        ]
      ]

  pub renew_task_lease-Runs :
      (now now' : ℕ) (worker id token : String) (s : Scheduler S)
      → Runs api s.store (renew_task_lease api now now' worker id token s).1.store
  unfolding renew_task_lease renewed_task
  renew_task_lease-Runs now now' worker id token s = elim (Result-cases (api.get id s.store)) [
    | inl (e, p) ↦ Runs-of_eq (ground arith)
    | inr (t, p) ↦ elim (Bool-cases (valid_lease t worker token now)) [
      | inr invalid ↦ Runs-of_eq (ground arith)
      | inl valid ↦
          let (run, _, tok, _) = valid_lease_lem t worker token now valid in
          let u = renewed_task (add_time now' s.lease_ttl) t in
          let written : (renew_task_lease api now now' worker id token s).1.store
              ≡ (write_if_lease api t.id token u s.store).1 =
            ground arith in
          rw written (
            Runs-one (
              write_if_lease-Moves api law t.id token u s.store
                (λ current _ p q. Edge.renewed p run (tok ∙ sym q))))
    ]
  ]

  pub cancel-Runs :
      (now : ℕ) (id : String) (s : Scheduler S) → Runs api s.store (cancel api now id s).1.store
  unfolding cancel canceled_task
  cancel-Runs now id s = elim (Result-cases (api.get id s.store)) [
    | inl (e, p) ↦ Runs-of_eq (ground arith)
    | inr (t, p) ↦ elim (Bool-cases (is_terminal t)) [
      | inl final ↦ Runs-of_eq (ground arith)
      | inr open' ↦
          let s' = unreserve id (cancel_running id s) in
          let u = canceled_task now t in
          let written : (cancel api now id s).1.store
              ≡ (write_if_state api id t.status t.lease_token u s.store).1 =
            ground (arith, store-cancel_running id s) in
          rw written (
            Runs-one (
              write_if_state-Moves api law id t.status t.lease_token u s.store
                (λ current q _ _. Edge.stopped (ground arith) refl)))
    ]
  ]

  pub fail_unready_task-Runs :
      (now : ℕ) (t : Task) (reason : String) (st : S)
      → is_claimable t.status ≡ true
      → Runs api st (fail_unready_task api now t reason st)
  unfolding fail_unready_task
  fail_unready_task-Runs now t reason st h = Runs-one (
      write_if_state-Moves api law t.id t.status t.lease_token _ st
        (λ current _ p _. Edge.dropped (rw p h) refl))
