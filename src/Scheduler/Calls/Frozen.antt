-- ===== src/Scheduler/Calls/Frozen.antt =====
-- internal/scheduler/scheduler.go: what no sequence of calls does to a task.
use job_raft.Scheduler.Calls.Beats.{heartbeat-Runs, register-Runs}
use job_raft.Scheduler.Moves.Loops.{claim_loop-Runs, EndsIn}
use job_raft.Scheduler.Calls.{
  stops, ends, begins, ticks, cancels, renews, completes, claims, beats, registers, submits, Call,
  perform_all, perform, after_claim,
}
use job_raft.Scheduler.Execute.{begin_run}
use job_raft.Store.Due.{due-All}
use job_raft.Task.{is_terminal}
use job_raft.Scheduler.Moves.Ticks.{
  requeue_running_on_stop-Runs, dispatch_all-Runs, reap_expired-Runs,
}
use job_raft.Scheduler.Moves.Methods.{
  cancel-Runs, renew_task_lease-Runs, complete_task_with_result-Runs, finish-Runs,
}
use job_raft.Scheduler.Recover.{reap_expired}
use job_raft.Scheduler.Lifecycle.{leave_loop, stop}
use job_raft.Scheduler.Execute.{still_owned, end_run}
use job_raft.Scheduler.Dispatch.{dispatch_all, due_tasks, dispatch}
use job_raft.Scheduler.Claim.{none_skipped, claim_loop, is_claimable, claim}
use job_raft.Scheduler.Workers.{worker_healthy}
use job_raft.Store.{ok, due, Result-cases, is_due}
use job_raft.Scheduler.Moves.{
  Runs-frozen, Runs-trans, here, Runs-one, Runs-of_eq, created, same, Runs, Moves,
}
use job_raft.Scheduler.Submit.{dependency_error, with_defaults, queue_error, duplicate, submit}
use job_raft.Store.Contract.{IsLawful}
use job_raft.Base.{
  ◌∷◌, [], length, suc, ◌||◌, All-map, ◌∷◌, not, List, some, true, Option, ℕ, ◌≡◌, refl, inl, inr,
  String, none, arith, eq_iff, ◌==◌, Bool-cases, Option-cases,
}
use job_raft.Scheduler.{gate_closed, Result, Task, Store, Scheduler}

-- The store has neither an atomic claim nor a scanner of its own: MemoryStore and FileStore.
pub record IsPlain {S : Type 0} (api : Store S) : Type 0 where
  pub lawful : IsLawful api
  pub no_claimer : api.atomic_claimer ≡ none
  pub no_scanner : api.task_scanner ≡ none

claimable_of_due : (now : ℕ) (t : Task) → is_due now t ≡ true → is_claimable t.status ≡ true
unfolding is_due is_claimable
claimable_of_due now t h = ground arith

module _ {S : Type 0} (api : Store S) (plain : IsPlain api) where
  abbrev law : IsLawful api
  law = plain.lawful

  create-Moves : (t : Task) (st : S) → Moves api st (api.create t st).1
  create-Moves t st j = elim (law.create_cases t st) [
    | inl (e, p, q) ↦ same (rw q refl)
    | inr (e, free, valid, done', new) ↦ elim (Bool-cases (t.id == j)) [
      | inl hit ↦ created e t (rw (← (eq_iff t.id j).0 hit) free) (rw hit at (new j))
      | inr other ↦ same (rw other at (new j))
    ]
  ]

  submit-Runs :
      (depth : ℕ) (new_id : String) (m n : ℕ) (t : Task) (s : Scheduler S)
      → Runs api s.store (submit api depth new_id m n t s).1.store
  unfolding submit
  submit-Runs depth new_id m n t s = elim (Option-cases (duplicate api t s.store)) [
    | inr (u, p) ↦ Runs-of_eq (ground arith)
    | inl fresh ↦ elim (Option-cases (queue_error api s.max_pending s.store)) [
      | inr (e, p) ↦ Runs-of_eq (ground arith)
      | inl room ↦
          let t' = with_defaults new_id m n t in
          elim (Option-cases (dependency_error api depth t'.id s.store t'.depends_on)) [
            | inr (e, p) ↦ Runs-of_eq (ground arith)
            | inl good ↦
                let added : (submit api depth new_id m n t s).1.store ≡ (api.create t' s.store).1 =
                  ground arith in
                rw added (Runs-one (create-Moves t' s.store))
          ]
    ]
  ]

  claim-Runs :
      (now_health now : ℕ) (clock : ℕ → ℕ) (worker : String) (s : Scheduler S)
      → Runs api s.store (after_claim api s (claim api now_health now clock worker s)).store
  unfolding claim
  claim-Runs now_health now clock worker s =
      elim (Bool-cases
        (gate_closed s.leader_gate || not (worker_healthy api now_health worker s))) [
          | inl refused ↦ Runs-of_eq (ground arith)
          | inr fine ↦ elim (Result-cases (api.list s.store)) [
            | inl (e, p) ↦ Runs-of_eq (ground (arith, plain.no_claimer))
            | inr (items, p) ↦
                let r =
                  claim_loop api (suc (length items)) clock now worker items (none_skipped items)
                    s in
                let looped : claim api now_health now clock worker s ≡ r =
                  ground (arith, plain.no_claimer) in
                rw looped (
                  ended s r (
                    claim_loop-Runs api law (suc (length items)) clock now worker items
                      (none_skipped items) s))
          ]
        ]
    where
      ended :
          (s : Scheduler S) (r : Option (Result Task × Scheduler S))
          → EndsIn api law s.store r
          → Runs api s.store (after_claim api s r).store
      ended s none e = here
      ended s (some (x, s')) e = e

  dispatch-Runs :
      (a b c : ℕ) (clock : ℕ → ℕ) (s : Scheduler S)
      → Runs api s.store (dispatch api a b c clock s).store
  unfolding dispatch due_tasks is_due is_claimable
  dispatch-Runs a b c clock s = elim (Bool-cases (gate_closed s.leader_gate)) [
    | inl closed ↦ Runs-of_eq (ground arith)
    | inr leads ↦
        let s' = reap_expired api a b s in
        let reaped = reap_expired-Runs api law a b s in
        elim (Result-cases (api.list s'.store)) [
          | inl (e, p) ↦
              let end' : (dispatch api a b c clock s).store ≡ s'.store =
                ground (arith, plain.no_scanner) in
              rw end' reaped
          | inr (items, p) ↦
              let end' : (dispatch api a b c clock s).store
                  ≡ (dispatch_all api clock (due items c) s').store =
                ground (arith, plain.no_scanner) in
              rw end' (
                Runs-trans reaped (
                  dispatch_all-Runs api law clock (due items c) s'
                    (All-map _ _ (λ t. claimable_of_due c t) (due items c) (due-All c items))))
        ]
  ]

  end_run-Runs :
      (now : ℕ) (t : Task) (context : ℕ) (run_err : Option String) (s : Scheduler S)
      → Runs api s.store (end_run api now t context run_err s).store
  unfolding end_run
  end_run-Runs now t context run_err s = elim (Option-cases (still_owned api t s.store)) [
    | inl lost ↦ Runs-of_eq (ground arith)
    | inr (current, p) ↦ rw (p, end_run) (finish-Runs api law now current run_err s)
  ]

  stop-Runs : (now : ℕ) (s : Scheduler S) → Runs api s.store (stop api now s).store
  unfolding stop leave_loop
  stop-Runs now s = elim (Bool-cases (not s.started || s.stopped)) [
    | inl idle ↦ Runs-of_eq (ground arith)
    | inr busy ↦
        rw (busy, stop) (requeue_running_on_stop-Runs api law now (record s { stopped = true }))
  ]

  -- Every event of a scheduler takes each task along its life, by any number of steps.
  pub perform-Runs : (c : Call) (s : Scheduler S) → Runs api s.store (perform api c s).store
  unfolding perform begin_run
  perform-Runs (submits depth new_id m n t) s = submit-Runs depth new_id m n t s
  perform-Runs (registers now id) s = register-Runs api law now id s
  perform-Runs (beats now id) s = heartbeat-Runs api law now id s
  perform-Runs (claims a b clock worker) s = claim-Runs a b clock worker s
  perform-Runs (completes a b worker id token failure result) s =
      complete_task_with_result-Runs api law a b worker id token failure result s
  perform-Runs (renews a b worker id token) s = renew_task_lease-Runs api law a b worker id token s
  perform-Runs (cancels now id) s = cancel-Runs api law now id s
  perform-Runs (ticks a b c clock) s = dispatch-Runs a b c clock s
  perform-Runs (begins t) s = here
  perform-Runs (ends now t context run_err) s = end_run-Runs now t context run_err s
  perform-Runs (stops now) s = stop-Runs now s

  pub perform_all-Runs :
      (cs : List Call) (s : Scheduler S) → Runs api s.store (perform_all api cs s).store
  unfolding perform_all
  perform_all-Runs [] s = here
  perform_all-Runs (c ∷ cs) s =
      Runs-trans (perform-Runs c s) (perform_all-Runs cs (perform api c s))

  -- Once a task is terminal, its record stays as it is through every sequence of submissions,
  -- registrations, heartbeats, claims, completions, renewals, cancellations, ticks, local runs
  -- and stops, whatever their interleaving. The store keeps the contract of Store/Contract and
  -- has neither an atomic claim nor a scanner of its own.
  pub terminal_frozen :
      (cs : List Call) (s : Scheduler S) (id : String) (t : Task)
      → api.get id s.store ≡ ok t
      → is_terminal t ≡ true
      → api.get id (perform_all api cs s).store ≡ ok t
  terminal_frozen cs s id t found final = Runs-frozen id t found final (perform_all-Runs cs s)
