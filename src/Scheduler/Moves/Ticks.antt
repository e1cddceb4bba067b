-- ===== src/Scheduler/Moves/Ticks.antt =====
-- internal/scheduler/scheduler.go: the tick, the recovery of lapsed leases and the local workers only
-- take steps of the tasks' lives.
use job_raft.Scheduler.Metrics.{observe_queue_latency}
use job_raft.Scheduler.Moves.Methods.{store-cancel_running, fail_unready_task-Runs}
use job_raft.Store.{Result-cases}
use job_raft.Scheduler.Moves.{
  Moves, Edge, write_if_state-Moves, Runs-one, Runs-trans, is_terminal, running, is_claimable,
  Runs-of_eq, here, Runs,
}
use job_raft.Scheduler.Dispatch.{
  dispatched_task, rolled_back, dispatch_all, dispatch_one, start_task, enqueue,
}
use job_raft.Scheduler.Recover.{
  put_back, is_local_worker, expired_candidates, lease_lapsed, count_reaped, requeue_one,
  requeue_running_on_stop, requeue_all, reap_expired, reap_all, reap_one, reap_write,
}
use job_raft.Store.Contract.{IsLawful}
use job_raft.Base.{
  All, ℕ, suc, ◌*◌, ◌≡◌, refl, inl, inr, String, true, not, ◌||◌, List, [], ◌∷◌, arith, ◌==◌, ltb,
  Bool-cases, Option-cases, lookup, is_some, length,
}
use job_raft.Scheduler.{
  reserve, cancel_running, status_eq, unreserve, dependencies_ready, Task, write_if_state, Store,
  Scheduler,
}

module _ {S : Type 0} (api : Store S) (law : IsLawful api) where
  reap_write-store :
      (t u : Task) (s : Scheduler S)
      → (reap_write api t u s).store ≡ (write_if_state api t.id running t.lease_token u s.store).1
  unfolding reap_write write_if_state count_reaped
  reap_write-store t u s = ground (arith, law.has_updater)

  put_back-Moves :
      (now : ℕ) (reason : String) (t : Task) (st : S)
      → Moves api st (write_if_state api t.id running t.lease_token (put_back now reason t) st).1
  unfolding put_back
  put_back-Moves now reason t st =
      write_if_state-Moves api law t.id running t.lease_token _ st
        (λ current _ p _. Edge.put_back p refl)

  reap_one-Runs :
      (now : ℕ) (t : Task) (s : Scheduler S) → Runs api s.store (reap_one api now t s).store
  unfolding reap_one
  reap_one-Runs now t s = elim (Bool-cases (not (lease_lapsed now t) || is_terminal t)) [
    | inl kept ↦ Runs-of_eq (ground arith)
    | inr lapsed ↦
        let s' = unreserve t.id (cancel_running t.id s) in
        let u = put_back now "worker lease expired" t in
        let reaped : (reap_one api now t s).store ≡ (reap_write api t u s').store = ground arith in
        rw (reaped, reap_write-store t u s', store-cancel_running t.id s)
          (Runs-one (put_back-Moves now "worker lease expired" t s.store))
  ]

  reap_all-Runs :
      (now : ℕ) (ts : List Task) (s : Scheduler S) → Runs api s.store (reap_all api now ts s).store
  unfolding reap_all
  reap_all-Runs now [] s = here
  reap_all-Runs now (t ∷ ts) s =
      Runs-trans (reap_one-Runs now t s) (reap_all-Runs now ts (reap_one api now t s))

  pub reap_expired-Runs :
      (now now' : ℕ) (s : Scheduler S) → Runs api s.store (reap_expired api now now' s).store
  unfolding reap_expired
  reap_expired-Runs now now' s = elim (Result-cases (expired_candidates api now s)) [
    | inl (e, p) ↦ Runs-of_eq (ground arith)
    | inr (items, p) ↦ rw (p, reap_expired) (reap_all-Runs now' items s)
  ]

  requeue_all-Runs :
      (now : ℕ) (ts : List Task) (s : Scheduler S)
      → Runs api s.store (requeue_all api now ts s).store
  unfolding requeue_all requeue_one
  requeue_all-Runs now [] s = here
  requeue_all-Runs now (t ∷ ts) s =
      Runs-trans
        (elim (Bool-cases
          (not (status_eq t.status running) || not (is_local_worker api t.worker_id s))) [
            | inl kept ↦ Runs-of_eq (ground arith)
            | inr back ↦ rw back (Runs-one (put_back-Moves now _ t s.store))
          ])
        (requeue_all-Runs now ts (requeue_one api now t s))

  pub requeue_running_on_stop-Runs :
      (now : ℕ) (s : Scheduler S) → Runs api s.store (requeue_running_on_stop api now s).store
  unfolding requeue_running_on_stop
  requeue_running_on_stop-Runs now s = elim (Result-cases (api.list s.store)) [
    | inl (e, p) ↦ Runs-of_eq (ground arith)
    | inr (items, p) ↦ rw (p, requeue_running_on_stop) (requeue_all-Runs now items s)
  ]

  enqueue-Runs : (t : Task) (s : Scheduler S) → Runs api s.store (enqueue api t s).store
  unfolding enqueue rolled_back
  enqueue-Runs t s = elim (Bool-cases (ltb (length s.queue) (s.workers * 2))) [
    | inl room ↦ Runs-of_eq (ground arith)
    | inr full ↦ rw full (
        Runs-one (
          write_if_state-Moves api law t.id running t.lease_token (rolled_back t) s.store
            (λ current _ p _. Edge.scheduled p refl)))
  ]

  start_task-Runs :
      (now now_pick now_seen : ℕ) (t : Task) (s : Scheduler S)
      → is_claimable t.status ≡ true
      → Runs api s.store (start_task api now now_pick now_seen t s).store
  unfolding start_task dispatched_task
  start_task-Runs now now_pick now_seen t s h =
      let u = dispatched_task now now_pick t s in
      let r = write_if_state api t.id t.status t.lease_token u s.store in
      let written : Runs api s.store r.1 = Runs-one (
        write_if_state-Moves api law t.id t.status t.lease_token u s.store
          (λ current _ p _. Edge.claimed (rw p h) refl)) in
      elim (Option-cases r.0) [
        | inl went ↦
            let s' = observe_queue_latency now_seen u (record s { store = r.1 }) in
            let queued : Runs api s'.store (enqueue api u s').store = enqueue-Runs u s' in
            rw (went, start_task) (Runs-trans written (unfold observe_queue_latency in queued))
        | inr (e, refused) ↦ rw (refused, start_task) written
      ]

  dispatch_one-Runs :
      (clock : ℕ → ℕ) (t : Task) (s : Scheduler S)
      → is_claimable t.status ≡ true
      → Runs api s.store (dispatch_one api clock t s).store
  unfolding dispatch_one
  dispatch_one-Runs clock t s h =
      elim (Bool-cases (not ((dependencies_ready api t.depends_on s.store).1 == ""))) [
        | inl problem ↦
            rw (problem, dispatch_one) (fail_unready_task-Runs api law (clock 0) t _ s.store h)
        | inr fine ↦
            elim (Bool-cases (
              not (dependencies_ready api t.depends_on s.store).0
              || (is_some (lookup t.id s.running) || not (is_some (lookup t.name s.handlers))))) [
                | inl waits ↦ Runs-of_eq (ground arith)
                | inr ready ↦
                    let s' = start_task api (clock 0) (clock 1) (clock 2) t (reserve t.id s) in
                    let begun : (dispatch_one api clock t s).store ≡ s'.store = ground arith in
                    rw begun (start_task-Runs (clock 0) (clock 1) (clock 2) t (reserve t.id s) h)
              ]
      ]

  pub dispatch_all-Runs :
      (clock : ℕ → ℕ) (ts : List Task) (s : Scheduler S)
      → All (λ t. is_claimable t.status ≡ true) ts
      → Runs api s.store (dispatch_all api clock ts s).store
  unfolding dispatch_all
  dispatch_all-Runs clock [] s hs = here
  dispatch_all-Runs clock (t ∷ ts) s hs =
      Runs-trans (dispatch_one-Runs clock t s hs.0)
        (dispatch_all-Runs (λ n. clock (suc (suc (suc n)))) ts (dispatch_one api clock t s) hs.1)
