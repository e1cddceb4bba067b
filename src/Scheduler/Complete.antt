-- ===== src/Scheduler/Complete.antt =====
-- internal/scheduler/scheduler.go: the end of a run: the lease check, `finish`, and the renewal of a
-- lease.
pub mod Retries
pub mod Cases
use job_raft.Base.{
  true, ◌≡◌, arith, eq_iff, ℕ, String, Bool, false, ◌&&◌, Option, none, some, List, [], pos, ltb,
  ltb_ℤ, inc_int, if◌then◌else◌, ◌==◌,
}
use job_raft.Task.{
  Status, pending, running, success, retrying, status_eq, status_eq→eq, Task, Err, invalid_lease,
  add_time,
}
use job_raft.Store.{Result, ok, err, Store, Write}
use job_raft.Scheduler.{Scheduler, unreserve, write_if_state, add_one}

-- A lease that is not over yet.
abbrev pub lease_live : ℕ → Option ℕ → Bool
lease_live now none = false
lease_live now (some until) = ltb now until

unfoldable pub valid_lease : Task → String → String → ℕ → Bool
valid_lease t worker_id token now =
    status_eq t.status running
    && (t.worker_id == worker_id && (t.lease_token == token && lease_live now t.lease_until))

pub valid_lease_lem :
    (t : Task) (worker_id token : String) (now : ℕ)
    → valid_lease t worker_id token now ≡ true
    → (t.status ≡ running)
      × (t.worker_id ≡ worker_id)
      × (t.lease_token ≡ token)
      × (lease_live now t.lease_until ≡ true)
unfolding valid_lease
valid_lease_lem t worker_id token now h = (
  status_eq→eq t.status running (ground arith),
  (eq_iff _ _).0 (ground arith),
  (eq_iff _ _).0 (ground arith),
  ground arith,
)

-- The metric that a finished run counts for.
pub data Outcome : Type 0 where
  succeeded retried failed : Outcome

-- What every branch of `finish` does first.
unfoldable pub released : ℕ → Task → Task
released now t = record t {
  run_count = inc_int t.run_count;
  finished_at = some now;
  lease_until = none;
  worker_id = "";
  lease_token = "";
}

-- The task after a run that ended with an error, or with none.
unfoldable pub finished : ℕ → Task → Option String → Task × Outcome
finished now t none =
    let u = record (released now t) { last_error = "" } in
    if ltb_ℤ (pos 0) t.schedule
    then (
      record u {
        status = pending;
        run_at = add_time now t.schedule;
        finished_at = none;
        attempts = pos 0;
        started_at = none;
      },
      Outcome.succeeded,
    )
    else (record u { status = success }, Outcome.succeeded)
finished now t (some message) =
    let u = record (released now t) { last_error = message } in
    if ltb_ℤ t.attempts t.retry.max_attempts
    then (
      record u { status = retrying; run_at = add_time now t.retry.backoff; finished_at = none },
      Outcome.retried,
    )
    else (record u { status = Status.failed }, Outcome.failed)

unfoldable pub count_outcome : {S : Type 0} → Outcome → Scheduler S → Scheduler S
count_outcome succeeded s = record s { succeeded = add_one s.succeeded }
count_outcome retried s = record s { retried = add_one s.retried }
count_outcome failed s = record s { failed = add_one s.failed }

-- `errors.New(failure)`, or nil for no text.
unfoldable pub run_error : String → Option String
run_error failure = if failure == "" then none else some failure

-- The record that a renewal writes.
unfoldable pub renewed_task : ℕ → Task → Task
renewed_task until t = record t { lease_until = some until }

module _ {S : Type 0} (api : Store S) where
  unfoldable pub finish : ℕ → Task → Option String → Scheduler S → Option Err × Scheduler S
  finish now current run_err s =
      let (t, outcome) = finished now current run_err in
      let r = write_if_state api current.id running current.lease_token t s.store in
      elim r.0 [
        | some e ↦ (some e, record s { store = r.1 })
        | none ↦ (none, count_outcome outcome (record s { store = r.1 }))
      ]

  abbrev after_finish : String → Option Err × Scheduler S → Option Err × Scheduler S
  after_finish id (some e, s) = (some e, s)
  after_finish id (none, s) = (none, unreserve id s)

  -- `CompleteTaskWithResult`, with the readings of the lease check and of `finish`.
  unfoldable pub complete_task_with_result :
      ℕ → ℕ → String → String → String → String → List ℕ → Scheduler S → Option Err × Scheduler S
  complete_task_with_result now now_finish worker_id id token failure result s =
      elim (api.get id s.store) [
        | err e ↦ (some e, s)
        | ok t ↦
            if valid_lease t worker_id token now
            then after_finish id (
                finish now_finish (if failure == "" then record t { result = result } else t)
                  (run_error failure) s)
            else (some invalid_lease, s)
      ]

  unfoldable pub complete_task :
      ℕ → ℕ → String → String → String → String → Scheduler S → Option Err × Scheduler S
  complete_task now now_finish worker_id id token failure s =
      complete_task_with_result now now_finish worker_id id token failure [] s

  -- The write that renews a lease: conditional on the token where the store can do it.
  unfoldable pub write_if_lease : String → String → Task → Write S
  write_if_lease id token t st = elim api.conditional_updater [
    | some updater ↦ updater.update_if_lease id token t st
    | none ↦ api.update t st
  ]

  -- `RenewTaskLease`, with the readings of the lease check and of the new deadline.
  unfoldable pub renew_task_lease :
      ℕ → ℕ → String → String → String → Scheduler S → Result Task × Scheduler S
  renew_task_lease now now_until worker_id id token s = elim (api.get id s.store) [
    | err e ↦ (err e, s)
    | ok t ↦
        if valid_lease t worker_id token now
        then (let t' = renewed_task (add_time now_until s.lease_ttl) t in
            let r = write_if_lease t.id token t' s.store in
            elim r.0 [
              | some e ↦ (err e, record s { store = r.1 })
              | none ↦ (ok t', record s { store = r.1 })
            ])
        else (err invalid_lease, s)
  ]
