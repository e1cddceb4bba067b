-- ===== src/Scheduler/Recover.antt =====
-- internal/scheduler/scheduler.go: running tasks that are made retryable again, because their lease
-- lapsed, the scheduler stops or it starts anew.
pub mod Reaped
use text.Mathlib.Text.{starts_with}
use job_raft.Base.{
  ℕ, String, Bool, ◌&&◌, ◌||◌, not, Option, none, some, List, [], ◌∷◌, ltb, if◌then◌else◌, ◌==◌,
  lookup, is_some,
}
use job_raft.Task.{running, retrying, status_eq, Task, Err, is_terminal}
use job_raft.Store.{Result, ok, err, Store}
use job_raft.Scheduler.{Scheduler, cancel_running, unreserve, write_if_state, add_one}

-- The record that puts a running task back, for the given reason.
unfoldable pub put_back : ℕ → String → Task → Task
put_back now reason t = record t {
  status = retrying;
  run_at = now;
  worker_id = "";
  lease_until = none;
  lease_token = "";
  last_error = reason;
}

-- A running task whose lease has lapsed.
unfoldable pub lease_lapsed : ℕ → Task → Bool
lease_lapsed now t =
    status_eq t.status running
    && elim t.lease_until [ none ↦ Bool.false | some until ↦ not (ltb now until) ]

module _ {S : Type 0} (api : Store S) where
  unfoldable pub expired_candidates : ℕ → Scheduler S → Result (List Task)
  expired_candidates now s = elim api.task_scanner [
    | some scanner ↦ scanner.list_expired now s.store
    | none ↦ api.list s.store
  ]

  unfoldable pub count_reaped : Option Err × S → Scheduler S → Scheduler S
  count_reaped (none, st) s = record s { store = st; lease_expired = add_one s.lease_expired }
  count_reaped (some e, st) s = record s { store = st }

  -- The write of one reaped task. Without a conditional write the record is read again first.
  unfoldable pub reap_write : Task → Task → Scheduler S → Scheduler S
  reap_write t t' s = elim api.conditional_updater [
    | some updater ↦ count_reaped (updater.update_if_state t.id running t.lease_token t' s.store) s
    | none ↦ elim (api.get t.id s.store) [
      | err e ↦ s
      | ok current ↦
          if not (status_eq current.status running) || not (current.lease_token == t.lease_token)
          then s
          else count_reaped (api.update t' s.store) s
    ]
  ]

  -- The body of the loop of `reapExpired`.
  unfoldable pub reap_one : ℕ → Task → Scheduler S → Scheduler S
  reap_one now t s =
      if not (lease_lapsed now t)
      then s
      else if is_terminal t
      then s
      else reap_write t (put_back now "worker lease expired" t)
          (unreserve t.id (cancel_running t.id s))

  unfoldable pub reap_all : ℕ → List Task → Scheduler S → Scheduler S
  reap_all now [] s = s
  reap_all now (t ∷ ts) s = reap_all now ts (reap_one now t s)

  -- `reapExpired`, with the readings of the query and of the loop.
  unfoldable pub reap_expired : ℕ → ℕ → Scheduler S → Scheduler S
  reap_expired now_query now s = elim (expired_candidates now_query s) [
    | err e ↦ s
    | ok items ↦ reap_all now items s
  ]

  unfoldable pub is_local_worker : String → Scheduler S → Bool
  is_local_worker id s = is_some (lookup id s.workers_by_id) && starts_with id "local-"

  -- The body of the loop of `requeueRunningOnStop`.
  unfoldable pub requeue_one : ℕ → Task → Scheduler S → Scheduler S
  requeue_one now t s =
      if not (status_eq t.status running) || not (is_local_worker t.worker_id s)
      then s
      else record s {
        store =
            (write_if_state api t.id running t.lease_token
              (put_back now "scheduler stopped while task was running" t) s.store).1;
      }

  unfoldable pub requeue_all : ℕ → List Task → Scheduler S → Scheduler S
  requeue_all now [] s = s
  requeue_all now (t ∷ ts) s = requeue_all now ts (requeue_one now t s)

  unfoldable pub requeue_running_on_stop : ℕ → Scheduler S → Scheduler S
  requeue_running_on_stop now s = elim (api.list s.store) [
    | err e ↦ s
    | ok items ↦ requeue_all now items s
  ]

  -- The loop of `recoverRunning`; its writes are unconditional.
  unfoldable pub recover_all : ℕ → List Task → S → S
  recover_all now [] st = st
  recover_all now (t ∷ ts) st = recover_all now ts (
      if status_eq t.status running
      then (api.update (put_back now "scheduler restarted while task was running" t) st).1
      else st)

  unfoldable pub recover_running : ℕ → Scheduler S → Scheduler S
  recover_running now s = elim (api.list s.store) [
    | err e ↦ s
    | ok items ↦ record s { store = recover_all now items s.store }
  ]
