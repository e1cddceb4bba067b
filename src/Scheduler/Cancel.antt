-- ===== src/Scheduler/Cancel.antt =====
-- internal/scheduler/scheduler.go: cancellation and purging.
pub mod Final
use job_raft.Base.{ℕ, String, Option, none, some, if◌then◌else◌}
use job_raft.Task.{Task, Status, running, status_eq, Err, task_running, is_terminal}
use job_raft.Store.{ok, err, Store}
use job_raft.Scheduler.{Scheduler, cancel_running, unreserve, write_if_state, add_one}

-- The record that a cancellation writes. It has the text of `ErrCanceled`.
unfoldable pub canceled_task : ℕ → Task → Task
canceled_task now t = record t {
  status = Status.canceled;
  last_error = "task canceled";
  finished_at = some now;
}

module _ {S : Type 0} (api : Store S) where
  unfoldable pub cancel : ℕ → String → Scheduler S → Option Err × Scheduler S
  cancel now id s = elim (api.get id s.store) [
    | err e ↦ (some e, s)
    | ok t ↦
        if is_terminal t
        then (none, s)
        else (let s' = unreserve id (cancel_running id s) in
            let r = write_if_state api id t.status t.lease_token (canceled_task now t) s'.store in
            elim r.0 [
              | some e ↦ (some e, record s' { store = r.1 })
              | none ↦ (none, record s' { store = r.1; canceled = add_one s'.canceled })
            ])
  ]

  unfoldable pub purge : String → Scheduler S → Option Err × Scheduler S
  purge id s = elim (api.get id s.store) [
    | err e ↦ (some e, s)
    | ok t ↦
        if status_eq t.status running
        then (some (task_running id), s)
        else (let r = api.delete id s.store in (r.0, record s { store = r.1 }))
  ]
