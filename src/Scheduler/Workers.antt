-- ===== src/Scheduler/Workers.antt =====
-- internal/scheduler/scheduler.go: registration, heartbeats and liveness of workers. A method takes
-- the reading of the clock that it makes.
use job_raft.Base.{
  ℕ, String, Bool, false, ◌&&◌, Option, none, some, List, [], ◌∷◌, ltb, if◌then◌else◌, ◌==◌, lookup,
  insert, values,
}
use job_raft.Task.{
  running, status_eq, Task, Err, worker_id_required, worker_not_registered, add_time,
}
use job_raft.Store.{Result, ok, err, Worker, Store}
use job_raft.Scheduler.Complete.{write_if_lease}
use job_raft.Store.Memory.{live_workers}
use job_raft.Scheduler.{Scheduler}

-- `Worker{ID: id, LastHeartbeat: now, LeaseUntil: now.Add(ttl)}` of the scheduler's own table.
abbrev pub fresh_worker : {S : Type 0} → String → ℕ → Scheduler S → Worker
fresh_worker id now s = record {
  id = id;
  last_heartbeat = now;
  lease_until = add_time now s.lease_ttl;
}

module _ {S : Type 0} (api : Store S) where
  -- Keeps what the registry returned, or passes its error on.
  abbrev pub keep_worker : String → Result Worker × S → Scheduler S → Result Worker × Scheduler S
  keep_worker id (err e, st) s = (err e, record s { store = st })
  keep_worker id (ok w, st) s =
      (ok w, record s { store = st; workers_by_id = insert id w s.workers_by_id })

  unfoldable pub register_worker : ℕ → String → Scheduler S → Result Worker × Scheduler S
  register_worker now id s = elim api.worker_registry [
    | some registry ↦ keep_worker id (registry.register_worker now id s.lease_ttl s.store) s
    | none ↦ if id == "" then (err worker_id_required, s) else (
      ok (fresh_worker id now s),
      record s { workers_by_id = insert id (fresh_worker id now s) s.workers_by_id },
    )
  ]

  -- The loop of `Heartbeat` over the listed tasks, for a store without a registry.
  unfoldable pub renew_listed : String → ℕ → List Task → S → S
  renew_listed id until [] st = st
  renew_listed id until (t ∷ ts) st = renew_listed id until ts (
      if status_eq t.status running && t.worker_id == id
      then (write_if_lease api t.id t.lease_token (record t { lease_until = some until }) st).1
      else st)

  -- The list of a call that failed is nil.
  abbrev pub listed : Result (List Task) → List Task
  listed (ok items) = items
  listed (err e) = []

  -- After a heartbeat at the registry the worker's task leases are renewed; errors are dropped.
  abbrev pub renew_registered :
      String
      → Result Worker × Scheduler S
      → (String → ℕ → S → Option Err × S)
      → Result Worker × Scheduler S
  renew_registered id (err e, s) renew = (err e, s)
  renew_registered id (ok w, s) renew =
      (ok w, record s { store = (renew id w.lease_until s.store).1 })

  unfoldable pub heartbeat : ℕ → String → Scheduler S → Result Worker × Scheduler S
  heartbeat now id s = elim api.worker_registry [
    | some registry ↦
        renew_registered id
          (keep_worker id (registry.heartbeat_worker now id s.lease_ttl s.store) s)
          registry.renew_worker_task_leases
    | none ↦ elim (lookup id s.workers_by_id) [
      | none ↦ (err worker_not_registered, s)
      | some w ↦
          let until = add_time now s.lease_ttl in
          let w' = record w { last_heartbeat = now; lease_until = until } in
          (
            ok w',
            record s {
              workers_by_id = insert id w' s.workers_by_id;
              store = renew_listed id until (listed (api.list s.store)) s.store;
            },
          )
    ]
  ]

  unfoldable pub workers : ℕ → Scheduler S → List Worker
  workers now s = elim api.worker_registry [
    | some registry ↦ elim (registry.list_workers now s.store) [ ok ws ↦ ws | err e ↦ [] ]
    | none ↦ live_workers now (values s.workers_by_id)
  ]

  unfoldable pub worker_healthy : ℕ → String → Scheduler S → Bool
  worker_healthy now id s = elim api.worker_registry [
    | some registry ↦ elim (registry.get_worker id s.store) [
      | ok w ↦ ltb now w.lease_until
      | err e ↦ false
    ]
    | none ↦ elim (lookup id s.workers_by_id) [ some w ↦ ltb now w.lease_until | none ↦ false ]
  ]
