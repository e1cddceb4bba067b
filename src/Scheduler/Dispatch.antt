-- ===== src/Scheduler/Dispatch.antt =====
-- internal/scheduler/scheduler.go: the scheduler's tick, which hands due tasks to local workers.
pub mod Start
use job_raft.Base.{
  ℕ, suc, ◌*◌, String, ◌||◌, not, none, some, List, [], ◌∷◌, ◌++◌, ltb, inc_int, dec_int,
  if◌then◌else◌, ◌==◌, Assoc, lookup, length, is_some,
}
use job_raft.Task.{pending, running, Task, add_time}
use job_raft.Store.{Result, ok, err, Worker, Store, due}
use job_raft.Scheduler.{
  Scheduler, gate_closed, reserve, unreserve, write_if_state, dependencies_ready, fail_unready_task,
  lease_token_of,
}
use job_raft.Scheduler.Metrics.{observe_queue_latency}
use job_raft.Scheduler.Recover.{reap_expired}

-- The first worker in the map's order whose lease is live; "" is none.
unfoldable pub first_live : ℕ → Assoc Worker → String
first_live now [] = ""
first_live now ((id, w) ∷ m) = if ltb now w.lease_until then id else first_live now m

unfoldable pub pick_worker : {S : Type 0} → ℕ → Scheduler S → String
pick_worker now s = first_live now s.workers_by_id

-- The record that a dispatch writes over the listed task.
unfoldable pub dispatched_task : {S : Type 0} → ℕ → ℕ → Task → Scheduler S → Task
dispatched_task now now_pick t s = record t {
  status = running;
  attempts = inc_int t.attempts;
  started_at = some now;
  lease_until = some (add_time now s.lease_ttl);
  lease_token = lease_token_of now t.id;
  worker_id = pick_worker now_pick s;
}

-- The record that goes back when the queue is full.
unfoldable pub rolled_back : Task → Task
rolled_back t = record t { status = pending; attempts = dec_int t.attempts }

module _ {S : Type 0} (api : Store S) where
  unfoldable pub due_tasks : ℕ → Scheduler S → Result (List Task)
  due_tasks now s = elim api.task_scanner [
    | some scanner ↦ scanner.list_due now s.store
    | none ↦ elim (api.list s.store) [ err e ↦ err e | ok items ↦ ok (due items now) ]
  ]

  -- The non-blocking send to the queue, whose capacity is twice the number of workers, and the
  -- guarded rollback when it is full.
  unfoldable pub enqueue : Task → Scheduler S → Scheduler S
  enqueue t s =
      if ltb (length s.queue) (s.workers * 2)
      then record s { queue = s.queue ++ t ∷ [] }
      else unreserve t.id (record s {
        store = (write_if_state api t.id running t.lease_token (rolled_back t) s.store).1;
      })

  -- The write of the running record, for a task that is reserved.
  unfoldable pub start_task : ℕ → ℕ → ℕ → Task → Scheduler S → Scheduler S
  start_task now now_pick now_seen t s =
      let t' = dispatched_task now now_pick t s in
      let r = write_if_state api t.id t.status t.lease_token t' s.store in
      elim r.0 [
        | none ↦ enqueue t' (observe_queue_latency now_seen t' (record s { store = r.1 }))
        | some e ↦ unreserve t.id (record s { store = r.1 })
      ]

  -- The body of the loop of `dispatch`. It reads the clock at most three times.
  unfoldable pub dispatch_one : (ℕ → ℕ) → Task → Scheduler S → Scheduler S
  dispatch_one clock t s =
      let (ready, problem) = dependencies_ready api t.depends_on s.store in
      if not (problem == "")
      then record s { store = fail_unready_task api (clock 0) t problem s.store }
      else if not ready
      then s
      else if is_some (lookup t.id s.running) || not (is_some (lookup t.name s.handlers))
      then s
      else start_task (clock 0) (clock 1) (clock 2) t (reserve t.id s)

  -- Each round has three readings of the clock to itself, whether or not it makes them all.
  unfoldable pub dispatch_all : (ℕ → ℕ) → List Task → Scheduler S → Scheduler S
  dispatch_all clock [] s = s
  dispatch_all clock (t ∷ ts) s =
      dispatch_all (λ n. clock (suc (suc (suc n)))) ts (dispatch_one clock t s)

  -- `dispatch`, with the readings of the two queries and of the reaping loop.
  unfoldable pub dispatch : ℕ → ℕ → ℕ → (ℕ → ℕ) → Scheduler S → Scheduler S
  dispatch now_expired now_reap now_due clock s =
      if gate_closed s.leader_gate
      then s
      else (let s' = reap_expired api now_expired now_reap s in
          elim (due_tasks now_due s') [ err e ↦ s' | ok items ↦ dispatch_all clock items s' ])
