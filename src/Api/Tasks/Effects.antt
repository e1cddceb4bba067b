-- ===== src/Api/Tasks/Effects.antt =====
-- internal/api/server.go: what a request for tasks does to the scheduler, as calls of the scheduler.
use Prim.Native.String.{len}
use job_raft.Scheduler.Cancel.{cancel}
use job_raft.Api.Tasks.{
  submitted_task, idempotency_key_of, Moment, task_by_id, complete_by_id, tasks, submit_tasks,
  delete_tasks, deleted, no_content, bulk,
}
use job_raft.Api.Workers.{path_id}
use job_raft.Scheduler.Calls.Reached.{ByCalls-one, ByCalls-refl, ByCalls-trans, ByCalls}
use job_raft.Task.{Err}
use job_raft.Store.{Store}
use job_raft.Base.{
  ◌≡◌, trim_prefix, ltb, false, Sum-cases, Option-cases, ℕ, suc, refl, inl, inr, String, Bool, ◌&&◌,
  Option, none, some, List, [], ◌∷◌, ◌==◌, Bool-cases,
}
use job_raft.Api.{Library, Request}
use job_raft.Scheduler.{Scheduler}
use job_raft.Scheduler.Calls.{submits, completes, cancels, perform}

-- A request that removes records.
unfoldable pub is_purge : Request → Bool
is_purge r = r.method == "DELETE" && r.query "purge" == "true"

module _ {S : Type 0} (api : Store S) where
  no_content-ByCalls :
      (bad : ℕ) (s : Scheduler S) (p : Option Err × Scheduler S)
      → ByCalls api s p.1
      → ByCalls api s (no_content bad p).1
  no_content-ByCalls bad s (none, s') h = h
  no_content-ByCalls bad s (some e, s') h = h

  deleted-ByCalls :
      (s : Scheduler S) (p : Option Err × Scheduler S)
      → ByCalls api s p.1
      → ByCalls api s (deleted p).1
  deleted-ByCalls s (none, s') h = h
  deleted-ByCalls s (some e, s') h = h

  -- A bulk request that does not purge cancels one task after the other.
  bulk-ByCalls :
      (clock : ℕ → ℕ) (ids : List String) (s : Scheduler S)
      → ByCalls api s (bulk api false clock ids s).1
  unfolding bulk perform
  bulk-ByCalls clock [] s = ByCalls-refl api s
  bulk-ByCalls clock (id ∷ ids) s =
      ByCalls-trans api (ByCalls-one api (cancels (clock 0) id) refl)
        (bulk-ByCalls (λ n. clock (suc n)) ids (cancel api (clock 0) id s).1)

  -- A bulk request ends by calls, unless it purges.
  delete_tasks-ByCalls :
      (lib : Library) (m : Moment) (r : Request) (s : Scheduler S)
      → (r.query "purge" == "true") ≡ false
      → ByCalls api s (delete_tasks lib api m r s).1
  unfolding delete_tasks
  delete_tasks-ByCalls lib m r s keeps = elim (Sum-cases (lib.decode_ids r.body)) [
    | inl (problem, d) ↦ rw (d, delete_tasks) (ByCalls-refl api s)
    | inr ([], d) ↦ rw (d, delete_tasks) (ByCalls-refl api s)
    | inr (id ∷ ids, d) ↦ rw (d, delete_tasks, keeps) (bulk-ByCalls m.clock (id ∷ ids) s)
  ]

  submit_tasks-ByCalls :
      (lib : Library) (m : Moment) (r : Request) (s : Scheduler S)
      → ByCalls api s (submit_tasks lib api m r s).1
  unfolding submit_tasks perform
  submit_tasks-ByCalls lib m r s = elim (Sum-cases (lib.decode_submission r.body)) [
    | inl (problem, d) ↦ rw (d, submit_tasks) (ByCalls-refl api s)
    | inr (sub, d) ↦ elim (Bool-cases (ltb 256 (len (idempotency_key_of lib r)))) [
      | inl long ↦ rw (d, long, submit_tasks) (ByCalls-refl api s)
      | inr fits ↦
          let t = submitted_task (m.clock 0) m.new_id (idempotency_key_of lib r) sub in
          let call = submits m.depth m.submit_id (m.clock 1) (m.clock 2) t in
          rw (d, fits, submit_tasks) (ByCalls-one api call refl)
    ]
  ]

  pub tasks-ByCalls :
      (lib : Library) (m : Moment) (r : Request) (s : Scheduler S)
      → is_purge r ≡ false
      → ByCalls api s (tasks lib api m r s).1
  unfolding tasks is_purge
  tasks-ByCalls lib m r s keeps = elim (Bool-cases (r.method == "DELETE")) [
    | inl gone ↦ rw (gone, tasks) (delete_tasks-ByCalls lib m r s (rw gone at keeps))
    | inr kept ↦ elim (Bool-cases (r.method == "GET")) [
      | inl read ↦ rw (kept, read, tasks) (ByCalls-refl api s)
      | inr write ↦ elim (Bool-cases (r.method == "POST")) [
        | inr other ↦ rw (kept, write, other, tasks) (ByCalls-refl api s)
        | inl post ↦ rw (kept, write, post, tasks) (submit_tasks-ByCalls lib m r s)
      ]
    ]
  ]

  complete_by_id-ByCalls :
      (lib : Library) (m : Moment) (id : String) (r : Request) (s : Scheduler S)
      → ByCalls api s (complete_by_id lib api m id r s).1
  unfolding complete_by_id perform
  complete_by_id-ByCalls lib m id r s = elim (Sum-cases (lib.decode_completion r.body)) [
    | inl (problem, d) ↦ rw (d, complete_by_id) (ByCalls-refl api s)
    | inr (c, d) ↦
        let call =
          completes (m.clock 0) (m.clock 1) c.worker_id id c.lease_token c.error c.result in
        rw (d, complete_by_id) (no_content-ByCalls 409 s _ (ByCalls-one api call refl))
  ]

  pub task_by_id-ByCalls :
      (lib : Library) (m : Moment) (r : Request) (s : Scheduler S)
      → ByCalls api s (task_by_id lib api m r s).1
  unfolding task_by_id perform
  task_by_id-ByCalls lib m r s =
      elim (Option-cases (path_id lib (trim_prefix r.escaped_path "/tasks/"))) [
        | inl p ↦ rw (p, task_by_id) (ByCalls-refl api s)
        | inr (id, p) ↦ elim (Bool-cases (r.method == "DELETE")) [
          | inl gone ↦
              rw (p, gone, task_by_id)
                (deleted-ByCalls s _ (ByCalls-one api (cancels (m.clock 0) id) refl))
          | inr kept ↦ elim (Bool-cases (r.method == "POST" && r.query "complete" == "true")) [
            | inl done ↦ rw (p, kept, done, task_by_id) (complete_by_id-ByCalls lib m id r s)
            | inr other ↦ elim (Bool-cases (r.method == "GET")) [
              | inl read ↦ rw (p, kept, other, read, task_by_id) (ByCalls-refl api s)
              | inr write ↦ rw (p, kept, other, write, task_by_id) (ByCalls-refl api s)
            ]
          ]
        ]
      ]
