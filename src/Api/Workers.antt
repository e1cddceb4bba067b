-- ===== src/Api/Workers.antt =====
-- internal/api/server.go: the handlers of /workers and of a worker's heartbeats and lease renewals.
-- A handler takes the readings of the clock that its calls make, and gives the response with the
-- scheduler as it left it.
use job_raft.Scheduler.Complete.{renew_task_lease}
use job_raft.Scheduler.Workers.{register_worker, heartbeat}
use job_raft.Task.{Task}
use job_raft.Store.{ok, err, Worker, Result, Store}
use job_raft.Base.{
  split_slash, trim_prefix, ℕ, inl, inr, String, not, ◌&&◌, Option, none, some, List, [], ◌∷◌, ◌==◌,
  if◌then◌else◌,
}
use job_raft.Scheduler.Workers.{workers}
use job_raft.Api.{
  task, worker, failed_with, failed_text, not_found_response, live_workers, only_status, write_json,
  Request, Library, Response,
}
use job_raft.Scheduler.{Scheduler}

-- `strings.TrimPrefix(r.URL.EscapedPath(), "/workers/")`
abbrev pub after_workers : Request → String
after_workers r = trim_prefix r.escaped_path "/workers/"

-- The worker's identifier in the path /workers/{id}/tasks/renew, still escaped.
unfoldable pub renew_target : List String → Option String
renew_target (id ∷ tasks ∷ renew ∷ []) =
    if tasks == "tasks" && renew == "renew" then some id else none
renew_target _ = none

-- An identifier from the path; an empty one is none.
unfoldable pub path_id : Library → String → Option String
path_id lib escaped = elim (lib.path_unescape escaped) [
  | none ↦ none
  | some id ↦ if id == "" then none else some id
]

module _ {S : Type 0} where
  -- The answer to a call: the good code, or the bad one.
  abbrev pub worker_reply : ℕ → ℕ → Result Worker × Scheduler S → Response × Scheduler S
  worker_reply good bad (err e, s) = (failed_with bad e, s)
  worker_reply good bad (ok w, s) = (write_json good (worker w), s)

  abbrev pub renewed_reply : Result Task × Scheduler S → Response × Scheduler S
  renewed_reply (err e, s) = (failed_with 409 e, s)
  renewed_reply (ok t, s) = (write_json 200 (task t), s)

module _ {S : Type 0} (lib : Library) (api : Store S) where
  unfoldable pub list_or_register_workers : ℕ → Request → Scheduler S → Response × Scheduler S
  list_or_register_workers now r s =
      if r.method == "GET"
      then (write_json 200 (live_workers (workers api now s)), s)
      else if not (r.method == "POST")
      then (only_status 405, s)
      else elim (lib.decode_id r.body) [
        | inl problem ↦ (failed_text 400 problem, s)
        | inr id ↦ worker_reply 201 400 (register_worker api now id s)
      ]

  -- `workerRenew`, with the readings that `RenewTaskLease` makes.
  unfoldable pub worker_renew : ℕ → ℕ → Request → Scheduler S → Response × Scheduler S
  worker_renew now now_until r s =
      if not (r.method == "POST")
      then (only_status 405, s)
      else elim (renew_target (split_slash (after_workers r))) [
        | none ↦ (not_found_response, s)
        | some escaped ↦ elim (path_id lib escaped) [
          | none ↦ (not_found_response, s)
          | some id ↦ elim (lib.decode_lease_token r.body) [
            | inl problem ↦ (failed_text 400 problem, s)
            | inr lease_token ↦
                renewed_reply (renew_task_lease api now now_until id (r.query "task") lease_token s)
          ]
        ]
      ]

  -- The last part of `workerHeartbeat`, where the path ends in neither /claim nor /renew.
  unfoldable pub beat : ℕ → Request → Scheduler S → Response × Scheduler S
  beat now r s =
      if not (r.method == "POST")
      then (only_status 405, s)
      else elim (path_id lib (after_workers r)) [
        | none ↦ (not_found_response, s)
        | some id ↦ worker_reply 200 404 (heartbeat api now id s)
      ]
