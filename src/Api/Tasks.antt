-- ===== src/Api/Tasks.antt =====
-- internal/api/server.go: the handlers of /tasks and /tasks/{id}. `Moment` has what a request finds
-- out from outside: the readings of the clock, in the order of the code, and fresh identifiers.
pub mod Retried
pub mod Listing
pub mod Effects
use job_raft.Scheduler.Complete.{complete_task_with_result}
use job_raft.Scheduler.Submit.{find_by_idempotency_key, submit}
use job_raft.Api.Workers.{path_id}
use job_raft.Store.{ok, err, Store}
use job_raft.Task.{
  canceled, retrying, failed, duplicate_id, duplicate_idempotency_key, add_time, success,
  backpressure, duplicate_task, unset, running, pending, Status, Err, Task,
}
use job_raft.Base.{
  trim_prefix, ltb_ℤ, eq_ℕ, ℕ, zero, suc, inl, inr, String, Bool, true, false, not, ◌&&◌, ◌||◌,
  Option, none, some, List, [], ◌∷◌, ◌==◌, ltb, if◌then◌else◌, length, pos,
}
use Prim.Native.String.{len}
use job_raft.Api.{
  task, task_list, items, not_found_response, failed_with, write_json, only_status, nothing,
  failed_text, Item, Submission, Request, Library, Response,
}
use job_raft.Scheduler.{get, list, Scheduler}
use job_raft.Scheduler.Cancel.{cancel, purge}
use job_raft.Api.Filter.{valid_status, filter_tasks, read_limit, cut_to}

-- `depth` bounds the search for a cycle of dependencies.
pub record Moment : Type 0 where
  pub clock : ℕ → ℕ
  pub new_id : String
  pub submit_id : String
  pub depth : ℕ

-- The key of a request, from the first of its two headers that has one.
unfoldable pub idempotency_key_of : Library → Request → String
idempotency_key_of lib r =
    let key = lib.trim_space (r.header "Idempotency-Key") in
    if key == "" then lib.trim_space (r.header "X-Idempotency-Key") else key

-- `runAt`
unfoldable pub run_at_of : ℕ → Submission → ℕ
run_at_of now sub = elim sub.run_at [
  | some t ↦ t
  | none ↦ if ltb_ℤ (pos 0) sub.delay then add_time now sub.delay else now
]

-- `task.Task{}`
abbrev zero_task : Task
zero_task = record {
  id = "";
  idempotency_key = "";
  name = "";
  priority = pos 0;
  depends_on = [];
  payload = [];
  result = [];
  status = unset;
  attempts = pos 0;
  retry = record { max_attempts = pos 0; backoff = pos 0 };
  run_at = 0;
  schedule = pos 0;
  run_count = pos 0;
  timeout = pos 0;
  last_error = "";
  created_at = 0;
  started_at = none;
  finished_at = none;
  worker_id = "";
  lease_until = none;
  lease_token = "";
}

-- The task that a POST submits.
unfoldable pub submitted_task : ℕ → String → String → Submission → Task
submitted_task now new_id key sub = record zero_task {
  id = if sub.id == "" then new_id else sub.id;
  idempotency_key = key;
  name = sub.name;
  priority = sub.priority;
  depends_on = sub.depends_on;
  payload = sub.payload;
  run_at = run_at_of now sub;
  timeout = sub.timeout;
  schedule = sub.schedule;
  retry = sub.retry;
}

-- `errors.Is(err, store.ErrDuplicateIdempotencyKey)`
unfoldable pub is_duplicate_key : Err → Bool
is_duplicate_key duplicate_idempotency_key = true
is_duplicate_key (duplicate_task _) = true
is_duplicate_key _ = false

-- The status of the answer to a submission that failed.
unfoldable pub refusal_code : Err → ℕ
refusal_code backpressure = 429
refusal_code duplicate_id = 409
refusal_code _ = 400

module _ {S : Type 0} where
  abbrev pub no_content : ℕ → Option Err × Scheduler S → Response × Scheduler S
  no_content bad (none, s) = (only_status 204, s)
  no_content bad (some e, s) = (failed_with bad e, s)

  abbrev pub deleted : Option Err × Scheduler S → Response × Scheduler S
  deleted (none, s) = (only_status 204, s)
  deleted (some e, s) = (not_found_response, s)

module _ {S : Type 0} (api : Store S) where
  -- The loop of DELETE /tasks, whose n-th cancellation reads the clock as `clock n`.
  unfoldable pub bulk : Bool → (ℕ → ℕ) → List String → Scheduler S → List Item × Scheduler S
  bulk purges clock [] s = ([], s)
  bulk purges clock (id ∷ ids) s =
      let r = if purges then purge api id s else cancel api (clock 0) id s in
      let (rest, s') = bulk purges (λ n. clock (suc n)) ids r.1 in
      let item : Item = record { id = id; purge = purges; error = r.0 } in (item ∷ rest, s')

  -- The answer to a submission, once `Submit` has returned.
  unfoldable pub submit_reply : String → String → Option Err × Scheduler S → Response
  submit_reply key id (none, s) = elim (get api id s) [
    | ok created ↦ write_json 201 (task created)
    | err e ↦ write_json 201 (task zero_task)
  ]
  submit_reply key id (some e, s) =
      let refused = failed_with (refusal_code e) e in
      if not (key == "") && is_duplicate_key e
      then elim (find_by_idempotency_key api key s.store) [
        | ok existing ↦ write_json 200 (task existing)
        | err _ ↦ refused
      ]
      else refused

  unfoldable pub get_by_id : String → Scheduler S → Response
  get_by_id id s = elim (get api id s) [
    | err e ↦ not_found_response
    | ok t ↦ write_json 200 (task t)
  ]

module _ {S : Type 0} (lib : Library) (api : Store S) where
  unfoldable pub delete_tasks : Moment → Request → Scheduler S → Response × Scheduler S
  delete_tasks m r s = elim (lib.decode_ids r.body) [
    | inl _ ↦ (failed_text 400 "ids must be a non-empty array", s)
    | inr [] ↦ (failed_text 400 "ids must be a non-empty array", s)
    | inr (id ∷ ids) ↦
        let (result, s') = bulk api (r.query "purge" == "true") m.clock (id ∷ ids) s in
        (write_json 200 (items result), s')
  ]

  unfoldable pub list_tasks : Request → Scheduler S → Response
  list_tasks r s = elim (list api s) [
    | err e ↦ failed_with 500 e
    | ok all ↦
        let status = r.query "status" in
        if not (status == "") && not (valid_status status)
        then failed_text 400 "invalid status filter"
        else elim (read_limit lib (r.query "limit")) [
          | none ↦ failed_text 400 "limit must be a positive integer"
          | some limit ↦
              write_json 200 (task_list (cut_to limit (filter_tasks status (r.query "name") all)))
        ]
  ]

  unfoldable pub submit_tasks : Moment → Request → Scheduler S → Response × Scheduler S
  submit_tasks m r s = elim (lib.decode_submission r.body) [
    | inl problem ↦ (failed_text 400 problem, s)
    | inr sub ↦
        let key = idempotency_key_of lib r in
        if ltb 256 (len key)
        then (failed_text 400 "idempotency key is too long", s)
        else let t = submitted_task (m.clock 0) m.new_id key sub in
          let done = submit api m.depth m.submit_id (m.clock 1) (m.clock 2) t s in
          (submit_reply api key t.id done, done.1)
  ]

  unfoldable pub tasks : Moment → Request → Scheduler S → Response × Scheduler S
  tasks m r s =
      if r.method == "DELETE"
      then delete_tasks m r s
      else if r.method == "GET"
      then (list_tasks r s, s)
      else if not (r.method == "POST")
      then (record { code = 405; headers = ("Allow", "GET, POST, DELETE") ∷ []; body = nothing }, s)
      else submit_tasks m r s

  -- POST /tasks/{id}?complete=true
  unfoldable pub complete_by_id : Moment → String → Request → Scheduler S → Response × Scheduler S
  complete_by_id m id r s = elim (lib.decode_completion r.body) [
    | inl problem ↦ (failed_text 400 problem, s)
    | inr c ↦ no_content 409 (
        complete_task_with_result api (m.clock 0) (m.clock 1) c.worker_id id c.lease_token c.error
          c.result s)
  ]

  unfoldable pub task_by_id : Moment → Request → Scheduler S → Response × Scheduler S
  task_by_id m r s = elim (path_id lib (trim_prefix r.escaped_path "/tasks/")) [
    | none ↦ (not_found_response, s)
    | some id ↦
        if r.method == "DELETE"
        then deleted (cancel api (m.clock 0) id s)
        else if r.method == "POST" && r.query "complete" == "true"
        then complete_by_id m id r s
        else if not (r.method == "GET")
        then (only_status 405, s)
        else (get_by_id api id s, s)
  ]
