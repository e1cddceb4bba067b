-- ===== src/Scenarios/Requests.antt =====
-- Requests to a server over a memory store, at which the theorems on the API are applied.
use job_raft.Api.Tasks.Retried.{submit_tasks-again}
use job_raft.Scheduler.Submit.{
  dependency_error, with_defaults, find_by_idempotency_key, in_flight_count, queue_error, duplicate,
  submit,
}
use job_raft.Api.Tasks.Listing.{list_tasks_complete, list_tasks_lem, Fits}
use job_raft.Api.Poll.Ends.{worker_claim-answers, TimersLast}
use job_raft.Api.Serve.{serve, provided, is_public, admits}
use job_raft.Api.Access.{IsOutside, serve-get, serve_all-outside, ProbesMatch}
use job_raft.Api.Tasks.Effects.{is_purge}
use job_raft.Cluster.{memory_registry, Nodes}
use job_raft.Api.Requests.{
  requests_frozen, acts, KeepsRecords, visits, left_by, serve_all, Event, Visit,
}
use job_raft.Api.Poll.{claim_deadline, claim_retry_min, worker_claim, pause, Round}
use job_raft.Api.Tasks.{
  run_at_of, submitted_task, list_tasks, submit_reply, idempotency_key_of, submit_tasks, Moment,
}
use job_raft.Api.Filter.{status_text, read_limit, valid_status}
use job_raft.Store.{is_in_flight, ok}
use job_raft.Task.{validate, success, is_terminal, Task}
use job_raft.Base.{
  In, insert, All, trim_prefix, map, ℕ, ◌+◌, ◌-◌, ◌*◌, ◌≡◌, refl, ◌≤◌, ◌⊎◌, inl, inr, String, true,
  false, none, some, List, [], ◌∷◌, arith, ◌==◌, if◌then◌else◌, lookup, length, pos,
}
use job_raft.Api.{
  Submission, task_list, task, write_json, matched, Request, Library, Response, Server,
}
use job_raft.Scheduler.{get, list, Scheduler, new}
use job_raft.Store.Memory.{MemoryStore, memory}
use job_raft.Store.Memory
use job_raft.Scenarios.{sample, with_task, memory-IsPlain}
use job_raft.Scheduler.Calls.{cancels}

abbrev toy_submission : String → Submission
toy_submission b = record {
  id = b;
  name = "mail";
  priority = pos 0;
  depends_on = [];
  payload = [];
  run_at = none;
  delay = pos 0;
  timeout = pos 0;
  schedule = pos 0;
  retry = record { max_attempts = pos 2; backoff = pos 5 };
}

abbrev pub toy_library : Library
toy_library = record {
  path_unescape = λ s. some s;
  parse_duration = λ s. if s == "1s" then some (pos 1000000000) else none;
  atoi = λ s. some (pos 1);
  trim_space = λ s. s;
  decode_id = λ b. inr b;
  decode_ids = λ b. inr (b ∷ []);
  decode_lease_token = λ b. inr b;
  decode_completion =
      λ b. inr (record { worker_id = "w"; lease_token = "t"; error = ""; result = [] });
  decode_submission = λ b. inr (toy_submission b);
  mux = λ ps r. matched r.path;
}

-- A request without a query; every header has the same value.
abbrev pub request : String → String → String → String → Request
request method path header' body' = record {
  method = method;
  path = path;
  escaped_path = path;
  query = λ k. "";
  header = λ k. header';
  body = body';
}

abbrev pub moment : Moment
moment = record { clock = λ n. 10 + n; new_id = "n1"; submit_id = "n2"; depth = 3 }

abbrev pub nth_round : ℕ → Round
nth_round n = record {
  now_health = 10;
  now = 10;
  clock = λ n. 10;
  now_until = 10 + n * 50000000;
  gone = false;
  meanwhile = [];
}

abbrev visit : Request → Visit
visit r = record { fuel = 601; rounds = nth_round; moment = moment; request = r }

abbrev served_by : Scheduler MemoryStore → Server MemoryStore Nodes
served_by s = record { scheduler = s; registry = some []; token = "secret" }

-- The task of `sample` after it succeeded.
abbrev done_task : Task
done_task = record sample { status = success }

done_get : memory.get "a" (with_task done_task).store ≡ ok done_task
unfolding Memory.get lookup new
done_get = refl

done_final : is_terminal done_task ≡ true
unfolding is_terminal
done_final = refl

abbrev events : List Event
events = visits (visit (request "DELETE" "/tasks/a" "secret" "")) ∷ acts (cancels 6 "a") ∷ []

events-KeepsRecords : KeepsRecords events
unfolding is_purge
events-KeepsRecords = (refl, tt)

requests_frozen_example :
    memory.get "a"
      (serve_all toy_library memory memory_registry events
        (served_by (with_task done_task))).scheduler.store
    ≡ ok done_task
requests_frozen_example =
    requests_frozen toy_library memory memory_registry memory-IsPlain events
      (served_by (with_task done_task)) "a" done_task events-KeepsRecords done_get done_final

toy_library-ProbesMatch : ProbesMatch toy_library
toy_library-ProbesMatch r public = inl refl

abbrev strangers : List Visit
strangers = visit (request "POST" "/tasks" "wrong" "b") ∷ visit (request "GET" "/readyz" "" "") ∷ []

strangers-IsOutside : IsOutside "secret" strangers
unfolding admits is_public provided trim_prefix
strangers-IsOutside = (inl refl, (inr refl, tt))

serve_all-outside_example :
    serve_all toy_library memory memory_registry
      (map visits strangers)
      (served_by (with_task sample))
    ≡ served_by (with_task sample)
serve_all-outside_example =
    serve_all-outside toy_library memory memory_registry toy_library-ProbesMatch strangers
      (served_by (with_task sample)) strangers-IsOutside

serve-get_example :
    (left_by toy_library memory memory_registry (served_by (with_task sample)) (
      serve toy_library memory memory_registry 601 nth_round moment
        (request "GET" "/tasks" "secret" "")
        (served_by (with_task sample)))).scheduler
    ≡ with_task sample
serve-get_example =
    serve-get toy_library memory memory_registry 601 nth_round moment
      (request "GET" "/tasks" "secret" "") (served_by (with_task sample)) refl

-- A claim that may wait for a second.
abbrev claim_for_second : Request
claim_for_second = record (request "POST" "/workers/w/claim" "secret" "") { query = λ k. "1s" }

pause-le : (interval remaining : ℕ) → pause interval remaining ≤ interval
unfolding pause
pause-le interval remaining = ground arith

nth_round-TimersLast : (deadline : ℕ) → TimersLast deadline nth_round
nth_round-TimersLast deadline n =
    omega (arith, pause-le claim_retry_min (deadline - (nth_round n).now_until))

worker_claim-answers_example :
    (response : Response) × (s' : Scheduler MemoryStore) × (worker_claim memory toy_library 601 10
        nth_round claim_for_second
        (with_task sample)
      ≡ some (response, s'))
worker_claim-answers_example =
    worker_claim-answers memory toy_library 10 nth_round claim_for_second (with_task sample)
      (omega arith) (nth_round-TimersLast (claim_deadline toy_library 10 "1s"))

abbrev keyed_post : Request
keyed_post = request "POST" "/tasks" "k" "b"

posted : (submit_tasks toy_library memory moment keyed_post (with_task sample)).0.code ≡ 201
unfolding submit_tasks submit_reply submit duplicate queue_error in_flight_count
    find_by_idempotency_key with_defaults dependency_error Memory.create Memory.get
    Memory.get_by_idempotency_key Memory.count_in_flight Memory.find_key validate lookup insert new
    is_in_flight idempotency_key_of submitted_task run_at_of write_json get
posted = refl

keyed_post-key : (idempotency_key_of toy_library keyed_post == "") ≡ false
unfolding idempotency_key_of
keyed_post-key = refl

submit_tasks-again_example :
    (t : Task) × ((submit_tasks toy_library memory moment keyed_post (with_task sample)).0
      ≡ write_json 201 (task t))
    × (submit_tasks toy_library memory moment keyed_post
          (submit_tasks toy_library memory moment keyed_post (with_task sample)).1
        ≡ (
          write_json 200 (task t),
          (submit_tasks toy_library memory moment keyed_post (with_task sample)).1,
        ))
submit_tasks-again_example =
    submit_tasks-again toy_library moment moment keyed_post keyed_post (with_task sample)
      (toy_submission "b") posted refl keyed_post-key refl refl

listed_one : list memory (with_task sample) ≡ ok (sample ∷ [])
unfolding list Memory.list new
listed_one = refl

known_status : valid_status "pending" ≡ true
unfolding valid_status status_text
known_status = refl

abbrev no_limit_number : ℕ
no_limit_number = 0

no_limit : read_limit toy_library "" ≡ some no_limit_number
unfolding read_limit
no_limit = refl

abbrev list_pending : Request
list_pending = record (request "GET" "/tasks" "secret" "") {
  query = λ k. if k == "status" then "pending" else "";
}

list_tasks_lem_example :
    (ts : List Task) × (list_tasks toy_library memory list_pending (with_task sample)
      ≡ write_json 200 (task_list ts))
    × All (λ t. In t (sample ∷ []) × Fits "pending" "" t) ts
    × ((no_limit_number ≡ 0) ⊎ (length ts ≤ no_limit_number))
list_tasks_lem_example =
    list_tasks_lem toy_library memory list_pending (with_task sample) (sample ∷ []) no_limit_number
      listed_one (inr known_status) no_limit

pending_sample : Fits "pending" "" sample
unfolding status_text
pending_sample = (inr refl, inl refl)

list_tasks_complete_example :
    (ts : List Task) × (list_tasks toy_library memory list_pending (with_task sample)
      ≡ write_json 200 (task_list ts))
    × In sample ts
list_tasks_complete_example =
    list_tasks_complete toy_library memory list_pending (with_task sample) (sample ∷ []) sample
      listed_one (inr known_status) refl (inl refl) pending_sample
