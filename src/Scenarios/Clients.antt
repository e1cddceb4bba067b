-- ===== src/Scenarios/Clients.antt =====
-- Requests of a worker's client, at which the theorems on it are applied.
use job_raft.Task.{running, Task}
use job_raft.Scheduler.Complete.{complete_task_with_result}
use job_raft.Api.Poll.{claim_retry_min, poll}
use job_raft.WorkerClient.Run.{renew_interval_lem, renew_interval}
use job_raft.Api.Serve.{worker_heartbeat}
use job_raft.Base.{
  ℕ, suc, ◌+◌, ◌*◌, ◌≡◌, refl, ◌≤◌, ◌<◌, inl, inr, String, none, some, [], arith, ℤ, pos,
}
use job_raft.Store.Memory.{memory}
use job_raft.Scenarios.{sample, with_task}
use job_raft.Scenarios.Requests.{toy_library, moment, nth_round}
use job_raft.WorkerClient.{complete_with_result, claim_request, Wire, Client}
use job_raft.WorkerClient.Served.{over_tasks, reported, claim_wait-served, complete-served}
use job_raft.WorkerClient.Urls.{arrives, Urls, ReadsUrls, is_word}
use job_raft.Scenarios.Url.{has_mark, bare, based_urls, bare_urls-ReadsUrls}
use job_raft.Api.{Body}
use job_raft.Cluster.{memory_registry}

-- A library that escapes by `bare`, and a network that is down.
abbrev toy_wire : Wire ℕ
toy_wire = record {
  escape_path = bare;
  escape_query = λ s. s;
  trim_right = λ s. s;
  duration_text = λ d. "1s";
  marshal = λ p. inr "json";
  parse_url = λ u. none;
  decode_task = λ s. inl "no JSON";
  send = λ out n. (inl "no network", suc n);
}

abbrev toy_client : Client
toy_client = record {
  base_url = "http://localhost";
  worker_id = "w";
  api_token = "";
  poll_interval = pos 1000000000;
}

abbrev one_second : ℤ
one_second = pos 1000000000

abbrev toy_urls : Urls
toy_urls = based_urls "http://localhost"

toy_urls-ReadsUrls : ReadsUrls toy_wire toy_urls "http://localhost"
toy_urls-ReadsUrls = bare_urls-ReadsUrls toy_wire "http://localhost" (λ id. refl)

claim_wait-served_example :
    worker_heartbeat toy_library memory memory_registry 601 nth_round moment
      (arrives toy_urls (claim_request toy_wire toy_client one_second))
      (with_task sample)
    ≡ poll memory 601 1000000010 claim_retry_min nth_round "w" (with_task sample)
unfolding bare has_mark is_word
claim_wait-served_example =
    claim_wait-served toy_wire toy_library memory memory_registry toy_urls toy_client one_second 601
      nth_round moment (with_task sample) toy_urls-ReadsUrls refl refl refl refl refl

abbrev held_task : Task
held_task = record sample {
  status = running;
  worker_id = "w";
  lease_token = "t";
  lease_until = some 1000;
}

-- What the client reads of an answer.
abbrev no_text : Body → String
no_text b = "refused"

complete-served_example :
    complete_with_result
      (over_tasks toy_wire toy_library memory memory_registry toy_urls no_text moment)
      toy_client
      held_task
      none
      (some [])
      (with_task held_task)
    ≡ reported toy_wire toy_library memory memory_registry toy_urls no_text
        (complete_task_with_result memory 10 11 "w" "a" "t" "" [] (with_task held_task))
unfolding bare has_mark
complete-served_example =
    complete-served toy_wire toy_library memory memory_registry toy_urls no_text toy_client
      held_task none (some []) [] "json" moment (with_task held_task) toy_urls-ReadsUrls refl refl
      refl refl refl

renew_interval_lem_example :
    (n : ℕ) × (renew_interval 10 one_second (record sample { lease_until = some 1000 }) ≡ pos n)
    × (0 < n)
    × (10 + 3 * n ≤ 1000)
renew_interval_lem_example =
    renew_interval_lem 10 1000 one_second (record sample { lease_until = some 1000 }) refl
      (omega arith)
