-- ===== src/WorkerClient/Served.antt =====
-- pkg/workerclient/client.go and internal/api/server.go together: what the server does with the
-- requests that a client builds.
use job_raft.Scheduler.Complete.{complete_task_with_result}
use job_raft.Api.Tasks.{no_content, complete_by_id, task_by_id, Moment}
use job_raft.Api.Workers.{path_id}
use job_raft.Api.Poll.{max_wait, claim_retry_min, poll, claim_deadline, Round, worker_claim}
use job_raft.Api.Serve.{worker_heartbeat}
use job_raft.Store.{Store}
use Prim.Native.String.{◌++◌}
use text.Mathlib.TextLemmas.{append_assoc, append-nil}
use job_raft.Base.{
  has_suffix-append, has_suffix, trim_suffix-append, trim_prefix-append, trim_prefix, trim_suffix,
  ltb_ℤ, ℕ, ◌≡◌, refl, ap, ◌∙◌, inl, inr, String, true, false, not, ◌&&◌, Option, none, some, List,
  ◌==◌, if◌then◌else◌, Bool-cases, ℤ, pos,
}
use job_raft.WorkerClient.{
  complete_path, completion, post_request, claim_request, claim_path, complete_with_result,
  post_json, failed, dropped, sent, sent_well, Client, Wire, ClientErr,
}
use job_raft.Task.{Err, add_time, Task}
use job_raft.Api.{failed_with, write_json, Library, Body}
use job_raft.Cluster.{Registry}
use job_raft.Scheduler.{Scheduler}
use job_raft.WorkerClient.Urls.{Urls, ReadsUrls, arrives, is_plain, is_word}

path_id-some :
    (lib : Library) (e id : String)
    → lib.path_unescape e ≡ some id
    → (id == "") ≡ false
    → path_id lib e ≡ some id
unfolding path_id
path_id-some lib e id back named = rw (back, named, path_id) refl

module _ {S R W : Type 0} (wire : Wire W) (lib : Library) (api : Store S) (registry : Registry R)
    (urls : Urls) where
  -- The deadline of a wait that the text stands for.
  claim_deadline_lem :
      (now : ℕ) (wait : ℤ) (asked : String)
      → asked ≡ (if ltb_ℤ (pos 0) wait then wire.duration_text wait else "")
      → lib.parse_duration (wire.duration_text wait) ≡ some wait
      → (wire.duration_text wait == "") ≡ false
      → claim_deadline lib now asked
        ≡ (if ltb_ℤ (pos 0) wait && not (ltb_ℤ (pos max_wait) wait) then add_time now wait else now)
  unfolding claim_deadline
  claim_deadline_lem now wait asked e back some' = elim (Bool-cases (ltb_ℤ (pos 0) wait)) [
    | inl waits ↦
        let asked' : asked ≡ wire.duration_text wait = rw waits at e in
        rw (asked', some', back, waits, claim_deadline) refl
    | inr never ↦ let asked' : asked ≡ "" = rw never at e in rw (asked', never, claim_deadline) refl
  ]

  -- What the server reads of the path of a claim.
  claim_path-read :
      (e : String)
      → trim_suffix (trim_prefix (("/workers/" ++ e) ++ "/claim") "/workers/") "/claim" ≡ e
  claim_path-read e =
      ap (λ p. trim_suffix (trim_prefix p "/workers/") "/claim")
        (append_assoc "/workers/" e "/claim")
      ∙ ap (λ p. trim_suffix p "/claim") (trim_prefix-append "/workers/" (e ++ "/claim"))
      ∙ trim_suffix-append e "/claim"

  -- The query of a claim, as key and value.
  wait_text : (d : String) → "?wait=" ++ d ≡ "?" ++ ("wait" ++ ("=" ++ d))
  wait_text d = append_assoc "?wait" "=" d ∙ append_assoc "?" "wait" ("=" ++ d)

  -- What the server reads of the URL of a claim.
  claim_request-read :
      (c : Client) (wait : ℤ)
      → ReadsUrls wire urls (wire.trim_right c.base_url)
      → is_word (wire.duration_text wait) ≡ true
      → (urls.escaped_path (claim_request wire c wait).url
          ≡ ("/workers/" ++ wire.escape_path c.worker_id) ++ "/claim")
        × (urls.value (claim_request wire c wait).url "wait"
            ≡ (if ltb_ℤ (pos 0) wait then wire.duration_text wait else ""))
  unfolding claim_request claim_path is_plain is_word
  claim_request-read c wait reads word = elim (Bool-cases (ltb_ℤ (pos 0) wait)) [
    | inl waits ↦
        rw (waits, claim_path, wait_text (wire.duration_text wait))
          (reads.reads_query "/workers/" c.worker_id "/claim" "wait" (wire.duration_text wait) refl
            refl refl refl word)
    | inr never ↦
        let (path, value) = reads.reads_path "/workers/" c.worker_id "/claim" refl refl refl in
        rw (never, claim_path) (path, value "wait")
  ]

  -- A claim that a client sends is its worker's long poll at the server, and the server waits as long
  -- as the client asks for, up to 30 s: a longer wait is no wait. The worker's identifier is not
  -- empty; unescaping undoes escaping for it; reading undoes printing for the duration, which prints
  -- as letters, digits and dots; and URLs are read as package net/url documents.
  pub claim_wait-served :
      (c : Client) (wait : ℤ) (fuel : ℕ) (rounds : ℕ → Round) (m : Moment) (s : Scheduler S)
      → ReadsUrls wire urls (wire.trim_right c.base_url)
      → (c.worker_id == "") ≡ false
      → lib.path_unescape (wire.escape_path c.worker_id) ≡ some c.worker_id
      → lib.parse_duration (wire.duration_text wait) ≡ some wait
      → (wire.duration_text wait == "") ≡ false
      → is_word (wire.duration_text wait) ≡ true
      → worker_heartbeat lib api registry fuel rounds m (arrives urls (claim_request wire c wait)) s
        ≡ poll api fuel
            (if ltb_ℤ (pos 0) wait && not (ltb_ℤ (pos max_wait) wait)
              then add_time (m.clock 0) wait
              else m.clock 0)
            claim_retry_min
            rounds
            c.worker_id
            s
  unfolding worker_heartbeat worker_claim arrives path_id
  claim_wait-served c wait fuel rounds m s reads named back back' printed word =
      let (path, asked) = claim_request-read c wait reads word in
      let e = wire.escape_path c.worker_id in
      let url = (claim_request wire c wait).url in
      let ends : has_suffix (urls.escaped_path url) "/claim" ≡ true =
        ap (λ p. has_suffix p "/claim") path ∙ has_suffix-append ("/workers/" ++ e) "/claim" in
      let read : trim_suffix (trim_prefix (urls.escaped_path url) "/workers/") "/claim" ≡ e =
        ap (λ p. trim_suffix (trim_prefix p "/workers/") "/claim") path ∙ claim_path-read e in
      let found : path_id lib
            (trim_suffix (trim_prefix (urls.escaped_path url) "/workers/") "/claim")
          ≡ some c.worker_id =
        ap (path_id lib) read ∙ path_id-some lib e c.worker_id back named in
      let deadline =
        claim_deadline_lem (m.clock 0) wait (urls.value url "wait") asked back' printed in
      rw (ends, found, worker_claim, worker_heartbeat)
        (ap (λ d. poll api fuel d claim_retry_min rounds c.worker_id s) deadline)

  -- The network that hands each request of a client to the handler of /tasks/{id}, and gives the
  -- client its answer. The body of an answer is its JSON.
  abbrev pub over_tasks : (Body → String) → Moment → Wire (Scheduler S)
  over_tasks encode m = record {
    escape_path = wire.escape_path;
    escape_query = wire.escape_query;
    trim_right = wire.trim_right;
    duration_text = wire.duration_text;
    marshal = wire.marshal;
    parse_url = wire.parse_url;
    decode_task = wire.decode_task;
    send = λ out s.
        let (response, s') = task_by_id lib api m (arrives urls out) s in
        (inr (record { status_code = response.code; body = encode response.body }), s');
  }

  -- What the client makes of the outcome of its completion.
  abbrev pub reported : (Body → String) → Option Err × Scheduler S → Option ClientErr × Scheduler S
  reported encode (none, s) = (none, s)
  reported encode (some e, s) = (some (failed (encode (failed_with 409 e).body)), s)

  -- The status of the answer tells the client whether the completion went through.
  reported-no_content :
      (encode : Body → String) (m : Moment) (r : Option Err × Scheduler S)
      → dropped (over_tasks encode m) (
          sent_well (over_tasks encode m) (
            inr (record {
              status_code = (no_content 409 r).0.code;
              body = encode (no_content 409 r).0.body;
            }),
            (no_content 409 r).1,
          ))
        ≡ reported encode r
  unfolding write_json
  reported-no_content encode m (none, s) = refl
  reported-no_content encode m (some e, s) = refl

  -- What the server reads of the URL of a completion.
  complete_path-read :
      (base id : String)
      → ReadsUrls wire urls base
      → (urls.escaped_path (base ++ complete_path wire id) ≡ "/tasks/" ++ wire.escape_path id)
        × (urls.value (base ++ complete_path wire id) "complete" ≡ "true")
  unfolding complete_path is_plain is_word
  complete_path-read base id reads =
      let (path, asked) =
        reads.reads_query "/tasks/" id "" "complete" "true" refl refl refl refl refl in
      let bare = append-nil ("/tasks/" ++ wire.escape_path id) in
      (rw bare at path, rw bare at asked)

  -- A client that completes a task over this network makes the call of `CompleteTaskWithResult` for the
  -- task that it claimed, with the client's worker, the task's lease token, the error's text, and the
  -- result, and it reports an error if the call was refused. The task's identifier is not empty and
  -- unescaping undoes escaping for it; the URL parses and is read as package net/url documents; and
  -- the body is read as it was written, but for the layout of the result.
  pub complete-served :
      (encode : Body → String) (c : Client) (t : Task) (run_err : Option String)
      (result : Option (List ℕ)) (received : List ℕ) (data' : String) (m : Moment) (s : Scheduler S)
      → ReadsUrls wire urls (wire.trim_right c.base_url)
      → (t.id == "") ≡ false
      → lib.path_unescape (wire.escape_path t.id) ≡ some t.id
      → wire.parse_url (wire.trim_right c.base_url ++ complete_path wire t.id) ≡ none
      → wire.marshal (completion c.worker_id t.lease_token run_err result) ≡ inr data'
      → lib.decode_completion data'
        ≡ inr (record {
          worker_id = c.worker_id;
          lease_token = t.lease_token;
          error = elim run_err [ none ↦ "" | some e ↦ e ];
          result = received;
        })
      → complete_with_result (over_tasks encode m) c t run_err result s
        ≡ reported encode (
            complete_task_with_result api
              (m.clock 0)
              (m.clock 1)
              c.worker_id
              t.id
              t.lease_token
              (elim run_err [ none ↦ "" | some e ↦ e ])
              received
              s)
  unfolding complete_with_result post_json post_request complete_path task_by_id complete_by_id
      arrives path_id
  complete-served encode c t run_err result received data' m s reads named back parsed sent' read =
      let e = wire.escape_path t.id in
      let url = wire.trim_right c.base_url ++ complete_path wire t.id in
      let (path, asked) = complete_path-read (wire.trim_right c.base_url) t.id reads in
      let found : path_id lib (trim_prefix (urls.escaped_path url) "/tasks/") ≡ some t.id =
        ap (λ p. path_id lib (trim_prefix p "/tasks/")) path
        ∙ ap (path_id lib) (trim_prefix-append "/tasks/" e)
        ∙ path_id-some lib e t.id back named in
      let done' =
        complete_task_with_result api (m.clock 0) (m.clock 1) c.worker_id t.id t.lease_token
          (elim run_err [ none ↦ "" | some e ↦ e ]) received s in
      let network = over_tasks encode m in
      let out = post_request wire c (complete_path wire t.id) data' in
      let posted : complete_with_result network c t run_err result s
          ≡ dropped network (sent_well network (sent network out s)) =
        rw (sent', parsed, post_json, complete_with_result) refl in
      let answered : task_by_id lib api m (arrives urls out) s ≡ no_content 409 done' =
        rw (found, asked, read, complete_by_id, task_by_id) refl in
      posted
      ∙ ap
          (λ r. dropped network (
            sent_well network
              (inr (record { status_code = r.0.code; body = encode r.0.body }), r.1)))
          answered
      ∙ reported-no_content encode m done'
