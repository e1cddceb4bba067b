-- ===== src/WorkerClient.antt =====
-- pkg/workerclient/client.go: the client of a remote worker. The Go library, the network and the
-- server are a value of an abstract type `W`, with the library's functions in `Wire`.
pub mod Run
pub mod Served
pub mod Urls
use Prim.Native.String.{◌++◌}
use job_raft.Base.{
  eq_ℕ, ltb_ℤ, ℕ, ◌⊎◌, inl, inr, String, Bool, not, ◌||◌, Option, none, some, List, ◌==◌, ltb,
  if◌then◌else◌, ℤ, pos,
}
use job_raft.Task.{Task}

-- What the client puts in a request's body, before it is JSON.
pub data Payload : Type 0 where
  worker_id : String → Payload
  lease_token : String → Payload
  -- The worker, the token, the error's text, if any, and the result, if any.
  completion : String → String → Option String → Option (List ℕ) → Payload

-- A POST request: its URL, the values of two headers, "" for one that is not set, and its body.
pub record Outgoing : Type 0 where
  pub url : String
  pub content_type : String
  pub authorization : String
  pub body : String

pub record Reply : Type 0 where
  pub status_code : ℕ
  pub body : String

-- `ErrNoTask`, an error with a text, or the end of a context.
pub data ClientErr : Type 0 where
  no_task_available : ClientErr
  failed : String → ClientErr
  context_done : ClientErr

-- `escape_path` is `url.PathEscape`, `escape_query` is `url.QueryEscape`, `trim_right` is
-- `strings.TrimRight(s, "/")`, `duration_text` is `Duration.String`, and `marshal`, `parse_url` and
-- `decode_task` give the text of their error, or the value. `send` is `Do`, with the body read.
pub record Wire (W : Type 0) : Type 0 where
  pub escape_path : String → String
  pub escape_query : String → String
  pub trim_right : String → String
  pub duration_text : ℤ → String
  pub marshal : Payload → String ⊎ String
  pub parse_url : String → Option String
  pub decode_task : String → String ⊎ Task
  pub send : Outgoing → W → (String ⊎ Reply) × W

pub record Client : Type 0 where
  pub base_url : String
  pub worker_id : String
  pub api_token : String
  pub poll_interval : ℤ

-- The result of a call: an error, or a value.
abbrev pub Answer : Type 0 → Type 0
Answer A = ClientErr ⊎ A

-- `req.Header.Set("Authorization", "Bearer "+c.APIToken)`, if there is a token.
unfoldable pub authorization_of : Client → String
authorization_of c = if c.api_token == "" then "" else "Bearer " ++ c.api_token

-- `resp.StatusCode < 200 || resp.StatusCode >= 300`
abbrev bad_status : ℕ → Bool
bad_status code = ltb code 200 || not (ltb code 300)

abbrev answered_with : Reply → Answer Reply
answered_with reply = if bad_status reply.status_code then inl (failed reply.body) else inr reply

module _ {W : Type 0} (wire : Wire W) where
  -- What `Do` gives, with the text of its error.
  abbrev pub sent : Outgoing → W → Answer Reply × W
  sent out w =
      let r = wire.send out w in
      (elim r.0 [ inl problem ↦ inl (failed problem) | inr reply ↦ inr reply ], r.1)

  abbrev pub sent_well : Answer Reply × W → Answer Reply × W
  sent_well (inl e, w) = (inl e, w)
  sent_well (inr reply, w) = (answered_with reply, w)

  -- The request that `postJSON` makes of a path and an encoded body.
  unfoldable pub post_request : Client → String → String → Outgoing
  post_request c path data' = record {
    url = wire.trim_right c.base_url ++ path;
    content_type = "application/json";
    authorization = authorization_of c;
    body = data';
  }

  -- `postJSON`, up to the decoding of the answer; a nil body is none.
  unfoldable pub post_json : Client → String → Option Payload → W → Answer Reply × W
  post_json c path body w =
      let encoded : String ⊎ String = elim body [ none ↦ inr "" | some p ↦ wire.marshal p ] in
      elim encoded [
        | inl problem ↦ (inl (failed problem), w)
        | inr data' ↦
            let out = post_request c path data' in
            elim (wire.parse_url out.url) [
              | some problem ↦ (inl (failed problem), w)
              | none ↦ sent_well (sent out w)
            ]
      ]

  -- What is left of an answer whose value is not looked at.
  abbrev pub dropped : Answer Reply × W → Option ClientErr × W
  dropped (inl e, w) = (some e, w)
  dropped (inr _, w) = (none, w)

  abbrev decoded : Answer Reply × W → Answer Task × W
  decoded (inl e, w) = (inl e, w)
  decoded (inr reply, w) =
      (elim (wire.decode_task reply.body) [ inl problem ↦ inl (failed problem) | inr t ↦ inr t ], w)

  -- `Register`
  unfoldable pub register_self : Client → W → Option ClientErr × W
  register_self c w = dropped (post_json c "/workers" (some (worker_id c.worker_id)) w)

  unfoldable pub heartbeat_path : Client → String
  heartbeat_path c = "/workers/" ++ wire.escape_path c.worker_id

  -- `Heartbeat`
  unfoldable pub send_heartbeat : Client → W → Option ClientErr × W
  send_heartbeat c w = dropped (post_json c (heartbeat_path c) none w)

  -- The path of a claim, with its query.
  unfoldable pub claim_path : Client → ℤ → String
  claim_path c wait =
      let path = ("/workers/" ++ wire.escape_path c.worker_id) ++ "/claim" in
      if ltb_ℤ (pos 0) wait then path ++ ("?wait=" ++ wire.duration_text wait) else path

  unfoldable pub claim_request : Client → ℤ → Outgoing
  claim_request c wait = record {
    url = wire.trim_right c.base_url ++ claim_path c wait;
    content_type = "";
    authorization = authorization_of c;
    body = "";
  }

  -- The answer to a claim: only 200 carries a task, and 204 is no task.
  abbrev claimed_answer : Answer Reply × W → Answer Task × W
  claimed_answer (inl e, w) = (inl e, w)
  claimed_answer (inr reply, w) =
      if eq_ℕ reply.status_code 204
      then (inl no_task_available, w)
      else if not (eq_ℕ reply.status_code 200)
      then (inl (failed reply.body), w)
      else decoded (inr reply, w)

  -- `ClaimWait`
  unfoldable pub claim_wait : Client → ℤ → W → Answer Task × W
  claim_wait c wait w =
      let out = claim_request c wait in
      elim (wire.parse_url out.url) [
        | some problem ↦ (inl (failed problem), w)
        | none ↦ claimed_answer (sent out w)
      ]

  unfoldable pub renew_path : Client → String → String
  renew_path c id =
      (("/workers/" ++ wire.escape_path c.worker_id) ++ "/tasks/renew?task=")
      ++ wire.escape_query id

  -- `RenewLease`
  unfoldable pub renew_lease : Client → Task → W → Answer Task × W
  renew_lease c t w = decoded (post_json c (renew_path c t.id) (some (lease_token t.lease_token)) w)

  unfoldable pub complete_path : String → String
  complete_path id = ("/tasks/" ++ wire.escape_path id) ++ "?complete=true"

  -- `CompleteWithResult`
  unfoldable pub complete_with_result :
      Client → Task → Option String → Option (List ℕ) → W → Option ClientErr × W
  complete_with_result c t run_err result w = dropped (
      post_json c (complete_path t.id) (some (completion c.worker_id t.lease_token run_err result))
        w)

  -- `Complete`
  unfoldable pub complete_run : Client → Task → Option String → W → Option ClientErr × W
  complete_run c t run_err w = complete_with_result c t run_err none w

  -- `Claim`
  unfoldable pub claim_now : Client → W → Answer Task × W
  claim_now c w = claim_wait c (pos 0) w
