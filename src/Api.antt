-- ===== src/Api.antt =====
-- internal/api/server.go: the HTTP server's state, its requests and its responses. What the Go
-- library does to a request before a handler reads it, and the JSON of a body, are functions of
-- `Library`.
pub mod Workers
pub mod Poll
pub mod Filter
pub mod Tasks
pub mod Views
pub mod Serve
pub mod Effects
pub mod Requests
pub mod Access
use job_raft.Base.{refl, inr, inl, ◌≡◌, ℕ, ◌⊎◌, String, Bool, Option, none, some, List, [], ◌∷◌, ℤ}
use job_raft.Task.{Task, Err, RetryPolicy}
use job_raft.Store.{Worker}
use job_raft.Scheduler.{Scheduler}
use job_raft.Scheduler.Metrics.{Metrics}
use job_raft.Cluster.{Node}

-- What the handlers read of an `http.Request`: `escaped_path` is `r.URL.EscapedPath()`, `query` is
-- `r.URL.Query().Get` and `header` is `r.Header.Get`.
pub record Request : Type 0 where
  pub method : String
  pub path : String
  pub escaped_path : String
  pub query : String → String
  pub header : String → String
  pub body : String

-- An entry of the answer to DELETE /tasks: the identifier, whether the record was purged (else
-- canceled), and the error, if any.
pub record Item : Type 0 where
  pub id : String
  pub purge : Bool
  pub error : Option Err

-- The value under "error": an error of the packages, or a text.
pub data Problem : Type 0 where
  returned : Err → Problem
  told : String → Problem

-- What is written after the header. `exposition` has the pending, running and retrying tasks, the
-- live workers, the latency buckets, their sum and their count.
pub data Body : Type 0 where
  nothing not_found_page admin_page : Body
  text : String → Body
  state : String → Option Err → Body
  failure : Problem → Body
  worker : Worker → Body
  live_workers : List Worker → Body
  task : Task → Body
  task_list : List Task → Body
  items : List Item → Body
  exposition : Metrics → ℕ → ℕ → ℕ → ℕ → List ℕ → ℕ → ℕ → Body
  view : Option Node → List Node → Body

pub record Response : Type 0 where
  pub code : ℕ
  pub headers : List (String × String)
  pub body : Body

-- The JSON object that POST /tasks takes; a missing field has Go's zero value.
pub record Submission : Type 0 where
  pub id : String
  pub name : String
  pub priority : ℤ
  pub depends_on : List String
  pub payload : List ℕ
  pub run_at : Option ℕ
  pub delay : ℤ
  pub timeout : ℤ
  pub schedule : ℤ
  pub retry : RetryPolicy

-- The JSON object that POST /tasks/{id}?complete=true takes.
pub record Completion : Type 0 where
  pub worker_id : String
  pub lease_token : String
  pub error : String
  pub result : List ℕ

-- What a ServeMux does with a request: it finds a pattern, or answers itself.
pub data Muxed : Type 0 where
  matched : String → Muxed
  answered : Response → Muxed

pub Muxed-cases :
    (x : Muxed) → ((p : String) × (x ≡ matched p)) ⊎ ((r : Response) × (x ≡ answered r))
Muxed-cases (matched p) = inl (p, refl)
Muxed-cases (answered r) = inr (r, refl)

-- The functions of the Go library. A decoder reads at most 2 ^ 20 bytes of a body and gives the text
-- of its error, or the value. `mux` takes the patterns that were registered.
pub record Library : Type 0 where
  pub path_unescape : String → Option String
  pub parse_duration : String → Option ℤ
  pub atoi : String → Option ℤ
  pub trim_space : String → String
  pub decode_id : String → String ⊎ String
  pub decode_ids : String → String ⊎ List String
  pub decode_lease_token : String → String ⊎ String
  pub decode_completion : String → String ⊎ Completion
  pub decode_submission : String → String ⊎ Submission
  pub mux : List String → Request → Muxed

-- `registry` is `none` where the source has nil.
pub record Server (S R : Type 0) : Type 0 where
  pub scheduler : Scheduler S
  pub registry : Option R
  pub token : String

unfoldable pub new_with_cluster_token : {S R : Type 0} → Scheduler S → R → String → Server S R
new_with_cluster_token s r token = record { scheduler = s; registry = some r; token = token }

unfoldable pub new_with_token : {S R : Type 0} → Scheduler S → String → Server S R
new_with_token s token = record { scheduler = s; registry = none; token = token }

unfoldable pub new_with_cluster : {S R : Type 0} → Scheduler S → R → Server S R
new_with_cluster s r = record { scheduler = s; registry = some r; token = "" }

-- `New` of package api.
unfoldable pub new_server : {S R : Type 0} → Scheduler S → Server S R
new_server s = record { scheduler = s; registry = none; token = "" }

-- `w.WriteHeader`
abbrev pub only_status : ℕ → Response
only_status code = record { code = code; headers = []; body = nothing }

unfoldable pub write_json : ℕ → Body → Response
write_json status v = record {
  code = status;
  headers = ("Content-Type", "application/json") ∷ [];
  body = v;
}

-- `http.NotFound`
abbrev pub not_found_response : Response
not_found_response = record { code = 404; headers = []; body = not_found_page }

abbrev pub failed_with : ℕ → Err → Response
failed_with status e = write_json status (failure (returned e))

abbrev pub failed_text : ℕ → String → Response
failed_text status s = write_json status (failure (told s))
