-- ===== src/Api/Serve.antt =====
-- internal/api/server.go: the routes, and the authentication in front of them.
use job_raft.Api.Views.{admin, view_cluster, show_metrics, ready}
use job_raft.Api.Workers.{list_or_register_workers, beat, worker_renew}
use job_raft.Api.Tasks.{task_by_id, tasks, Moment}
use job_raft.Api.Poll.{worker_claim, Round}
use job_raft.Store.{Store}
use job_raft.Base.{
  arith, true, ◌⊎◌, false, ◌≡◌, has_suffix, trim_prefix, ℕ, String, Bool, not, ◌||◌, Option, none,
  some, List, [], ◌∷◌, ◌==◌, if◌then◌else◌,
}
use job_raft.Cluster.{Registry}
use job_raft.Api.{
  answered, state, matched, write_json, told, failure, Request, Library, Response, Server,
}
use job_raft.Scheduler.{Scheduler}

-- The patterns that `Handler` registers.
abbrev pub patterns : List String
patterns =
    "/healthz" ∷ "/readyz" ∷ "/metrics" ∷ "/cluster" ∷ "/admin" ∷ "/tasks" ∷ "/tasks/" ∷ "/workers"
    ∷ "/workers/" ∷ []

-- The credential of a request.
unfoldable pub provided : Request → String
provided r =
    let key = r.header "X-API-Key" in
    if key == "" then trim_prefix (r.header "Authorization") "Bearer " else key

-- The health probes, which need no credential.
unfoldable pub is_public : Request → Bool
is_public r = r.path == "/healthz" || r.path == "/readyz"

-- The server lets the request through to its routes.
unfoldable pub admits : String → Request → Bool
admits token r = token == "" || (is_public r || provided r == token)

abbrev pub unauthorized : Response
unauthorized = record {
  code = 401;
  headers = ("WWW-Authenticate", "Bearer") ∷ ("Content-Type", "application/json") ∷ [];
  body = failure (told "authentication required");
}

module _ {S R : Type 0} (lib : Library) (api : Store S) (registry : Registry R) where
  abbrev with_scheduler : Response × Scheduler S → Server S R → Response × Server S R
  with_scheduler (response, s) srv = (response, record srv { scheduler = s })

  abbrev pub with_claimed :
      Option (Response × Scheduler S) → Server S R → Option (Response × Server S R)
  with_claimed none srv = none
  with_claimed (some r) srv = some (with_scheduler r srv)

  -- `workerHeartbeat`, with the fuel and the rounds of a claim that waits.
  unfoldable pub worker_heartbeat :
      ℕ → (ℕ → Round) → Moment → Request → Scheduler S → Option (Response × Scheduler S)
  worker_heartbeat fuel rounds m r s =
      if has_suffix r.escaped_path "/claim"
      then worker_claim api lib fuel (m.clock 0) rounds r s
      else if has_suffix r.escaped_path "/renew"
      then some (worker_renew lib api (m.clock 0) (m.clock 1) r s)
      else some (beat lib api (m.clock 0) r s)

  -- The handler of a pattern.
  unfoldable pub dispatch :
      ℕ → (ℕ → Round) → Moment → String → Request → Server S R → Option (Response × Server S R)
  dispatch fuel rounds m pattern' r srv =
      let s = srv.scheduler in
      if pattern' == "/healthz"
      then some (write_json 200 (state "ok" none), srv)
      else if pattern' == "/readyz"
      then some (ready api r s, srv)
      else if pattern' == "/metrics"
      then some (show_metrics api (m.clock 0) r s, srv)
      else if pattern' == "/cluster"
      then (let (response, nodes) = view_cluster registry (m.clock 0) (m.clock 1) r srv.registry in
          some (response, record srv { registry = nodes }))
      else if pattern' == "/admin"
      then some (admin r, srv)
      else if pattern' == "/tasks"
      then some (with_scheduler (tasks lib api m r s) srv)
      else if pattern' == "/tasks/"
      then some (with_scheduler (task_by_id lib api m r s) srv)
      else if pattern' == "/workers"
      then some (with_scheduler (list_or_register_workers lib api (m.clock 0) r s) srv)
      else with_claimed (worker_heartbeat fuel rounds m r s) srv

  unfoldable pub route :
      ℕ → (ℕ → Round) → Moment → Request → Server S R → Option (Response × Server S R)
  route fuel rounds m r srv = elim (lib.mux patterns r) [
    | matched pattern' ↦ dispatch fuel rounds m pattern' r srv
    | answered response ↦ some (response, srv)
  ]

  -- A request to the handler that `Handler` gives.
  unfoldable pub serve :
      ℕ → (ℕ → Round) → Moment → Request → Server S R → Option (Response × Server S R)
  serve fuel rounds m r srv =
      let routed = route fuel rounds m r srv in
      if srv.token == ""
      then routed
      else if is_public r
      then routed
      else if not (provided r == srv.token)
      then some (unauthorized, srv)
      else routed

  -- A request that is not admitted gets 401, whatever it asks for, and nothing else happens; an
  -- admitted one goes to its route.
  pub serve_cases :
      (fuel : ℕ) (rounds : ℕ → Round) (m : Moment) (r : Request) (srv : Server S R)
      → ((admits srv.token r ≡ false) × (serve fuel rounds m r srv ≡ some (unauthorized, srv)))
        ⊎ ((admits srv.token r ≡ true) × (serve fuel rounds m r srv ≡ route fuel rounds m r srv))
  unfolding serve admits
  serve_cases fuel rounds m r srv = ground arith
