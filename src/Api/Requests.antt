-- ===== src/Api/Requests.antt =====
-- internal/api/server.go: what a server's requests do to its scheduler, whatever their order.
use job_raft.Task.{is_terminal, Task}
use job_raft.Scheduler.Calls.Frozen.{terminal_frozen, IsPlain}
use job_raft.Scheduler.Calls.Reached.{ByCalls-one, ByCalls-trans, ByCalls-refl, ByCalls}
use job_raft.Api.Serve.{
  serve_cases, patterns, admits, with_claimed, route, dispatch, worker_heartbeat, serve,
}
use job_raft.Api.Tasks.{Moment}
use job_raft.Store.{ok, Store}
use job_raft.Api.Effects.{
  list_or_register_workers-ByCalls, beat-ByCalls, worker_renew-ByCalls, worker_claim-ByCalls,
  EndsByCalls,
}
use job_raft.Api.Tasks.Effects.{task_by_id-ByCalls, tasks-ByCalls, is_purge}
use job_raft.Api.Poll.{Round}
use job_raft.Base.{
  has_suffix, ℕ, ◌≡◌, refl, inl, inr, String, true, false, Option, none, some, List, [], ◌∷◌, ◌==◌,
  Bool-cases,
}
use job_raft.Cluster.{Registry}
use job_raft.Scheduler.Calls.{Call, perform}
use job_raft.Scheduler.{Scheduler}
use job_raft.Api.{Muxed-cases, Request, Library, Response, Server}

-- A request, with the rounds that it may wait and what it finds out from outside.
pub record Visit : Type 0 where
  pub fuel : ℕ
  pub rounds : ℕ → Round
  pub moment : Moment
  pub request : Request

-- A request is served, or the scheduler's own loop and local workers act.
pub data Event : Type 0 where
  visits : Visit → Event
  acts : Call → Event

-- No request of the events is a purge.
abbrev pub KeepsRecords : List Event → Type 0
KeepsRecords [] = Unit
KeepsRecords (visits v ∷ es) = (is_purge v.request ≡ false) × KeepsRecords es
KeepsRecords (acts c ∷ es) = KeepsRecords es

module _ {S R : Type 0} (lib : Library) (api : Store S) (registry : Registry R) where
  -- A wait that is out of fuel would change nothing.
  abbrev pub left_by : Server S R → Option (Response × Server S R) → Server S R
  left_by srv none = srv
  left_by srv (some (response, srv')) = srv'

  unfoldable pub serve_all : List Event → Server S R → Server S R
  serve_all [] srv = srv
  serve_all (visits v ∷ es) srv =
      serve_all es (left_by srv (serve lib api registry v.fuel v.rounds v.moment v.request srv))
  serve_all (acts c ∷ es) srv =
      serve_all es (record srv { scheduler = perform api c srv.scheduler })

  with_claimed-ByCalls :
      (o : Option (Response × Scheduler S)) (srv : Server S R)
      → EndsByCalls api srv.scheduler o
      → ByCalls api srv.scheduler (left_by srv (with_claimed lib api registry o srv)).scheduler
  with_claimed-ByCalls none srv h = ByCalls-refl api srv.scheduler
  with_claimed-ByCalls (some (response, s)) srv h = h

  worker_heartbeat-ByCalls :
      (fuel : ℕ) (rounds : ℕ → Round) (m : Moment) (r : Request) (s : Scheduler S)
      → EndsByCalls api s (worker_heartbeat lib api registry fuel rounds m r s)
  unfolding worker_heartbeat
  worker_heartbeat-ByCalls fuel rounds m r s =
      elim (Bool-cases (has_suffix r.escaped_path "/claim")) [
        | inl claim ↦
            rw (claim, worker_heartbeat) (worker_claim-ByCalls api lib fuel (m.clock 0) rounds r s)
        | inr other ↦ elim (Bool-cases (has_suffix r.escaped_path "/renew")) [
          | inl renew ↦
              rw (other, renew, worker_heartbeat)
                (worker_renew-ByCalls api lib (m.clock 0) (m.clock 1) r s)
          | inr beats ↦ rw (other, beats, worker_heartbeat) (beat-ByCalls api lib (m.clock 0) r s)
        ]
      ]

  dispatch-ByCalls :
      (fuel : ℕ) (rounds : ℕ → Round) (m : Moment) (p : String) (r : Request) (srv : Server S R)
      → is_purge r ≡ false
      → ByCalls api srv.scheduler
          (left_by srv (dispatch lib api registry fuel rounds m p r srv)).scheduler
  unfolding dispatch
  dispatch-ByCalls fuel rounds m p r srv keeps = elim (Bool-cases (p == "/healthz")) [
    | inl h0 ↦ rw (h0, dispatch) (ByCalls-refl api srv.scheduler)
    | inr k0 ↦ elim (Bool-cases (p == "/readyz")) [
      | inl h1 ↦ rw (k0, h1, dispatch) (ByCalls-refl api srv.scheduler)
      | inr k1 ↦ elim (Bool-cases (p == "/metrics")) [
        | inl h2 ↦ rw (k0, k1, h2, dispatch) (ByCalls-refl api srv.scheduler)
        | inr k2 ↦ elim (Bool-cases (p == "/cluster")) [
          | inl h3 ↦ rw (k0, k1, k2, h3, dispatch) (ByCalls-refl api srv.scheduler)
          | inr k3 ↦ elim (Bool-cases (p == "/admin")) [
            | inl h4 ↦ rw (k0, k1, k2, k3, h4, dispatch) (ByCalls-refl api srv.scheduler)
            | inr k4 ↦ elim (Bool-cases (p == "/tasks")) [
              | inl h5 ↦
                  rw (k0, k1, k2, k3, k4, h5, dispatch)
                    (tasks-ByCalls api lib m r srv.scheduler keeps)
              | inr k5 ↦ elim (Bool-cases (p == "/tasks/")) [
                | inl h6 ↦
                    rw (k0, k1, k2, k3, k4, k5, h6, dispatch)
                      (task_by_id-ByCalls api lib m r srv.scheduler)
                | inr k6 ↦ elim (Bool-cases (p == "/workers")) [
                  | inl h7 ↦
                      rw (k0, k1, k2, k3, k4, k5, k6, h7, dispatch)
                        (list_or_register_workers-ByCalls api lib (m.clock 0) r srv.scheduler)
                  | inr k7 ↦
                      rw (k0, k1, k2, k3, k4, k5, k6, k7, dispatch)
                        (with_claimed-ByCalls _ srv
                          (worker_heartbeat-ByCalls fuel rounds m r srv.scheduler))
                ]
              ]
            ]
          ]
        ]
      ]
    ]
  ]

  route-ByCalls :
      (fuel : ℕ) (rounds : ℕ → Round) (m : Moment) (r : Request) (srv : Server S R)
      → is_purge r ≡ false
      → ByCalls api srv.scheduler
          (left_by srv (route lib api registry fuel rounds m r srv)).scheduler
  unfolding route
  route-ByCalls fuel rounds m r srv keeps = elim (Muxed-cases (lib.mux patterns r)) [
    | inl (p, h) ↦ rw (h, route) (dispatch-ByCalls fuel rounds m p r srv keeps)
    | inr (response, h) ↦ rw (h, route) (ByCalls-refl api srv.scheduler)
  ]

  pub serve-ByCalls :
      (fuel : ℕ) (rounds : ℕ → Round) (m : Moment) (r : Request) (srv : Server S R)
      → is_purge r ≡ false
      → ByCalls api srv.scheduler
          (left_by srv (serve lib api registry fuel rounds m r srv)).scheduler
  unfolding serve admits
  serve-ByCalls fuel rounds m r srv keeps =
      elim (serve_cases lib api registry fuel rounds m r srv) [
        | inl (h, e) ↦ rw e (ByCalls-refl api srv.scheduler)
        | inr (h, e) ↦ rw e (route-ByCalls fuel rounds m r srv keeps)
      ]

  -- Whatever requests a server gets, in whatever order with what its loop and its workers do, its
  -- scheduler ends in a state that calls of its methods reach, as long as none of them is a purge.
  pub serve_all-ByCalls :
      (es : List Event) (srv : Server S R)
      → KeepsRecords es
      → ByCalls api srv.scheduler (serve_all es srv).scheduler
  unfolding serve_all
  serve_all-ByCalls [] srv keeps = ByCalls-refl api srv.scheduler
  serve_all-ByCalls (visits v ∷ es) srv (keeps, later) =
      ByCalls-trans api (serve-ByCalls v.fuel v.rounds v.moment v.request srv keeps)
        (serve_all-ByCalls es _ later)
  serve_all-ByCalls (acts c ∷ es) srv later =
      ByCalls-trans api (ByCalls-one api c refl) (serve_all-ByCalls es _ later)

  -- A task that is terminal keeps its record through every sequence of requests that holds no
  -- purge, and of what the scheduler's loop and its workers do between them, if the store keeps the
  -- contract of Store/Contract and has neither an atomic claim nor a scanner of its own.
  pub requests_frozen :
      (plain : IsPlain api) (es : List Event) (srv : Server S R) (id : String) (t : Task)
      → KeepsRecords es
      → api.get id srv.scheduler.store ≡ ok t
      → is_terminal t ≡ true
      → api.get id (serve_all es srv).scheduler.store ≡ ok t
  requests_frozen plain es srv id t keeps found final =
      let reached = serve_all-ByCalls es srv keeps in
      rw reached.reached (terminal_frozen api plain reached.calls srv.scheduler id t found final)
