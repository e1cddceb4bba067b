-- ===== src/Api/Access.antt =====
-- internal/api/server.go: what a client may do without a credential, and what a GET leaves alone.
use job_raft.Api.Poll.{Round, worker_claim}
use job_raft.Api.Workers.{beat, path_id, worker_renew, list_or_register_workers}
use job_raft.Api.Tasks.{Moment, task_by_id, tasks}
use job_raft.Store.{Store}
use job_raft.Api.Requests.{visits, left_by, serve_all, Visit}
use job_raft.Api.Serve.{
  serve_cases, serve, with_claimed, dispatch, worker_heartbeat, route, admits, patterns, is_public,
}
use job_raft.Base.{
  ◌∙◌, ap, has_suffix, trim_prefix, map, ℕ, ◌≡◌, refl, ◌⊎◌, inl, inr, String, true, false, Option,
  none, some, List, [], ◌∷◌, arith, ◌==◌, Bool-cases, Option-cases,
}
use job_raft.Cluster.{Registry}
use job_raft.Scheduler.{Scheduler}
use job_raft.Api.{Muxed-cases, answered, matched, Request, Library, Response, Server}

-- What the documentation of ServeMux says of the two exact patterns of the probes: a request for
-- such a path is matched with it, or the mux answers itself.
abbrev pub ProbesMatch : Library → Type 0
ProbesMatch lib =
    (r : Request)
    → is_public r ≡ true
    → (lib.mux patterns r ≡ matched r.path)
      ⊎ ((response : Response) × (lib.mux patterns r ≡ answered response))

-- The requests have no credential for the token, or are for a probe.
abbrev pub IsOutside : String → List Visit → Type 0
IsOutside token [] = Unit
IsOutside token (v ∷ vs) =
    ((admits token v.request ≡ false) ⊎ (is_public v.request ≡ true)) × IsOutside token vs

-- What a handler that may wait leaves is the scheduler that it found.
abbrev EndsSame : {S : Type 0} → Scheduler S → Option (Response × Scheduler S) → Type 0
EndsSame s none = Unit
EndsSame s (some (response, s')) = s' ≡ s

module _ {S R : Type 0} (lib : Library) (api : Store S) (registry : Registry R) where
  probe-same :
      ProbesMatch lib
      → (v : Visit) (srv : Server S R) → is_public v.request ≡ true
      → left_by lib api registry srv (route lib api registry v.fuel v.rounds v.moment v.request srv)
        ≡ srv
  unfolding route dispatch is_public
  probe-same probes v srv public = elim (probes v.request public) [
    | inr (response, h) ↦ rw (h, route) refl
    | inl h ↦ elim (Bool-cases (v.request.path == "/healthz")) [
      | inl health ↦ rw (h, health, route, dispatch) refl
      | inr other ↦
          let ready : (v.request.path == "/readyz") ≡ true = rw other at public in
          rw (h, other, ready, route, dispatch) refl
    ]
  ]

  -- A client without the credential changes nothing: whatever it sends, the server is left in the
  -- very state it was in, probes included.
  pub serve_all-outside :
      ProbesMatch lib
      → (vs : List Visit) (srv : Server S R) → IsOutside srv.token vs
      → serve_all lib api registry (map visits vs) srv ≡ srv
  unfolding serve_all
  serve_all-outside probes [] srv out = refl
  serve_all-outside probes (v ∷ vs) srv (first, rest) =
      let served = serve lib api registry v.fuel v.rounds v.moment v.request srv in
      let same : left_by lib api registry srv served ≡ srv =
        elim (serve_cases lib api registry v.fuel v.rounds v.moment v.request srv) [
          | inl (h, e) ↦ rw e refl
          | inr (h, e) ↦ elim first [
            | inl refused ↦ absurd (ground (arith, refused, h))
            | inr public ↦ rw e (probe-same probes v srv public)
          ]
        ] in
      ap (serve_all lib api registry (map visits vs)) same ∙ serve_all-outside probes vs srv rest

  with_claimed-same :
      (o : Option (Response × Scheduler S)) (srv : Server S R)
      → EndsSame srv.scheduler o
      → (left_by lib api registry srv (with_claimed lib api registry o srv)).scheduler
        ≡ srv.scheduler
  with_claimed-same none srv h = refl
  with_claimed-same (some (response, s)) srv h = h

  worker_heartbeat-get :
      (fuel : ℕ) (rounds : ℕ → Round) (m : Moment) (r : Request) (s : Scheduler S)
      → r.method ≡ "GET"
      → EndsSame s (worker_heartbeat lib api registry fuel rounds m r s)
  unfolding worker_heartbeat worker_claim worker_renew beat
  worker_heartbeat-get fuel rounds m r s get =
      elim (Bool-cases (has_suffix r.escaped_path "/claim")) [
        | inl claim ↦ rw (claim, get, worker_heartbeat, worker_claim) refl
        | inr other ↦ elim (Bool-cases (has_suffix r.escaped_path "/renew")) [
          | inl renew ↦ rw (other, renew, get, worker_heartbeat, worker_renew) refl
          | inr beats ↦ rw (other, beats, get, worker_heartbeat, beat) refl
        ]
      ]

  tasks-get :
      (m : Moment) (r : Request) (s : Scheduler S) → r.method ≡ "GET" → (tasks lib api m r s).1 ≡ s
  unfolding tasks
  tasks-get m r s get = rw (get, tasks) refl

  task_by_id-get :
      (m : Moment) (r : Request) (s : Scheduler S)
      → r.method ≡ "GET"
      → (task_by_id lib api m r s).1 ≡ s
  unfolding task_by_id
  task_by_id-get m r s get =
      elim (Option-cases (path_id lib (trim_prefix r.escaped_path "/tasks/"))) [
        | inl p ↦ rw (p, task_by_id) refl
        | inr (id, p) ↦ rw (p, get, task_by_id) refl
      ]

  list_or_register_workers-get :
      (now : ℕ) (r : Request) (s : Scheduler S)
      → r.method ≡ "GET"
      → (list_or_register_workers lib api now r s).1 ≡ s
  unfolding list_or_register_workers
  list_or_register_workers-get now r s get = rw (get, list_or_register_workers) refl

  dispatch-get :
      (fuel : ℕ) (rounds : ℕ → Round) (m : Moment) (p : String) (r : Request) (srv : Server S R)
      → r.method ≡ "GET"
      → (left_by lib api registry srv (dispatch lib api registry fuel rounds m p r srv)).scheduler
        ≡ srv.scheduler
  unfolding dispatch
  dispatch-get fuel rounds m p r srv get = elim (Bool-cases (p == "/healthz")) [
    | inl h0 ↦ rw (h0, dispatch) (refl)
    | inr k0 ↦ elim (Bool-cases (p == "/readyz")) [
      | inl h1 ↦ rw (k0, h1, dispatch) (refl)
      | inr k1 ↦ elim (Bool-cases (p == "/metrics")) [
        | inl h2 ↦ rw (k0, k1, h2, dispatch) (refl)
        | inr k2 ↦ elim (Bool-cases (p == "/cluster")) [
          | inl h3 ↦ rw (k0, k1, k2, h3, dispatch) (refl)
          | inr k3 ↦ elim (Bool-cases (p == "/admin")) [
            | inl h4 ↦ rw (k0, k1, k2, k3, h4, dispatch) (refl)
            | inr k4 ↦ elim (Bool-cases (p == "/tasks")) [
              | inl h5 ↦ rw (k0, k1, k2, k3, k4, h5, dispatch) (tasks-get m r srv.scheduler get)
              | inr k5 ↦ elim (Bool-cases (p == "/tasks/")) [
                | inl h6 ↦
                    rw (k0, k1, k2, k3, k4, k5, h6, dispatch) (task_by_id-get m r srv.scheduler get)
                | inr k6 ↦ elim (Bool-cases (p == "/workers")) [
                  | inl h7 ↦
                      rw (k0, k1, k2, k3, k4, k5, k6, h7, dispatch)
                        (list_or_register_workers-get (m.clock 0) r srv.scheduler get)
                  | inr k7 ↦
                      rw (k0, k1, k2, k3, k4, k5, k6, k7, dispatch)
                        (with_claimed-same _ srv
                          (worker_heartbeat-get fuel rounds m r srv.scheduler get))
                ]
              ]
            ]
          ]
        ]
      ]
    ]
  ]

  -- A GET leaves the scheduler, its tasks and its workers as they are, whatever its path is.
  pub serve-get :
      (fuel : ℕ) (rounds : ℕ → Round) (m : Moment) (r : Request) (srv : Server S R)
      → r.method ≡ "GET"
      → (left_by lib api registry srv (serve lib api registry fuel rounds m r srv)).scheduler
        ≡ srv.scheduler
  unfolding route
  serve-get fuel rounds m r srv get = elim (serve_cases lib api registry fuel rounds m r srv) [
    | inl (h, e) ↦ rw e refl
    | inr (h, e) ↦ elim (Muxed-cases (lib.mux patterns r)) [
      | inl (p, q) ↦ rw (e, q, route) (dispatch-get fuel rounds m p r srv get)
      | inr (response, q) ↦ rw (e, q, route) refl
    ]
  ]
