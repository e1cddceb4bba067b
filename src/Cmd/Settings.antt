-- ===== src/Cmd/Settings.antt =====
-- cmd/jobraft/main.go: the scheduler that the program serves, for every environment.
use job_raft.Cluster.{bad_arguments, is_leader_role, Elector, is_leader, new_elector}
use job_raft.Scheduler.Lifecycle.{start}
use job_raft.Base.{
  eq_iff, ◌||◌, sym, ap, Sum-cases, lookup-insert, ltb_ℤ, Assoc, ℕ, ◌≡◌, refl, ◌<◌, ◌⊎◌, inl, inr,
  String, true, false, not, some, arith, ◌==◌, Bool-cases, Option-cases, lookup, is_some, ℤ, pos,
}
use mathlib.Core.Path.{subst}
use job_raft.Cmd.{
  boot, election_setup_failed, choose_registry, Program, worker_count, open_store, join_cluster,
  set_up_scheduler, bad_lease_ttl, bad_max_pending, positive, limit_lease, limit_pending, World,
  echo,
}
use job_raft.Api.{new_with_token, new_with_cluster_token, Library}
use job_raft.Scheduler.{
  set_leader_gate, register, set_lease_ttl, set_max_pending, new, Scheduler, Handler,
}
use job_raft.Store.{Store}
use job_raft.Cmd.Started.{settings, start-settings}

-- There is a worker, the limits are positive, and the handler "echo" is there.
abbrev pub IsReady : ℕ × ℤ × ℤ × Assoc Handler → Type 0
IsReady (workers, pending, lease, handlers) =
    (0 < workers)
    × (ltb_ℤ (pos 0) pending ≡ true)
    × (ltb_ℤ (pos 0) lease ≡ true)
    × (lookup "echo" handlers ≡ some echo)

-- The limits without the handler.
abbrev AreLimits : {S : Type 0} → Scheduler S → Type 0
AreLimits s =
    (0 < s.workers) × (ltb_ℤ (pos 0) s.max_pending ≡ true) × (ltb_ℤ (pos 0) s.lease_ttl ≡ true)

inr-inj : {A B : Type 0} (a b : B) → ◌≡◌ {A = A ⊎ B} (inr a) (inr b) → a ≡ b
inr-inj a b h = cc h

inl-inr : {A B : Type 0} (a : A) (b : B) → ¬ (◌≡◌ {A = A ⊎ B} (inl a) (inr b))
inl-inr a b h = cc h

new-AreLimits : {S : Type 0} (st : S) (n : ℤ) → AreLimits (new st n)
unfolding new
new-AreLimits st n = (ground arith, ground arith, ground arith)

set_max_pending-AreLimits :
    {S : Type 0} (n : ℤ) (s : Scheduler S) → AreLimits s → AreLimits (set_max_pending n s)
unfolding set_max_pending
set_max_pending-AreLimits n s (a, b, c) = (ground (arith, a), ground (arith, b), ground (arith, c))

set_lease_ttl-AreLimits :
    {S : Type 0} (n : ℤ) (s : Scheduler S) → AreLimits s → AreLimits (set_lease_ttl n s)
unfolding set_lease_ttl
set_lease_ttl-AreLimits n s (a, b, c) = (ground (arith, a), ground (arith, b), ground (arith, c))

new_elector-follows :
    (id : String) (ttl : ℤ) (e : Elector)
    → new_elector id ttl ≡ inr e
    → is_leader_role e.node.role ≡ false
unfolding new_elector
new_elector-follows id ttl e h = elim (Bool-cases (id == "" || not (ltb_ℤ (pos 0) ttl))) [
  | inl bad ↦ absurd (inl-inr bad_arguments e (rw (bad, new_elector) at h))
  | inr good ↦
      ap (λ x. is_leader_role x.node.role) (sym (inr-inj _ e (rw (good, new_elector) at h)))
]

module _ {S R : Type 0} (lib : Library) (world : World S R) where
  limit_pending-AreLimits :
      (s s' : Scheduler S) → AreLimits s → limit_pending lib world s ≡ inr s' → AreLimits s'
  unfolding limit_pending
  limit_pending-AreLimits s s' fine h =
      let value = world.getenv "JOBRAFT_MAX_PENDING" in
      elim (Bool-cases (value == "")) [
        | inl unset' ↦ subst AreLimits (inr-inj s s' (rw (unset', limit_pending) at h)) fine
        | inr given ↦ elim (Option-cases (positive (lib.atoi value))) [
          | inl bad ↦ absurd (inl-inr bad_max_pending s' (rw (given, bad, limit_pending) at h))
          | inr (n, good) ↦
              subst AreLimits
                (inr-inj (set_max_pending n s) s' (rw (given, good, limit_pending) at h))
                (set_max_pending-AreLimits n s fine)
        ]
      ]

  limit_lease-AreLimits :
      (s s' : Scheduler S) → AreLimits s → limit_lease lib world s ≡ inr s' → AreLimits s'
  unfolding limit_lease
  limit_lease-AreLimits s s' fine h =
      let value = world.getenv "JOBRAFT_LEASE_TTL" in
      elim (Bool-cases (value == "")) [
        | inl unset' ↦ subst AreLimits (inr-inj s s' (rw (unset', limit_lease) at h)) fine
        | inr given ↦ elim (Option-cases (positive (lib.parse_duration value))) [
          | inl bad ↦ absurd (inl-inr bad_lease_ttl s' (rw (given, bad, limit_lease) at h))
          | inr (n, good) ↦
              subst AreLimits (inr-inj (set_lease_ttl n s) s' (rw (given, good, limit_lease) at h))
                (set_lease_ttl-AreLimits n s fine)
        ]
      ]

  register-echo-IsReady :
      (s : Scheduler S) → AreLimits s → IsReady (settings (register "echo" (some echo) s).1)
  unfolding register
  register-echo-IsReady s (a, b, c) = (a, b, c, lookup-insert "echo" "echo" echo s.handlers)

  set_up_scheduler-IsReady :
      (s : Scheduler S) → set_up_scheduler lib world ≡ inr s → IsReady (settings s)
  unfolding set_up_scheduler
  set_up_scheduler-IsReady s h = elim (Sum-cases (open_store lib world)) [
    | inl (e, p) ↦ absurd (inl-inr e s (rw (p, set_up_scheduler) at h))
    | inr (st, p) ↦ elim (Sum-cases (worker_count lib world)) [
      | inl (e, q) ↦ absurd (inl-inr e s (rw (p, q, set_up_scheduler) at h))
      | inr (n, q) ↦ elim (Sum-cases (limit_pending lib world (new st n))) [
        | inl (e, r) ↦ absurd (inl-inr e s (rw (p, q, r, set_up_scheduler) at h))
        | inr (s1, r) ↦
            let limits = limit_pending-AreLimits (new st n) s1 (new-AreLimits st n) r in
            elim (Sum-cases (limit_lease lib world s1)) [
              | inl (e, t) ↦ absurd (inl-inr e s (rw (p, q, r, t, set_up_scheduler) at h))
              | inr (s2, t) ↦
                  subst (λ x. IsReady (settings x))
                    (inr-inj (register "echo" (some echo) s2).1 s
                      (rw (p, q, r, t, set_up_scheduler) at h))
                    (register-echo-IsReady s2 (limit_lease-AreLimits s1 s2 limits t))
            ]
      ]
    ]
  ]

  -- A program that joins the cluster has the scheduler that it started, closed by the gate until the
  -- first renewal.
  join_cluster-joined :
      (s : Scheduler S) (p : Program S R)
      → join_cluster lib world s ≡ inr p
      → (settings p.server.scheduler ≡ settings s)
        × (p.server.token ≡ world.getenv "JOBRAFT_API_TOKEN")
        × (p.server.scheduler.leader_gate ≡ some false)
        × (is_some p.server.registry ≡ true)
  unfolding join_cluster new_elector is_leader new_with_cluster_token set_leader_gate
  join_cluster-joined s p h = elim (Sum-cases (choose_registry lib world)) [
    | inl (e, q) ↦ absurd (inl-inr e p (rw (q, join_cluster) at h))
    | inr (nodes, q) ↦
        elim (Sum-cases (new_elector (world.getenv "JOBRAFT_NODE_ID") (pos 10000000000))) [
          | inl (e, r) ↦ absurd (inl-inr (election_setup_failed e) p (rw (q, r, join_cluster) at h))
          | inr (e, r) ↦
              subst
                (λ x.
                  (settings x.server.scheduler ≡ settings s)
                  × (x.server.token ≡ world.getenv "JOBRAFT_API_TOKEN")
                  × (x.server.scheduler.leader_gate ≡ some false)
                  × (is_some x.server.registry ≡ true))
                (inr-inj _ p (rw (q, r, join_cluster) at h))
                (
                  refl,
                  refl,
                  ap some
                      (new_elector-follows (world.getenv "JOBRAFT_NODE_ID") (pos 10000000000) e r),
                  refl,
                )
        ]
  ]

  -- If `main` comes to serve, its scheduler has at least one worker, a positive limit of pending
  -- tasks, a positive lease and the handler "echo", whatever the environment says; the server
  -- takes its token from JOBRAFT_API_TOKEN; and with a JOBRAFT_NODE_ID it knows the registry, and the
  -- scheduler is behind the gate, which is closed until the elector renews.
  pub boot-IsReady :
      (api : Store S) (now_name now_recover : ℕ) (clock : ℕ → ℕ) (p : Program S R)
      → boot lib world api now_name now_recover clock ≡ inr p
      → IsReady (settings p.server.scheduler)
        × (p.server.token ≡ world.getenv "JOBRAFT_API_TOKEN")
        × ((world.getenv "JOBRAFT_NODE_ID" ≡ "")
            ⊎ ((p.server.scheduler.leader_gate ≡ some false) × (is_some p.server.registry ≡ true)))
  unfolding boot new_with_token
  boot-IsReady api now_name now_recover clock p h = elim (Sum-cases (set_up_scheduler lib world)) [
    | inl (e, q) ↦ absurd (inl-inr e p (rw (q, boot) at h))
    | inr (s, q) ↦
        let running' = start api now_name now_recover clock s in
        let prepared : IsReady (settings running') =
          subst IsReady (sym (start-settings api now_name now_recover clock s))
            (set_up_scheduler-IsReady s q) in
        elim (Bool-cases (world.getenv "JOBRAFT_NODE_ID" == "")) [
          | inl alone ↦
              subst
                (λ x.
                  IsReady (settings x.server.scheduler)
                  × (x.server.token ≡ world.getenv "JOBRAFT_API_TOKEN")
                  × ((world.getenv "JOBRAFT_NODE_ID" ≡ "")
                      ⊎ ((x.server.scheduler.leader_gate ≡ some false)
                          × (is_some x.server.registry ≡ true))))
                (inr-inj _ p (rw (q, alone, boot) at h))
                (prepared, refl, inl ((eq_iff (world.getenv "JOBRAFT_NODE_ID") "").0 alone))
          | inr named ↦
              let (same, token, gate, known) =
                join_cluster-joined running' p (rw (q, named, boot) at h) in
              (subst IsReady (sym same) prepared, token, inr (gate, known))
        ]
  ]
