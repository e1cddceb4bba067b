-- ===== src/Scheduler/Calls/Beats.antt =====
-- internal/scheduler/scheduler.go: registrations and heartbeats as steps of the tasks' lives.

use job_raft.Scheduler.Workers.{listed, heartbeat}
use job_raft.Task.{add_time, status_eq→eq, running}
use job_raft.Scheduler.Complete.{write_if_lease}
use job_raft.Scheduler.Workers.{renew_registered, keep_worker, renew_listed, register_worker}
use job_raft.Store.{WorkerRegistry, ok, err, Worker}
use job_raft.Scheduler.Moves.{
  write_if_lease-Moves, Runs-trans, here, Edge, step, Runs-one, Runs-of_eq, same, Runs, Moves,
}
use job_raft.Store.Contract.{RenewsOnly, IsLawful}
use job_raft.Base.{
  lookup, ◌∷◌, [], sym, ◌&&◌, ◌∷◌, List, some, ℕ, ◌≡◌, refl, inl, inr, String, arith, ◌==◌,
  Bool-cases, Option-cases,
}
use job_raft.Scheduler.{status_eq, Result, Task, Store, Scheduler}

module _ {S : Type 0} (api : Store S) (law : IsLawful api) where
  keep_worker-store :
      (id : String) (r : Result Worker × S) (s : Scheduler S)
      → (keep_worker api id r s).1.store ≡ r.1
  keep_worker-store id (err e, st) s = refl
  keep_worker-store id (ok w, st) s = refl

  renew_change : (until : ℕ) (st st' : S) → RenewsOnly api until st st' → Moves api st st'
  renew_change until st st' r j = elim (r j) [
    | inl kept ↦ same kept
    | inr (t, p, q, e) ↦ step t (record t { lease_until = some until }) p e (Edge.renewed q q refl)
  ]

  pub register-Runs :
      (now : ℕ) (id : String) (s : Scheduler S)
      → Runs api s.store (register_worker api now id s).1.store
  unfolding register_worker
  register-Runs now id s = elim (Option-cases api.worker_registry) [
    | inl own ↦ Runs-of_eq (ground arith)
    | inr (registry, p) ↦
        rw
          (
            p,
            register_worker,
            keep_worker-store id (registry.register_worker now id s.lease_ttl s.store) s,
          )
          (Runs-one (λ j.
            same ((law.registry_IsSeparate registry p).get-register now id s.lease_ttl s.store j)))
  ]

  renew_listed-Runs :
      (id : String) (until : ℕ) (ts : List Task) (st : S)
      → Runs api st (renew_listed api id until ts st)
  unfolding renew_listed
  renew_listed-Runs id until [] st = here
  renew_listed-Runs id until (t ∷ ts) st =
      elim (Bool-cases (status_eq t.status running && t.worker_id == id)) [
        | inr other ↦ rw other (renew_listed-Runs id until ts st)
        | inl own ↦
            let u = record t { lease_until = some until } in
            let run : t.status ≡ running = status_eq→eq t.status running (ground arith) in
            rw own (
              Runs-trans
                (Runs-one (
                  write_if_lease-Moves api law t.id t.lease_token u st
                    (λ current _ p q. Edge.renewed p run (sym q))))
                (renew_listed-Runs id until ts (write_if_lease api t.id t.lease_token u st).1))
      ]

  renew_registered-Runs :
      (id : String) (r : Result Worker × Scheduler S) (registry : WorkerRegistry S)
      → api.worker_registry ≡ some registry
      → Runs api r.1.store (renew_registered api id r registry.renew_worker_task_leases).1.store
  renew_registered-Runs id (err e, s) registry p = here
  renew_registered-Runs id (ok w, s) registry p = Runs-one (
      renew_change w.lease_until s.store _
        ((law.registry_IsSeparate registry p).renews id w.lease_until s.store))

  pub heartbeat-Runs :
      (now : ℕ) (id : String) (s : Scheduler S) → Runs api s.store (heartbeat api now id s).1.store
  unfolding heartbeat
  heartbeat-Runs now id s = elim (Option-cases api.worker_registry) [
    | inl own ↦ elim (Option-cases (lookup id s.workers_by_id)) [
      | inl unknown ↦ Runs-of_eq (ground arith)
      | inr (w, found) ↦
          let until = add_time now s.lease_ttl in
          let listed' = listed api (api.list s.store) in
          let renewed' : (heartbeat api now id s).1.store
              ≡ renew_listed api id until listed' s.store =
            ground arith in
          rw renewed' (renew_listed-Runs id until listed' s.store)
    ]
    | inr (registry, p) ↦
        let beat = registry.heartbeat_worker now id s.lease_ttl s.store in
        let kept = keep_worker api id beat s in
        let alive : Runs api s.store kept.1.store = rw (keep_worker-store id beat s) (
          Runs-one (λ j.
            same
              ((law.registry_IsSeparate registry p).get-heartbeat now id s.lease_ttl s.store j))) in
        let beaten : heartbeat api now id s
            ≡ renew_registered api id kept registry.renew_worker_task_leases =
          ground arith in
        rw beaten (Runs-trans alive (renew_registered-Runs id kept registry p))
  ]
