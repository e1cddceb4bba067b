-- ===== src/Cmd/Started.antt =====
-- cmd/jobraft/main.go: what `main` sets of a scheduler is still set once the scheduler has started.

use job_raft.Scheduler.Recover.{recover_running}
use job_raft.Scheduler.Workers.{register_worker}
use job_raft.Scheduler.Lifecycle.{local_name, register_local, start}
use job_raft.Base.{
  Assoc, ℕ, zero, suc, ◌≡◌, refl, ◌∙◌, inl, inr, String, true, false, not, ◌&&◌, ◌==◌, Bool-cases,
  Option-cases, is_some, ℤ,
}
use job_raft.Scheduler.{Scheduler, Handler}
use job_raft.Store.{Result-cases, Store}

-- What `main` sets of a scheduler, and nothing later changes.
abbrev pub settings : {S : Type 0} → Scheduler S → ℕ × ℤ × ℤ × Assoc Handler
settings s = (s.workers, s.max_pending, s.lease_ttl, s.handlers)

module _ {S : Type 0} (api : Store S) where
  register_worker-settings :
      (now : ℕ) (id : String) (s : Scheduler S)
      → settings (register_worker api now id s).1 ≡ settings s
  unfolding register_worker
  register_worker-settings now id s = elim (Option-cases api.worker_registry) [
    | inl none' ↦ elim (Bool-cases (id == "")) [
      | inl bad ↦ rw (none', bad, register_worker) refl
      | inr named ↦ rw (none', named, register_worker) refl
    ]
    | inr (registry, p) ↦
        elim (Result-cases (registry.register_worker now id s.lease_ttl s.store).0) [
          | inl (e, q) ↦ rw (p, q, register_worker) refl
          | inr (w, q) ↦ rw (p, q, register_worker) refl
        ]
  ]

  register_local-settings :
      (left i now_name : ℕ) (clock : ℕ → ℕ) (s : Scheduler S)
      → settings (register_local api left i now_name clock s) ≡ settings s
  unfolding register_local
  register_local-settings zero i now_name clock s = refl
  register_local-settings (suc left) i now_name clock s =
      register_local-settings left (suc i) now_name clock _
      ∙ register_worker-settings (clock i) (local_name now_name i) s

  recover_running-settings :
      (now : ℕ) (s : Scheduler S) → settings (recover_running api now s) ≡ settings s
  unfolding recover_running
  recover_running-settings now s = elim (Result-cases (api.list s.store)) [
    | inl (e, p) ↦ rw (p, recover_running) refl
    | inr (items, p) ↦ rw (p, recover_running) refl
  ]

  pub start-settings :
      (now_name now_recover : ℕ) (clock : ℕ → ℕ) (s : Scheduler S)
      → settings (start api now_name now_recover clock s) ≡ settings s
  unfolding start recover_running
  start-settings now_name now_recover clock s = elim (Bool-cases (s.started && not s.stopped)) [
    | inl on ↦ rw (on, start) refl
    | inr off ↦
        let s' = record s { stopped = false; started = true } in
        let registered = register_local-settings s.workers 0 now_name clock s' in
        elim (Bool-cases (is_some api.atomic_claimer)) [
          | inl claims ↦ rw (off, claims, start) registered
          | inr plain ↦ rw (off, plain, start) (recover_running-settings now_recover _ ∙ registered)
        ]
  ]
