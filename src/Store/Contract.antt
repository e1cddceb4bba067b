-- ===== src/Store/Contract.antt =====
-- internal/store/store.go: what the scheduler relies on of a store with conditional updates.
use job_raft.Base.{ℤ, ℕ, ◌≡◌, ◌⊎◌, String, Option, none, some, if◌then◌else◌, ◌==◌}
use job_raft.Task.{Status, running, Task, Err, not_found, validate}
use job_raft.Store.{WorkerRegistry, ok, err, Store, ConditionalUpdater}

-- The record under `id` was replaced by `t`, and every other record stayed.
abbrev pub Replaced : {S : Type 0} → Store S → String → Task → S → S → Type 0
Replaced api id t st st' = (j : String) → api.get j st' ≡ (if id == j then ok t else api.get j st)

-- A conditional write was refused and changed nothing, or it replaced a record that had the expected
-- status and lease token by a valid one.
abbrev pub ComparesAndSets :
    {S : Type 0} → Store S → String → Status → String → Task → S → Option Err × S → Type 0
ComparesAndSets api id status token t st r =
    ((e : Err) × (r.0 ≡ some e) × (r.1 ≡ st))
    ⊎ ((current : Task) × (api.get id st ≡ ok current)
        × (current.status ≡ status)
        × (current.lease_token ≡ token)
        × (validate t ≡ none)
        × (r.0 ≡ none)
        × Replaced api id t st r.1)

-- The tasks that a renewal of a worker's leases leaves: a running task may have a new deadline, and
-- nothing else is changed.
abbrev pub RenewsOnly : {S : Type 0} → Store S → ℕ → S → S → Type 0
RenewsOnly api until st st' =
    (j : String)
    → (api.get j st' ≡ api.get j st)
      ⊎ ((t : Task) × (api.get j st ≡ ok t)
          × (t.status ≡ running)
          × (api.get j st' ≡ ok (record t { lease_until = some until })))

-- A registry of workers that shares the store with the tasks leaves those alone.
pub record IsSeparate {S : Type 0} (api : Store S) (registry : WorkerRegistry S) : Type 0 where
  pub get-register :
      (now : ℕ) (id : String) (ttl : ℤ) (st : S) (j : String)
      → api.get j (registry.register_worker now id ttl st).1 ≡ api.get j st
  pub get-heartbeat :
      (now : ℕ) (id : String) (ttl : ℤ) (st : S) (j : String)
      → api.get j (registry.heartbeat_worker now id ttl st).1 ≡ api.get j st
  pub renews :
      (worker_id : String) (until : ℕ) (st : S)
      → RenewsOnly api until st (registry.renew_worker_task_leases worker_id until st).1

pub record IsLawful {S : Type 0} (api : Store S) : Type 0 where
  pub updater : ConditionalUpdater S
  pub has_updater : api.conditional_updater ≡ some updater
  pub state_cases :
      (id : String) (status : Status) (token : String) (t : Task) (st : S)
      → ComparesAndSets api id status token t st (updater.update_if_state id status token t st)
  -- A write whose expectations hold goes through.
  pub state_hit :
      (id : String) (t current : Task) (st : S)
      → validate t ≡ none
      → api.get id st ≡ ok current
      → (updater.update_if_state id current.status current.lease_token t st).0 ≡ none
  pub lease_cases :
      (id token : String) (t : Task) (st : S)
      → ComparesAndSets api id running token t st (updater.update_if_lease id token t st)
  pub delete_cases :
      (id : String) (st : S)
      → ((e : Err) × ((api.delete id st).0 ≡ some e) × ((api.delete id st).1 ≡ st))
        ⊎ ((t : Task) × (api.get id st ≡ ok t)
            × ((api.delete id st).0 ≡ none)
            × ((j : String)
                → api.get j (api.delete id st).1
                  ≡ (if id == j then err not_found else api.get j st)))
  -- A creation is refused, or adds a valid task under an identifier that was free.
  pub create_cases :
      (t : Task) (st : S)
      → ((e : Err) × ((api.create t st).0 ≡ some e) × ((api.create t st).1 ≡ st))
        ⊎ ((e : Err) × (api.get t.id st ≡ err e)
            × (validate t ≡ none)
            × ((api.create t st).0 ≡ none)
            × Replaced api t.id t st (api.create t st).1)
  pub registry_IsSeparate :
      (registry : WorkerRegistry S) → api.worker_registry ≡ some registry → IsSeparate api registry
