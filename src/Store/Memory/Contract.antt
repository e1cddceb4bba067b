-- ===== src/Store/Memory/Contract.antt =====
-- internal/store/store.go: MemoryStore keeps the contract of a store.
use mathlib.Core.Option
use mathlib.Core.Option.{some-injective}
use job_raft.Base.{
  [], ◌∷◌, sym, Assoc, ℕ, is_some, ◌≡◌, refl, ◌⊎◌, inl, inr, String, true, false, not, ◌&&◌, ◌||◌,
  none, some, arith, eq_iff, ◌==◌, eq_refl, if◌then◌else◌, lookup, insert, lookup-insert,
  lookup-erase, Option-cases, Bool-cases,
}
use job_raft.Task.{
  Status, running, status_eq, Task, Err, status_eq→eq, status_eq_refl, validate, not_found,
  conflict,
}
use job_raft.Store.{WorkerRegistry, ok, err}
use job_raft.Store.Contract.{RenewsOnly, IsSeparate, Replaced, ComparesAndSets, IsLawful}
use job_raft.Store.Memory.{
  duplicate_id, list_workers, duplicate_idempotency_key, get_worker, find_key, heartbeat_worker,
  renew_lease, register_worker, renew_worker_task_leases, renew_leases, create, MemoryStore, memory,
  get, delete, update_if_state, update_if_lease,
}

get_lookup :
    (id : String) (s : MemoryStore) {t : Task} → get id s ≡ ok t → lookup id s.tasks ≡ some t
unfolding get
get_lookup id s h = ground arith

insert-Replaced :
    (id : String) (t : Task) (s : MemoryStore)
    → Replaced memory id t s (record s { tasks = insert id t s.tasks })
unfolding get
insert-Replaced id t s j = ground (arith, lookup-insert id j t s.tasks)

-- The write of both conditional updates, once the task is valid and the record was found.
write-ComparesAndSets :
    (id : String) (status : Status) (token : String) (t current : Task) (s : MemoryStore)
    → validate t ≡ none
    → lookup id s.tasks ≡ some current
    → ComparesAndSets memory id status token t s (
        if not (status_eq current.status status) || not (current.lease_token == token)
        then (some conflict, s)
        else (none, record s { tasks = insert id t s.tasks }))
unfolding get
write-ComparesAndSets id status token t current s valid found =
    elim (Bool-cases (status_eq current.status status && current.lease_token == token)) [
      | inr no_match ↦ inl (conflict, ground arith, ground arith)
      | inl match ↦
          let same = status_eq→eq current.status status (ground arith) in
          rw (both match) (
            inr (
              current,
              ground arith,
              same,
              (eq_iff _ _).0 (ground arith),
              valid,
              refl,
              insert-Replaced id t s,
            ))
    ]
  where
    both :
        status_eq current.status status && current.lease_token == token ≡ true
        → not (status_eq current.status status) || not (current.lease_token == token) ≡ false
    both h = ground arith

update_if_state-refused :
    (id : String) (status : Status) (token : String) (t : Task) (s : MemoryStore)
    → ((e : Err) × (validate t ≡ some e)) ⊎ (lookup id s.tasks ≡ none)
    → (e : Err) × ((update_if_state id status token t s).0 ≡ some e)
      × ((update_if_state id status token t s).1 ≡ s)
unfolding update_if_state
update_if_state-refused id status token t s (inl (e, p)) = (e, ground arith, ground arith)
update_if_state-refused id status token t s (inr missing) = elim (Option-cases (validate t)) [
  | inr (e, p) ↦ (e, ground arith, ground arith)
  | inl valid ↦ (not_found, ground arith, ground arith)
]

update_if_state-found :
    (id : String) (status : Status) (token : String) (t current : Task) (s : MemoryStore)
    → validate t ≡ none
    → lookup id s.tasks ≡ some current
    → update_if_state id status token t s ≡ (
        if not (status_eq current.status status) || not (current.lease_token == token)
        then (some conflict, s)
        else (none, record s { tasks = insert id t s.tasks }))
unfolding update_if_state
update_if_state-found id status token t current s valid found =
    rw (valid, update_if_state) (rw (found, update_if_state))

pub update_if_state-ComparesAndSets :
    (id : String) (status : Status) (token : String) (t : Task) (s : MemoryStore)
    → ComparesAndSets memory id status token t s (update_if_state id status token t s)
update_if_state-ComparesAndSets id status token t s = elim (Option-cases (validate t)) [
  | inr (e, p) ↦ inl (update_if_state-refused id status token t s (inl (e, p)))
  | inl valid ↦ elim (Option-cases (lookup id s.tasks)) [
    | inl missing ↦ inl (update_if_state-refused id status token t s (inr missing))
    | inr (current, found) ↦
        rw (update_if_state-found id status token t current s valid found)
          (write-ComparesAndSets id status token t current s valid found)
  ]
]

pub state_hit :
    (id : String) (t current : Task) (s : MemoryStore)
    → validate t ≡ none
    → memory.get id s ≡ ok current
    → (update_if_state id current.status current.lease_token t s).0 ≡ none
unfolding get
state_hit id t current s valid found = rw (
  update_if_state-found id current.status current.lease_token t current s valid (ground arith),
  status_eq_refl current.status,
  eq_refl current.lease_token,
)

pub update_if_lease-ComparesAndSets :
    (id token : String) (t : Task) (s : MemoryStore)
    → ComparesAndSets memory id running token t s (update_if_lease id token t s)
unfolding update_if_lease update_if_state
update_if_lease-ComparesAndSets id token t s = update_if_state-ComparesAndSets id running token t s

delete_lem :
    (id : String) (s : MemoryStore) (t : Task)
    → lookup id s.tasks ≡ some t
    → ((delete id s).0 ≡ none)
      × ((j : String) → get j (delete id s).1 ≡ (if id == j then err not_found else get j s))
unfolding delete get
delete_lem id s t found = (ground arith, λ j. ground (arith, lookup-erase id j s.tasks))

delete_cases :
    (id : String) (s : MemoryStore)
    → ((e : Err) × ((delete id s).0 ≡ some e) × ((delete id s).1 ≡ s))
      ⊎ ((t : Task) × (get id s ≡ ok t)
          × ((delete id s).0 ≡ none)
          × ((j : String) → get j (delete id s).1 ≡ (if id == j then err not_found else get j s)))
unfolding delete get
delete_cases id s = elim (Option-cases (lookup id s.tasks)) [
  | inl missing ↦ inl (not_found, ground arith, ground arith)
  | inr (t, found) ↦ let (gone, rest) = delete_lem id s t found in inr (t, ground arith, gone, rest)
]

create_cases :
    (t : Task) (s : MemoryStore)
    → ((e : Err) × ((create t s).0 ≡ some e) × ((create t s).1 ≡ s))
      ⊎ ((e : Err) × (get t.id s ≡ err e)
          × (validate t ≡ none)
          × ((create t s).0 ≡ none)
          × Replaced memory t.id t s (create t s).1)
unfolding create get
create_cases t s = elim (Option-cases (validate t)) [
  | inr (e, p) ↦ inl (e, ground arith, ground arith)
  | inl valid ↦
      elim (Bool-cases
        (not (t.idempotency_key == "") && is_some (find_key t.idempotency_key s.tasks))) [
          | inl taken ↦ inl (duplicate_idempotency_key, ground arith, ground arith)
          | inr free ↦ elim (Option-cases (lookup t.id s.tasks)) [
            | inr (u, found) ↦ inl (duplicate_id, ground arith, ground arith)
            | inl missing ↦ inr (
              not_found,
              ground arith,
              valid,
              ground arith,
              λ j. ground (arith, lookup-insert t.id j t s.tasks),
            )
          ]
        ]
]

lookup-renew_leases :
    (worker id : String) (until : ℕ) (m : Assoc Task)
    → lookup id (renew_leases worker until m) ≡ Option.map (renew_lease worker until) (lookup id m)
unfolding renew_leases lookup
lookup-renew_leases worker id until [] = refl
lookup-renew_leases worker id until ((j, t) ∷ m) =
    ground (arith, lookup-renew_leases worker id until m)

renews :
    (worker : String) (until : ℕ) (s : MemoryStore)
    → RenewsOnly memory until s (renew_worker_task_leases worker until s).1
unfolding renew_worker_task_leases renew_lease get
renews worker until s j = elim (Option-cases (lookup j s.tasks)) [
  | inl missing ↦ inl (ground (arith, lookup-renew_leases worker j until s.tasks))
  | inr (t, found) ↦ elim (Bool-cases (status_eq t.status running && t.worker_id == worker)) [
    | inr other ↦ inl (ground (arith, lookup-renew_leases worker j until s.tasks))
    | inl own ↦ inr (
      t,
      ground arith,
      status_eq→eq t.status running (ground arith),
      ground (arith, lookup-renew_leases worker j until s.tasks),
    )
  ]
]

memory_registry : WorkerRegistry MemoryStore
memory_registry = record {
  register_worker = register_worker;
  heartbeat_worker = heartbeat_worker;
  get_worker = get_worker;
  list_workers = list_workers;
  renew_worker_task_leases = renew_worker_task_leases;
}

memory_registry-IsSeparate : IsSeparate memory memory_registry
unfolding memory_registry get register_worker heartbeat_worker
memory_registry-IsSeparate = record {
  get-register = λ now id ttl s j. ground arith;
  get-heartbeat = λ now id ttl s j. ground arith;
  renews = renews;
}

registry_IsSeparate :
    (registry : WorkerRegistry MemoryStore)
    → memory.worker_registry ≡ some registry
    → IsSeparate memory registry
unfolding memory_registry
registry_IsSeparate registry h =
    let same : registry ≡ memory_registry = sym (some-injective _ _ h) in
    rw same memory_registry-IsSeparate

-- The memory store keeps the contract of Store/Contract.
pub memory-IsLawful : IsLawful memory
memory-IsLawful = record {
  updater = record { update_if_lease = update_if_lease; update_if_state = update_if_state };
  has_updater = refl;
  state_cases = update_if_state-ComparesAndSets;
  state_hit = state_hit;
  lease_cases = update_if_lease-ComparesAndSets;
  delete_cases = delete_cases;
  create_cases = create_cases;
  registry_IsSeparate = registry_IsSeparate;
}
