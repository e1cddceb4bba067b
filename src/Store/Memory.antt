-- ===== src/Store/Memory.antt =====
-- internal/store/store.go: MemoryStore. The mutex makes each method one atomic step, and `clone`,
-- which keeps a caller from sharing a slice with the store, is the identity on values.
pub mod Contract
use job_raft.Base.{
  ℕ, String, ◌&&◌, ◌||◌, not, Option, none, some, List, [], ◌∷◌, ℤ, ltb, if◌then◌else◌, ◌==◌,
  count_if, Assoc, lookup, insert, erase, values, is_some,
}
use job_raft.Task.{
  Status, running, status_eq, Task, validate, not_found, conflict, duplicate_id,
  duplicate_idempotency_key, worker_id_required, worker_not_registered, add_time,
}
use job_raft.Store.{Result, ok, err, Worker, Store, is_in_flight, Write}

pub record MemoryStore : Type 0 where
  pub tasks : Assoc Task
  pub workers : Assoc Worker

unfoldable pub new_memory : MemoryStore
new_memory = record { tasks = []; workers = [] }

-- The first task in the map's order that carries the key.
unfoldable pub find_key : String → Assoc Task → Option Task
find_key key [] = none
find_key key ((_, t) ∷ m) = if t.idempotency_key == key then some t else find_key key m

unfoldable pub create : Task → Write MemoryStore
create t s = elim (validate t) [
  | some e ↦ (some e, s)
  | none ↦
      if not (t.idempotency_key == "") && is_some (find_key t.idempotency_key s.tasks)
      then (some duplicate_idempotency_key, s)
      else if is_some (lookup t.id s.tasks)
      then (some duplicate_id, s)
      else (none, record s { tasks = insert t.id t s.tasks })
]

unfoldable pub get_by_idempotency_key : String → MemoryStore → Result Task
get_by_idempotency_key key s = elim (find_key key s.tasks) [ none ↦ err not_found | some t ↦ ok t ]

unfoldable pub get : String → MemoryStore → Result Task
get id s = elim (lookup id s.tasks) [ none ↦ err not_found | some t ↦ ok t ]

unfoldable pub list : MemoryStore → Result (List Task)
list s = ok (values s.tasks)

unfoldable pub count_in_flight : MemoryStore → Result ℕ
count_in_flight s = ok (count_if (λ t. is_in_flight t.status) (values s.tasks))

unfoldable pub update : Task → Write MemoryStore
update t s = elim (validate t) [
  | some e ↦ (some e, s)
  | none ↦
      if is_some (lookup t.id s.tasks)
      then (none, record s { tasks = insert t.id t s.tasks })
      else (some not_found, s)
]

unfoldable pub delete : String → Write MemoryStore
delete id s =
    if is_some (lookup id s.tasks)
    then (none, record s { tasks = erase id s.tasks })
    else (some not_found, s)

unfoldable pub update_if_lease : String → String → Task → Write MemoryStore
update_if_lease id token t s = elim (validate t) [
  | some e ↦ (some e, s)
  | none ↦ elim (lookup id s.tasks) [
    | none ↦ (some not_found, s)
    | some current ↦
        if not (status_eq current.status running) || not (current.lease_token == token)
        then (some conflict, s)
        else (none, record s { tasks = insert id t s.tasks })
  ]
]

unfoldable pub update_if_state : String → Status → String → Task → Write MemoryStore
update_if_state id status token t s = elim (validate t) [
  | some e ↦ (some e, s)
  | none ↦ elim (lookup id s.tasks) [
    | none ↦ (some not_found, s)
    | some current ↦
        if not (status_eq current.status status) || not (current.lease_token == token)
        then (some conflict, s)
        else (none, record s { tasks = insert id t s.tasks })
  ]
]

unfoldable pub register_worker : ℕ → String → ℤ → MemoryStore → Result Worker × MemoryStore
register_worker now id ttl s =
    if id == ""
    then (err worker_id_required, s)
    else let w : Worker = record {
      id = id;
      last_heartbeat = now;
      lease_until = add_time now ttl;
    } in
      (ok w, record s { workers = insert id w s.workers })

unfoldable pub heartbeat_worker : ℕ → String → ℤ → MemoryStore → Result Worker × MemoryStore
heartbeat_worker now id ttl s =
    if is_some (lookup id s.workers)
    then (let w : Worker = record {
      id = id;
      last_heartbeat = now;
      lease_until = add_time now ttl;
    } in
        (ok w, record s { workers = insert id w s.workers }))
    else (err worker_not_registered, s)

unfoldable pub get_worker : String → MemoryStore → Result Worker
get_worker id s = elim (lookup id s.workers) [ none ↦ err not_found | some w ↦ ok w ]

unfoldable pub live_workers : ℕ → List Worker → List Worker
live_workers now [] = []
live_workers now (w ∷ ws) =
    let rest = live_workers now ws in if ltb now w.lease_until then w ∷ rest else rest

unfoldable pub list_workers : ℕ → MemoryStore → Result (List Worker)
list_workers now s = ok (live_workers now (values s.workers))

unfoldable pub renew_lease : String → ℕ → Task → Task
renew_lease worker_id until t =
    if status_eq t.status running && t.worker_id == worker_id
    then record t { lease_until = some until }
    else t

unfoldable pub renew_leases : String → ℕ → Assoc Task → Assoc Task
renew_leases worker_id until [] = []
renew_leases worker_id until ((id, t) ∷ m) =
    (id, renew_lease worker_id until t) ∷ renew_leases worker_id until m

unfoldable pub renew_worker_task_leases : String → ℕ → Write MemoryStore
renew_worker_task_leases worker_id until s =
    (none, record s { tasks = renew_leases worker_id until s.tasks })

-- MemoryStore behind the interface: it has no atomic claim and no scanner.
abbrev pub memory : Store MemoryStore
memory = record {
  create = create;
  get = get;
  list = list;
  update = update;
  delete = delete;
  conditional_updater =
      some (record { update_if_lease = update_if_lease; update_if_state = update_if_state });
  atomic_claimer = none;
  in_flight_counter = some (record { count_in_flight = count_in_flight });
  task_scanner = none;
  worker_registry = some (record {
    register_worker = register_worker;
    heartbeat_worker = heartbeat_worker;
    get_worker = get_worker;
    list_workers = list_workers;
    renew_worker_task_leases = renew_worker_task_leases;
  });
  key_finder = some (record { get_by_idempotency_key = get_by_idempotency_key });
}
