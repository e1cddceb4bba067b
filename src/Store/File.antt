-- ===== src/Store/File.antt =====
-- internal/store/file.go: FileStore. Its lock makes each method one atomic step. The JSON encoding of
-- the task map, that of package encoding/json, is a parameter.
pub mod Durable
pub mod Contract
use job_raft.Task.{
  conflict, running, status_eq, file_exists, not_found, duplicate_idempotency_key, invalid_argument,
  validate, Status, Task, Err,
}
use job_raft.Store.{is_in_flight, err, ok, Store, Write, Result}
use Prim.Native.String.{◌++◌}
use job_raft.Base.{
  insert, count_if, values, erase, Assoc, ℕ, zero, suc, ◌+◌, ◌-◌, ◌*◌, ◌≡◌, ◌≢◌, refl, sym, ap, ◌∙◌,
  ◌≤◌, ◌<◌, ◌⊎◌, inl, inr, String, Bool, true, false, not, ◌&&◌, ◌||◌, Option, none, some, List, [],
  ◌∷◌, arith, eq_iff, eq_refl, ◌==◌, ltb, if◌then◌else◌, Bool-cases, Option-cases, lookup, is_some,
  length, ℤ, pos, negsuc,
}
use job_raft.Fileutil.{FileSystem, replace}
use job_raft.Store.Memory.{find_key}

pub record FileStore (D : Type 0) : Type 0 where
  pub path : String
  pub tasks : Assoc Task
  pub disk : D

pub record Encoding : Type 0 where
  pub marshal : Assoc Task → Result String
  pub unmarshal : String → Result (Assoc Task)

module _ {D : Type 0} (fs : FileSystem D) (json : Encoding) where
  abbrev opened : String → D → Assoc Task → Result (FileStore D)
  opened path d m = ok (record { path = path; tasks = m; disk = d })

  -- `NewFile`. Where the file is missing or empty the store has no tasks.
  unfoldable pub new_file : String → D → Result (FileStore D)
  new_file path d = if path == "" then err invalid_argument else elim (fs.read path d) [
    | err e ↦ err e
    | ok none ↦ opened path d []
    | ok (some text) ↦
        if text == ""
        then opened path d []
        else elim (json.unmarshal text) [ err e ↦ err e | ok m ↦ opened path d m ]
  ]

  -- `saveLocked`
  unfoldable pub save_locked : FileStore D → Option Err × FileStore D
  save_locked s = elim (json.marshal s.tasks) [
    | err e ↦ (some e, s)
    | ok text ↦
        let tmp = s.path ++ ".tmp" in
        let written = fs.write tmp text s.disk in
        let replaced = replace fs tmp s.path written.1 in
        elim written.0 [
          | some e ↦ (some e, record s { disk = written.1 })
          | none ↦ (replaced.0, record s { disk = replaced.1 })
        ]
  ]

  unfoldable pub create : Task → Write (FileStore D)
  create t s = elim (validate t) [
    | some e ↦ (some e, s)
    | none ↦
        if not (t.idempotency_key == "") && is_some (find_key t.idempotency_key s.tasks)
        then (some duplicate_idempotency_key, s)
        else if is_some (lookup t.id s.tasks)
        then (some file_exists, s)
        else save_locked (record s { tasks = insert t.id t s.tasks })
  ]

  unfoldable pub get_by_idempotency_key : String → FileStore D → Result Task
  get_by_idempotency_key key s = elim (find_key key s.tasks) [
    | none ↦ err not_found
    | some t ↦ ok t
  ]

  unfoldable pub get : String → FileStore D → Result Task
  get id s = elim (lookup id s.tasks) [ none ↦ err not_found | some t ↦ ok t ]

  unfoldable pub list : FileStore D → Result (List Task)
  list s = ok (values s.tasks)

  unfoldable pub count_in_flight : FileStore D → Result ℕ
  count_in_flight s = ok (count_if (λ t. is_in_flight t.status) (values s.tasks))

  unfoldable pub update : Task → Write (FileStore D)
  update t s = elim (validate t) [
    | some e ↦ (some e, s)
    | none ↦
        if is_some (lookup t.id s.tasks)
        then save_locked (record s { tasks = insert t.id t s.tasks })
        else (some not_found, s)
  ]

  unfoldable pub update_if_lease : String → String → Task → Write (FileStore D)
  update_if_lease id token t s = elim (validate t) [
    | some e ↦ (some e, s)
    | none ↦ elim (lookup id s.tasks) [
      | none ↦ (some not_found, s)
      | some current ↦
          if not (status_eq current.status running) || not (current.lease_token == token)
          then (some conflict, s)
          else save_locked (record s { tasks = insert id t s.tasks })
    ]
  ]

  unfoldable pub update_if_state : String → Status → String → Task → Write (FileStore D)
  update_if_state id status token t s = elim (validate t) [
    | some e ↦ (some e, s)
    | none ↦ elim (lookup id s.tasks) [
      | none ↦ (some not_found, s)
      | some current ↦
          if not (status_eq current.status status) || not (current.lease_token == token)
          then (some conflict, s)
          else save_locked (record s { tasks = insert id t s.tasks })
    ]
  ]

  unfoldable pub delete : String → Write (FileStore D)
  delete id s =
      if is_some (lookup id s.tasks)
      then save_locked (record s { tasks = erase id s.tasks })
      else (some not_found, s)

  -- FileStore behind the interface. It has no registry of workers.
  abbrev pub file : Store (FileStore D)
  file = record {
    create = create;
    get = get;
    list = list;
    update = update;
    delete = delete;
    conditional_updater =
        some (record { update_if_lease = update_if_lease; update_if_state = update_if_state });
    atomic_claimer = none;
    in_flight_counter = some (record { count_in_flight = count_in_flight });
    task_scanner = none;
    worker_registry = none;
    key_finder = some (record { get_by_idempotency_key = get_by_idempotency_key });
  }
