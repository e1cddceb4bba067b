-- ===== src/Store/File/Durable.antt =====
-- internal/store/file.go: what a write of the file store leaves in memory and on disk, compared with
-- the memory store.
use mathlib.Core.Option
use job_raft.Store.{Result-cases, ok, Write}
use job_raft.Task.{
  file_exists, duplicate_id, conflict, duplicate_idempotency_key, status_eq, not_found, running,
  validate, Status, Err, Task,
}
use Prim.Native.String.{◌++◌}
use job_raft.Base.{
  ℕ, List, Assoc, ◌≡◌, refl, ap, ◌∙◌, ◌⊎◌, inl, inr, String, false, not, ◌&&◌, ◌||◌, Option, none,
  some, [], arith, ◌==◌, Bool-cases, Option-cases, lookup, is_some,
}
use job_raft.Fileutil.{FileSystem, replace}
use job_raft.Fileutil.Safe.{IsDisk, replace-Kept}
use job_raft.Store.File
use job_raft.Store.File.{FileStore, Encoding, new_file, save_locked, file}
use job_raft.Store.Memory
use job_raft.Store.Memory.{find_key, MemoryStore, memory}

-- The writes of a store.
pub data StoreWrite : Type 0 where
  creates : Task → StoreWrite
  updates : Task → StoreWrite
  updates_if_lease : String → String → Task → StoreWrite
  updates_if_state : String → Status → String → Task → StoreWrite
  deletes : String → StoreWrite

abbrev pub write_file : {D : Type 0} → FileSystem D → Encoding → StoreWrite → Write (FileStore D)
write_file fs json (creates t) s = File.create fs json t s
write_file fs json (updates t) s = File.update fs json t s
write_file fs json (updates_if_lease id token t) s = File.update_if_lease fs json id token t s
write_file fs json (updates_if_state id status token t) s =
    File.update_if_state fs json id status token t s
write_file fs json (deletes id) s = File.delete fs json id s

abbrev pub write_memory : StoreWrite → Write MemoryStore
write_memory (creates t) s = Memory.create t s
write_memory (updates t) s = Memory.update t s
write_memory (updates_if_lease id token t) s = Memory.update_if_lease id token t s
write_memory (updates_if_state id status token t) s = Memory.update_if_state id status token t s
write_memory (deletes id) s = Memory.delete id s

-- A task with its payload and its result in another layout.
abbrev pub laid_out : (List ℕ → List ℕ) → (List ℕ → List ℕ) → Task → Task
laid_out f g t = record t { payload = f t.payload; result = g t.result }

-- What encoding/json promises of its output: it is not empty and reads back as a map that has the same
-- task under each identifier, in whatever order. The payload and the result are JSON themselves, and
-- are read back in the layout that the indentation of the whole text gives them.
pub record RoundTrips (json : Encoding) : Type 0 where
  pub layout_payload : List ℕ → List ℕ
  pub layout_result : List ℕ → List ℕ
  pub not_empty : (m : Assoc Task) (text : String) → json.marshal m ≡ ok text → (text == "") ≡ false
  pub reads_back :
      (m : Assoc Task) (text : String)
      → json.marshal m ≡ ok text
      → (m' : Assoc Task) × (json.unmarshal text ≡ ok m')
        × ((id : String)
            → lookup id m' ≡ Option.map (laid_out layout_payload layout_result) (lookup id m))

-- A store that was opened again: the path and the disk are those of the one before, and so is each
-- task but for the layout of its payload and its result.
abbrev pub IsReopened :
    {D : Type 0} {json : Encoding} → RoundTrips json → FileStore D → FileStore D → Type 0
IsReopened trips s again =
    (again.path ≡ s.path)
    × (again.disk ≡ s.disk)
    × ((id : String)
        → lookup id again.tasks
          ≡ Option.map (laid_out trips.layout_payload trips.layout_result) (lookup id s.tasks))

module _ {D : Type 0} (fs : FileSystem D) (json : Encoding) where
  pub save_locked-tasks : (s : FileStore D) → (save_locked fs json s).1.tasks ≡ s.tasks
  unfolding save_locked
  save_locked-tasks s = ground arith

  -- The tasks as a memory store has them.
  abbrev pub in_memory : FileStore D → MemoryStore
  in_memory s = record { tasks = s.tasks; workers = [] }

  -- A write to the file store, beside the same write to the memory store.
  abbrev pub Follows : FileStore D → Option Err × FileStore D → Option Err × MemoryStore → Type 0
  Follows s r m =
      ((e : Err) × (f : Err) × (m.0 ≡ some e) × (m.1 ≡ in_memory s) × (r ≡ (some f, s)))
      ⊎ ((m.0 ≡ none) × (r ≡ save_locked fs json (record s { tasks = m.1.tasks })))

  Follows-create :
      (t : Task) (s : FileStore D)
      → Follows s (File.create fs json t s) (Memory.create t (in_memory s))
  unfolding File.create Memory.create
  Follows-create t s = elim (Option-cases (validate t)) [
    | inr (e, p) ↦ inl (e, e, ground arith, ground arith, ground arith)
    | inl fine ↦
        elim (Bool-cases
          (not (t.idempotency_key == "") && is_some (find_key t.idempotency_key s.tasks))) [
            | inl taken ↦ inl (
              duplicate_idempotency_key,
              duplicate_idempotency_key,
              ground arith,
              ground arith,
              ground arith,
            )
            | inr free ↦ elim (Bool-cases (is_some (lookup t.id s.tasks))) [
              | inl found ↦
                  inl (duplicate_id, file_exists, ground arith, ground arith, ground arith)
              | inr missing ↦ inr (ground arith, ground arith)
            ]
          ]
  ]

  Follows-update :
      (t : Task) (s : FileStore D)
      → Follows s (File.update fs json t s) (Memory.update t (in_memory s))
  unfolding File.update Memory.update
  Follows-update t s = elim (Option-cases (validate t)) [
    | inr (e, p) ↦ inl (e, e, ground arith, ground arith, ground arith)
    | inl fine ↦ elim (Bool-cases (is_some (lookup t.id s.tasks))) [
      | inr missing ↦ inl (not_found, not_found, ground arith, ground arith, ground arith)
      | inl found ↦ inr (ground arith, ground arith)
    ]
  ]

  Follows-update_if_state :
      (id : String) (status : Status) (token : String) (t : Task) (s : FileStore D)
      → Follows s
          (File.update_if_state fs json id status token t s)
          (Memory.update_if_state id status token t (in_memory s))
  unfolding File.update_if_state Memory.update_if_state
  Follows-update_if_state id status token t s = elim (Option-cases (validate t)) [
    | inr (e, p) ↦ inl (e, e, ground arith, ground arith, ground arith)
    | inl fine ↦ elim (Option-cases (lookup id s.tasks)) [
      | inl missing ↦ inl (not_found, not_found, ground arith, ground arith, ground arith)
      | inr (u, found) ↦
          elim (Bool-cases (not (status_eq u.status status) || not (u.lease_token == token))) [
            | inl changed ↦ inl (conflict, conflict, ground arith, ground arith, ground arith)
            | inr same ↦ inr (ground arith, ground arith)
          ]
    ]
  ]

  Follows-update_if_lease :
      (id token : String) (t : Task) (s : FileStore D)
      → Follows s
          (File.update_if_lease fs json id token t s)
          (Memory.update_if_lease id token t (in_memory s))
  unfolding File.update_if_lease Memory.update_if_lease File.update_if_state Memory.update_if_state
  Follows-update_if_lease id token t s = Follows-update_if_state id running token t s

  Follows-delete :
      (id : String) (s : FileStore D)
      → Follows s (File.delete fs json id s) (Memory.delete id (in_memory s))
  unfolding File.delete Memory.delete
  Follows-delete id s = elim (Bool-cases (is_some (lookup id s.tasks))) [
    | inr missing ↦ inl (not_found, not_found, ground arith, ground arith, ground arith)
    | inl found ↦ inr (ground arith, ground arith)
  ]

  pub write_file-Follows :
      (c : StoreWrite) (s : FileStore D)
      → Follows s (write_file fs json c s) (write_memory c (in_memory s))
  write_file-Follows (creates t) s = Follows-create t s
  write_file-Follows (updates t) s = Follows-update t s
  write_file-Follows (updates_if_lease id token t) s = Follows-update_if_lease id token t s
  write_file-Follows (updates_if_state id status token t) s =
      Follows-update_if_state id status token t s
  write_file-Follows (deletes id) s = Follows-delete id s

  -- Every write of the file store leaves in memory the tasks that the same write of the memory store
  -- leaves, even where the save to disk fails and the write reports that failure.
  pub write_file-write_memory :
      (c : StoreWrite) (s : FileStore D)
      → (write_file fs json c s).1.tasks ≡ (write_memory c (in_memory s)).1.tasks
  write_file-write_memory c s = elim (write_file-Follows c s) [
    | inl (e, f, p, q, r) ↦ rw (r, q) refl
    | inr (p, r) ↦
        rw r (save_locked-tasks (record s { tasks = (write_memory c (in_memory s)).1.tasks }))
  ]

  module _ (disk : IsDisk fs) (trips : RoundTrips json) where
    save_locked-new_file :
        (s : FileStore D)
        → (s.path == "") ≡ false
        → (s.path ++ ".tmp" == s.path) ≡ false
        → (s.path ++ ".tmp" == s.path ++ ".bak") ≡ false
        → (s.path == s.path ++ ".bak") ≡ false
        → (save_locked fs json s).0 ≡ none
        → (again : FileStore D) × (new_file fs json s.path (save_locked fs json s).1.disk
            ≡ ok again)
          × IsReopened trips (save_locked fs json s).1 again
    unfolding save_locked new_file
    save_locked-new_file s n0 n1 n2 n3 h = elim (Result-cases (json.marshal s.tasks)) [
      | inl (e, p) ↦ absurd (ground arith)
      | inr (text, p) ↦
          let tmp = s.path ++ ".tmp" in
          elim (Option-cases (fs.write tmp text s.disk).0) [
            | inr (e, q) ↦ absurd (ground arith)
            | inl q ↦
                let d = (fs.write tmp text s.disk).1 in
                let done' : (replace fs tmp s.path d).0 ≡ none = ground arith in
                let stored' : fs.read s.path (replace fs tmp s.path d).1 ≡ ok (some text) =
                  elim (replace-Kept fs disk tmp s.path d n1 n2 n3) [
                    | inl new ↦ new ∙ disk.write_target tmp text s.disk q
                    | inr (e, no', _) ↦ cc (done', no')
                  ] in
                let full = trips.not_empty s.tasks text p in
                let (m, back, same) = trips.reads_back s.tasks text p in
                let after = (save_locked fs json s).1 in
                let tasks' : after.tasks ≡ s.tasks = save_locked-tasks s in
                (
                  record { path = s.path; tasks = m; disk = after.disk },
                  ground arith,
                  (ground arith, refl, λ id. rw tasks' (same id)),
                )
          ]
    ]

    -- After a write that reports no error, opening the file again succeeds and gives the store
    -- as it is in memory, each task under its identifier, but for the layout of the JSON in
    -- payloads and results. The path is not empty, the names of the file, of its temporary file and of
    -- its backup are different, the disk does what package os documents, and the JSON
    -- encoding reads back.
    pub write_file-new_file :
        (c : StoreWrite) (s : FileStore D)
        → (s.path == "") ≡ false
        → (s.path ++ ".tmp" == s.path) ≡ false
        → (s.path ++ ".tmp" == s.path ++ ".bak") ≡ false
        → (s.path == s.path ++ ".bak") ≡ false
        → (write_file fs json c s).0 ≡ none
        → (again : FileStore D) × (new_file fs json s.path (write_file fs json c s).1.disk
            ≡ ok again)
          × IsReopened trips (write_file fs json c s).1 again
    write_file-new_file c s n0 n1 n2 n3 h = elim (write_file-Follows c s) [
      | inl (e, f, p, q, r) ↦ cc (h, ap (λ (x : Option Err × FileStore D). x.0) r)
      | inr (p, r) ↦ rw r (
          save_locked-new_file (record s { tasks = (write_memory c (in_memory s)).1.tasks }) n0 n1
            n2 n3 (rw r at h))
    ]
