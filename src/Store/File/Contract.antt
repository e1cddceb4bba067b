-- ===== src/Store/File/Contract.antt =====
-- internal/store/file.go: a file store whose saves go through keeps the contract of the scheduler.
use job_raft.Store.{err, ok, Result}
use job_raft.Task.{not_found, validate, running, Status, Task, Err}
use job_raft.Base.{
  Assoc, ◌≡◌, refl, sym, ap, ◌∙◌, ◌⊎◌, inl, inr, String, Option, none, some, ◌==◌, if◌then◌else◌,
  lookup,
}
use job_raft.Fileutil.{FileSystem}
use job_raft.Store.Contract.{IsLawful, ComparesAndSets, Replaced}
use job_raft.Store.File
use job_raft.Store.File.{FileStore, Encoding, save_locked, file}
use job_raft.Store.File.Durable.{
  Follows, in_memory, save_locked-tasks, write_file-Follows, creates, deletes, updates_if_state,
  updates_if_lease,
}
use job_raft.Store.Memory
use job_raft.Store.Memory.{MemoryStore, memory}
use job_raft.Store.Memory.Contract.{
  memory-IsLawful, state_hit, update_if_state-ComparesAndSets, update_if_lease-ComparesAndSets,
}

module _ {D : Type 0} (fs : FileSystem D) (json : Encoding)
    (saves : (s : FileStore D) → (save_locked fs json s).0 ≡ none) where
  get-in_memory :
      (id : String) (s : FileStore D)
      → (file fs json).get id s ≡ memory.get id (in_memory fs json s)
  unfolding File.get Memory.get
  get-in_memory id s = refl

  get-tasks :
      (id : String) (s : FileStore D) (m : MemoryStore)
      → s.tasks ≡ m.tasks
      → (file fs json).get id s ≡ memory.get id m
  unfolding File.get Memory.get
  get-tasks id s m h =
      ap
        (λ (x : Assoc Task). elim (lookup id x) as (λ o. Result Task) [
          | none ↦ err not_found
          | some t ↦ ok t
        ])
        h

  Follows-some :
      (s : FileStore D) (r : Option Err × FileStore D) (m : Option Err × MemoryStore) (e : Err)
      → Follows fs json s r m
      → m.0 ≡ some e
      → (f : Err) × (r.0 ≡ some f) × (r.1 ≡ s)
  Follows-some s r m e (inl (g, f, p, q, k)) h = (f, ap (λ x. x.0) k, ap (λ x. x.1) k)
  Follows-some s r m e (inr (p, k)) h = cc (p, h)

  Follows-none :
      (s : FileStore D) (r : Option Err × FileStore D) (m : Option Err × MemoryStore)
      → Follows fs json s r m
      → m.0 ≡ none
      → (r.0 ≡ none) × (r.1.tasks ≡ m.1.tasks)
  Follows-none s r m (inl (g, f, p, q, k)) h = cc (p, h)
  Follows-none s r m (inr (p, k)) h = (
    ap (λ x. x.0) k ∙ saves (record s { tasks = m.1.tasks }),
    ap (λ x. x.1.tasks) k ∙ save_locked-tasks fs json (record s { tasks = m.1.tasks }),
  )

  Replaced-Follows :
      (id : String) (t : Task) (s : FileStore D) (st : FileStore D) (m : MemoryStore)
      → st.tasks ≡ m.tasks
      → Replaced memory id t (in_memory fs json s) m
      → Replaced (file fs json) id t s st
  Replaced-Follows id t s st m same new j =
      get-tasks j st m same
      ∙ new j
      ∙ ap (λ (x : Result Task). if id == j then ok t else x) (sym (get-in_memory j s))

  ComparesAndSets-Follows :
      (id : String) (status : Status) (token : String) (t : Task) (s : FileStore D)
      (r : Option Err × FileStore D) (m : Option Err × MemoryStore)
      → Follows fs json s r m
      → ComparesAndSets memory id status token t (in_memory fs json s) m
      → ComparesAndSets (file fs json) id status token t s r
  ComparesAndSets-Follows id status token t s r m f (inl (e, p, q)) = inl (Follows-some s r m e f p)
  ComparesAndSets-Follows id status token t s r m f (inr (current, found, h, k, valid, p, new)) =
      let (q, same) = Follows-none s r m f p in
      inr (
        current,
        get-in_memory id s ∙ found,
        h,
        k,
        valid,
        q,
        Replaced-Follows id t s r.1 m.1 same new,
      )

  save_hit :
      (id : String) (t current : Task) (s : FileStore D)
      → validate t ≡ none
      → (file fs json).get id s ≡ ok current
      → (File.update_if_state fs json id current.status current.lease_token t s).0 ≡ none
  save_hit id t current s valid found =
      (Follows-none s _ _
        (write_file-Follows fs json (updates_if_state id current.status current.lease_token t) s)
        (state_hit id t current (in_memory fs json s) valid (sym (get-in_memory id s) ∙ found))).0

  delete_cases :
      (id : String) (s : FileStore D)
      → ((e : Err) × ((File.delete fs json id s).0 ≡ some e) × ((File.delete fs json id s).1 ≡ s))
        ⊎ ((t : Task) × ((file fs json).get id s ≡ ok t)
            × ((File.delete fs json id s).0 ≡ none)
            × ((j : String)
                → (file fs json).get j (File.delete fs json id s).1
                  ≡ (if id == j then err not_found else (file fs json).get j s)))
  delete_cases id s = elim (memory-IsLawful.delete_cases id (in_memory fs json s)) [
    | inl (e, p, _) ↦ inl (Follows-some s _ _ e (write_file-Follows fs json (deletes id) s) p)
    | inr (t, found, p, gone) ↦
        let (q, same) = Follows-none s _ _ (write_file-Follows fs json (deletes id) s) p in
        inr (
          t,
          get-in_memory id s ∙ found,
          q,
          λ j.
              get-tasks j _ _ same
              ∙ gone j
              ∙ ap (λ (x : Result Task). if id == j then err not_found else x)
                  (sym (get-in_memory j s)),
        )
  ]

  create_cases :
      (t : Task) (s : FileStore D)
      → ((e : Err) × ((File.create fs json t s).0 ≡ some e) × ((File.create fs json t s).1 ≡ s))
        ⊎ ((e : Err) × ((file fs json).get t.id s ≡ err e)
            × (validate t ≡ none)
            × ((File.create fs json t s).0 ≡ none)
            × Replaced (file fs json) t.id t s (File.create fs json t s).1)
  create_cases t s = elim (memory-IsLawful.create_cases t (in_memory fs json s)) [
    | inl (e, p, _) ↦ inl (Follows-some s _ _ e (write_file-Follows fs json (creates t) s) p)
    | inr (e, free, valid, p, new) ↦
        let (q, same) = Follows-none s _ _ (write_file-Follows fs json (creates t) s) p in
        inr (e, get-in_memory t.id s ∙ free, valid, q, Replaced-Follows t.id t s _ _ same new)
  ]

  -- The file store keeps the contract of Store/Contract if every save goes through.
  pub file-IsLawful : IsLawful (file fs json)
  file-IsLawful = record {
    updater = record {
      update_if_lease = File.update_if_lease fs json;
      update_if_state = File.update_if_state fs json;
    };
    has_updater = refl;
    state_cases = λ id status token t s.
        ComparesAndSets-Follows id status token t s _ _
          (write_file-Follows fs json (updates_if_state id status token t) s)
          (update_if_state-ComparesAndSets id status token t (in_memory fs json s));
    state_hit = save_hit;
    lease_cases = λ id token t s.
        ComparesAndSets-Follows id running token t s _ _
          (write_file-Follows fs json (updates_if_lease id token t) s)
          (update_if_lease-ComparesAndSets id token t (in_memory fs json s));
    delete_cases = delete_cases;
    create_cases = create_cases;
    registry_IsSeparate = λ registry h. cc h;
  }
