-- ===== src/Scheduler/Submit/Capacity.antt =====
-- internal/scheduler/scheduler.go and internal/store/store.go: idempotency keys and backpressure of
-- submissions to a memory store.
use job_raft.Store.{is_in_flight, ok}
use job_raft.Scheduler.Submit.{
  find_by_idempotency_key, dependency_error, queue_error, duplicate, with_defaults, in_flight_count,
  submit,
}
use job_raft.Task.{duplicate_task, validate, Task}
use job_raft.Base.{
  if◌then◌else◌, lookup-insert, values, count_if, Assoc, insert, ℕ, ◌+◌, ◌≡◌, refl, sym, ap, ◌∙◌,
  ◌≤◌, ◌<◌, ◌⊎◌, inl, inr, String, Bool, true, false, none, some, [], ◌∷◌, arith, eq_refl, ◌==◌,
  Option-cases, lookup, pos,
}
use job_raft.Scheduler.{Scheduler}
use job_raft.Store.Memory
use job_raft.Store.Memory.{find_key, MemoryStore, memory}

find_key-insert :
    (key id : String) (t : Task) (m : Assoc Task)
    → t.idempotency_key ≡ key
    → find_key key m ≡ none
    → find_key key (insert id t m) ≡ some t
unfolding find_key insert
find_key-insert key id t [] k h = ground (arith, eq_refl key)
find_key-insert key id t ((j, u) ∷ m) k h =
    ground (arith, eq_refl key, find_key-insert key id t m k)

-- A new entry makes the count of the values that pass a test larger by at most one.
count_if-insert :
    (p : Task → Bool) (id : String) (t : Task) (m : Assoc Task)
    → lookup id m ≡ none
    → count_if p (values (insert id t m)) ≤ count_if p (values m) + 1
unfolding insert lookup
count_if-insert p id t [] h = ground arith
count_if-insert p id t ((j, u) ∷ m) h = ground (arith, count_if-insert p id t m)

-- A creation that goes through inserts the task under a free identifier and a free key.
create-ok :
    (t : Task) (st : MemoryStore)
    → (memory.create t st).0 ≡ none
    → ((memory.create t st).1 ≡ record st { tasks = insert t.id t st.tasks })
      × (lookup t.id st.tasks ≡ none)
      × ((t.idempotency_key == "") ≡ true ⊎ (find_key t.idempotency_key st.tasks ≡ none))
unfolding Memory.create
create-ok t st h = elim (Option-cases (validate t)) [
  | inr (e, p) ↦ absurd (ground arith)
  | inl fine ↦ elim (Option-cases (find_key t.idempotency_key st.tasks)) [
    | inl free ↦ (ground arith, ground arith, inr free)
    | inr (u, p) ↦ (ground arith, ground arith, inl (ground arith))
  ]
]

submit-create :
    (depth : ℕ) (new_id : String) (m n : ℕ) (t : Task) (s s' : Scheduler MemoryStore)
    → submit memory depth new_id m n t s ≡ (none, s')
    → ((memory.create (with_defaults new_id m n t) s.store).0 ≡ none)
      × ((memory.create (with_defaults new_id m n t) s.store).1 ≡ s'.store)
      × (queue_error memory s.max_pending s.store ≡ none)
unfolding submit
submit-create depth new_id m n t s s' h = elim (Option-cases (duplicate memory t s.store)) [
  | inr (u, p) ↦ absurd (ground arith)
  | inl fresh ↦ elim (Option-cases (queue_error memory s.max_pending s.store)) [
    | inr (e, p) ↦ absurd (ground arith)
    | inl room ↦
        let t' = with_defaults new_id m n t in
        elim (Option-cases (dependency_error memory depth t'.id s.store t'.depends_on)) [
          | inr (e, p) ↦ absurd (ground arith)
          | inl fine ↦ (ground arith, ground arith, room)
        ]
  ]
]

-- After a submission that went through, its record is found under its key and its identifier.
pub submit-found :
    (depth : ℕ) (new_id : String) (m n : ℕ) (t : Task) (s s' : Scheduler MemoryStore)
    → submit memory depth new_id m n t s ≡ (none, s')
    → (t.idempotency_key == "") ≡ false
    → (find_by_idempotency_key memory t.idempotency_key s'.store ≡ ok (with_defaults new_id m n t))
      × (memory.get (with_defaults new_id m n t).id s'.store ≡ ok (with_defaults new_id m n t))
unfolding with_defaults find_by_idempotency_key Memory.get_by_idempotency_key Memory.get
submit-found depth new_id m n t s s' h key =
    let t' = with_defaults new_id m n t in
    let (ok', wrote, _) = submit-create depth new_id m n t s s' h in
    let (inserted, _, free) = create-ok t' s.store ok' in
    let tasks' : s'.store.tasks ≡ insert t'.id t' s.store.tasks =
      ap (λ st. st.tasks) (sym wrote ∙ inserted) in
    let fresh : find_key t.idempotency_key s.store.tasks ≡ none = elim free [
      | inl keyless ↦ absurd (ground arith)
      | inr none' ↦ none'
    ] in
    let found : find_key t.idempotency_key s'.store.tasks ≡ some t' =
      rw tasks' (find_key-insert t.idempotency_key t'.id t' s.store.tasks refl fresh) in
    let stored' : lookup t'.id s'.store.tasks ≡ some t' =
      ap (lookup t'.id) tasks'
      ∙ lookup-insert t'.id t'.id t' s.store.tasks
      ∙ ap (λ b. if b then some t' else lookup t'.id s.store.tasks) (eq_refl t'.id) in
    (ground arith, ground arith)

-- Right after a submission with an idempotency key went through at a memory store, one that
-- carries the same key is answered with the identifier of the task that was created, and changes
-- nothing.
pub resubmit_refused :
    (depth depth' : ℕ) (new_id other_id : String) (m n m' n' : ℕ) (t u : Task)
    (s s' : Scheduler MemoryStore)
    → submit memory depth new_id m n t s ≡ (none, s')
    → (t.idempotency_key == "") ≡ false
    → u.idempotency_key ≡ t.idempotency_key
    → submit memory depth' other_id m' n' u s'
      ≡ (some (duplicate_task (with_defaults new_id m n t).id), s')
unfolding submit duplicate with_defaults
resubmit_refused depth depth' new_id other_id m n m' n' t u s s' h key same =
    let (found, _) = submit-found depth new_id m n t s s' h key in
    let found' : find_by_idempotency_key memory u.idempotency_key s'.store
        ≡ ok (with_defaults new_id m n t) =
      ap (λ k. find_by_idempotency_key memory k s'.store) same ∙ found in
    let keyed : (u.idempotency_key == "") ≡ false = ap (λ k. k == "") same ∙ key in ground arith

room_left :
    (limit : ℕ) (st : MemoryStore)
    → queue_error memory (pos limit) st ≡ none
    → 0 < limit
    → count_if (λ t. is_in_flight t.status) (values st.tasks) < limit
unfolding queue_error in_flight_count Memory.count_in_flight
room_left limit st h some' = ground arith

-- With a positive limit on the queue, the tasks in flight at a memory store are within it after
-- a submission that went through.
pub submit_within_limit :
    (depth : ℕ) (new_id : String) (m n limit : ℕ) (t : Task) (s s' : Scheduler MemoryStore)
    → submit memory depth new_id m n t s ≡ (none, s')
    → s.max_pending ≡ pos limit
    → 0 < limit
    → (count : ℕ) × (in_flight_count memory s'.store ≡ ok count) × (count ≤ limit)
unfolding in_flight_count Memory.count_in_flight
submit_within_limit depth new_id m n limit t s s' h bound some' =
    let t' = with_defaults new_id m n t in
    let (ok', wrote, room) = submit-create depth new_id m n t s s' h in
    let (inserted, free, _) = create-ok t' s.store ok' in
    let more = count_if-insert (λ t. is_in_flight t.status) t'.id t' s.store.tasks free in
    let tasks' : s'.store.tasks ≡ insert t'.id t' s.store.tasks =
      ap (λ st. st.tasks) (sym wrote ∙ inserted) in
    let below = room_left limit s.store (rw bound at room) some' in
    (
      count_if (λ t. is_in_flight t.status) (values s'.store.tasks),
      refl,
      rw tasks' (omega (arith, more, below)),
    )
