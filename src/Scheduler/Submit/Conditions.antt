-- ===== src/Scheduler/Submit/Conditions.antt =====
-- internal/scheduler/scheduler.go: the conditions that `Submit` checks, stated of the store's answers.
use job_raft.Task.{backpressure, duplicate_task, Err, Task}
use job_raft.Scheduler.Submit.{
  find_by_idempotency_key, find_listed, in_flight_count, queue_error, duplicate, depends_on,
  dependency_error,
}
use job_raft.Store.{KeyFinder, err, Result-cases, ok, Store}
use job_raft.Base.{
  All, In, ℕ, ◌≡◌, inl, inr, String, true, false, none, some, List, [], ◌∷◌, arith, ◌==◌,
  Option-cases, Bool-cases, ℤ, pos, ltb_ℤ,
}

module _ {S : Type 0} (api : Store S) where
  -- No stored task has the key, for all that the store says: there is no key, the store's own search
  -- does not find it, none of the listed tasks has it, or the listing fails.
  pub data KeyFree (key : String) (st : S) : Type 0 where
    keyless : (key == "") ≡ true → KeyFree key st
    not_indexed :
        (finder : KeyFinder S) (e : Err)
        → api.key_finder ≡ some finder
        → finder.get_by_idempotency_key key st ≡ err e
        → KeyFree key st
    not_listed :
        (items : List Task)
        → api.key_finder ≡ none
        → api.list st ≡ ok items
        → All (λ u. (u.idempotency_key == key) ≡ false) items
        → KeyFree key st
    unlisted : (e : Err) → api.key_finder ≡ none → api.list st ≡ err e → KeyFree key st

  -- The store's own search finds the task by the key, or a listed task has it.
  pub data KeyTaken (key : String) (st : S) (u : Task) : Type 0 where
    indexed :
        (finder : KeyFinder S)
        → api.key_finder ≡ some finder
        → finder.get_by_idempotency_key key st ≡ ok u
        → KeyTaken key st u
    listed :
        (items : List Task)
        → api.key_finder ≡ none
        → api.list st ≡ ok items
        → In u items
        → (u.idempotency_key == key) ≡ true
        → KeyTaken key st u

  -- There is no limit, or the tasks in flight are fewer.
  pub data HasRoom (limit : ℤ) (st : S) : Type 0 where
    unlimited : ltb_ℤ (pos 0) limit ≡ false → HasRoom limit st
    below : (n : ℕ) → in_flight_count api st ≡ ok n → ltb_ℤ (pos n) limit ≡ true → HasRoom limit st

  -- A dependency that `Submit` lets pass: another stored task, from which the search does not reach
  -- the submitted one.
  abbrev pub Acceptable : ℕ → String → S → String → Type 0
  Acceptable depth id st dep =
      ((dep == id) ≡ false)
      × (u : Task) × (api.get dep st ≡ ok u)
      × ((depends_on api depth id st dep []).0 ≡ false)

  -- Why the task `t`, with its defaults, is refused with the error `e`.
  pub data Refused (depth : ℕ) (limit : ℤ) (t : Task) (st : S) (e : Err) : Type 0 where
    known :
        (u : Task)
        → (t.idempotency_key == "") ≡ false
        → KeyTaken t.idempotency_key st u
        → e ≡ duplicate_task u.id
        → Refused depth limit t st e
    full :
        (n : ℕ)
        → in_flight_count api st ≡ ok n
        → ltb_ℤ (pos 0) limit ≡ true
        → ltb_ℤ (pos n) limit ≡ false
        → e ≡ backpressure
        → Refused depth limit t st e
    uncounted :
        ltb_ℤ (pos 0) limit ≡ true → in_flight_count api st ≡ err e → Refused depth limit t st e
    unacceptable : ¬ All (Acceptable depth t.id st) t.depends_on → Refused depth limit t st e
    not_created : (api.create t st).0 ≡ some e → Refused depth limit t st e

  find_listed-none :
      (key : String) (e : Err) (items : List Task)
      → find_listed key items ≡ err e
      → All (λ u. (u.idempotency_key == key) ≡ false) items
  unfolding find_listed
  find_listed-none key e [] h = tt
  find_listed-none key e (u ∷ us) h = elim (Bool-cases (u.idempotency_key == key)) [
    | inl hit ↦ absurd (ground (arith, h, hit))
    | inr miss ↦ (miss, find_listed-none key e us (rw miss at h))
  ]

  find_listed-some :
      (key : String) (u : Task) (items : List Task)
      → find_listed key items ≡ ok u
      → In u items × ((u.idempotency_key == key) ≡ true)
  unfolding find_listed
  find_listed-some key u [] h = absurd (ground (arith, h))
  find_listed-some key u (v ∷ vs) h = elim (Bool-cases (v.idempotency_key == key)) [
    | inl hit ↦ let same : u ≡ v = ground (arith, h, hit) in (inl same, rw same hit)
    | inr miss ↦ let (among, has) = find_listed-some key u vs (rw miss at h) in (inr among, has)
  ]

  pub duplicate-KeyFree :
      (t : Task) (st : S) → duplicate api t st ≡ none → KeyFree t.idempotency_key st
  unfolding duplicate find_by_idempotency_key
  duplicate-KeyFree t st h = elim (Bool-cases (t.idempotency_key == "")) [
    | inl no' ↦ keyless no'
    | inr key ↦ elim (Option-cases api.key_finder) [
      | inr (finder, p) ↦ elim (Result-cases (finder.get_by_idempotency_key t.idempotency_key st)) [
        | inl (e, q) ↦ not_indexed finder e p q
        | inr (u, q) ↦ absurd (ground arith)
      ]
      | inl p ↦ elim (Result-cases (api.list st)) [
        | inl (e, q) ↦ unlisted e p q
        | inr (items, q) ↦ elim (Result-cases (find_listed t.idempotency_key items)) [
          | inl (e, r) ↦ not_listed items p q (find_listed-none t.idempotency_key e items r)
          | inr (u, r) ↦ absurd (ground arith)
        ]
      ]
    ]
  ]

  pub duplicate-KeyTaken :
      (t u : Task) (st : S)
      → duplicate api t st ≡ some u
      → ((t.idempotency_key == "") ≡ false) × KeyTaken t.idempotency_key st u
  unfolding duplicate find_by_idempotency_key
  duplicate-KeyTaken t u st h = elim (Bool-cases (t.idempotency_key == "")) [
    | inl no' ↦ absurd (ground arith)
    | inr key ↦ elim (Option-cases api.key_finder) [
      | inr (finder, p) ↦ (key, indexed finder p (ground arith))
      | inl p ↦ elim (Result-cases (api.list st)) [
        | inl (e, q) ↦ absurd (ground arith)
        | inr (items, q) ↦
            let (among, has) = find_listed-some t.idempotency_key u items (ground arith) in
            (key, listed items p q among has)
      ]
    ]
  ]

  pub queue_error-HasRoom :
      (limit : ℤ) (st : S) → queue_error api limit st ≡ none → HasRoom limit st
  unfolding queue_error
  queue_error-HasRoom limit st h = elim (Bool-cases (ltb_ℤ (pos 0) limit)) [
    | inr free ↦ unlimited free
    | inl bound ↦ elim (Result-cases (in_flight_count api st)) [
      | inl (e, p) ↦ absurd (ground arith)
      | inr (n, p) ↦ below n p (ground arith)
    ]
  ]

  pub queue_error-Refused :
      (depth : ℕ) (limit : ℤ) (t : Task) (st : S) (e : Err)
      → queue_error api limit st ≡ some e
      → Refused depth limit t st e
  unfolding queue_error
  queue_error-Refused depth limit t st e h = elim (Bool-cases (ltb_ℤ (pos 0) limit)) [
    | inr free ↦ absurd (ground arith)
    | inl bound ↦ elim (Result-cases (in_flight_count api st)) [
      | inl (f, p) ↦ uncounted bound (ground arith)
      | inr (n, p) ↦ elim (Bool-cases (ltb_ℤ (pos n) limit)) [
        | inl room ↦ absurd (ground arith)
        | inr over ↦ full n p bound over (ground arith)
      ]
    ]
  ]

  pub dependency_error-Acceptable :
      (depth : ℕ) (id : String) (st : S) (deps : List String)
      → dependency_error api depth id st deps ≡ none
      → All (Acceptable depth id st) deps
  unfolding dependency_error
  dependency_error-Acceptable depth id st [] h = tt
  dependency_error-Acceptable depth id st (dep ∷ deps) h = elim (Result-cases (api.get dep st)) [
    | inl (e, p) ↦ absurd (ground arith)
    | inr (u, p) ↦
        let rest : dependency_error api depth id st deps ≡ none = ground arith in
        ((ground arith, u, p, ground arith), dependency_error-Acceptable depth id st deps rest)
  ]

  pub dependency_error-some :
      (depth : ℕ) (id : String) (st : S) (e : Err) (deps : List String)
      → dependency_error api depth id st deps ≡ some e
      → ¬ All (Acceptable depth id st) deps
  unfolding dependency_error
  dependency_error-some depth id st e [] h all = absurd (ground (arith, h))
  dependency_error-some depth id st e (dep ∷ deps) h ((other, u, found, missed), rest) =
      dependency_error-some depth id st e deps (ground (arith, h, other, found, missed)) rest
