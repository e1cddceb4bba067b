-- ===== src/Scheduler/Submit/Explored.antt =====
-- internal/scheduler/scheduler.go: what the search of `dependsOn` visits when it does not find its
-- target.

use job_raft.Task.{Err, Task}
use mathlib.Core.Path.{subst}
use job_raft.Base.{
  length, zero, All, All-map, ℕ, suc, ◌≡◌, refl, sym, ap, ◌∙◌, ◌≤◌, ◌<◌, inl, inr, String, Bool,
  true, false, List, [], ◌∷◌, arith, eq_iff, eq_refl, ◌==◌, if◌then◌else◌, Bool-cases,
}
use job_raft.Scheduler.Submit.{depends_on, any_depends, contains}
use job_raft.Store.{err, Result-cases, ok, Store}

-- The identifiers that a search has not visited yet.
abbrev pub unseen : List String → List String → ℕ
unseen [] seen = 0
unseen (j ∷ js) seen = let rest = unseen js seen in if contains seen j then rest else suc rest

abbrev pub Grows : List String → List String → Type 0
Grows a b = (x : String) → contains a x ≡ true → contains b x ≡ true

pub unseen-nil : (js : List String) → unseen js [] ≤ length js
unseen-nil [] = ground arith
unseen-nil (j ∷ js) = ground (arith, unseen-nil js)

unseen-Grows : (js a b : List String) → Grows a b → unseen js b ≤ unseen js a
unseen-Grows [] a b h = ground arith
unseen-Grows (j ∷ js) a b h = elim (Bool-cases (contains a j)) [
  | inl old ↦ ground (arith, unseen-Grows js a b h, h j old)
  | inr new ↦ ground (arith, unseen-Grows js a b h)
]

Grows-cons : (id : String) (a : List String) → Grows a (id ∷ a)
Grows-cons id a x h = ground (arith, h)

-- A visit of a new identifier leaves fewer.
unseen-cons :
    (js a : List String) (id : String)
    → contains js id ≡ true
    → contains a id ≡ false
    → unseen js (id ∷ a) < unseen js a
unseen-cons [] a id h new = absurd (ground (arith, h))
unseen-cons (j ∷ js) a id h new = elim (Bool-cases (j == id)) [
  | inl hit ↦
      let same : contains a j ≡ false = ap (contains a) ((eq_iff j id).0 hit) ∙ new in
      let back : (id == j) ≡ true = ap (λ x. id == x) ((eq_iff j id).0 hit) ∙ eq_refl id in
      ground (arith, same, back, unseen-Grows js a (id ∷ a) (Grows-cons id a))
  | inr other ↦
      let back : (id == j) ≡ false = elim (Bool-cases (id == j)) [
        | inr no' ↦ no'
        | inl yes' ↦ ground (arith, other, eq_iff id j, eq_iff j id, yes')
      ] in
      ground (arith, other, back, h, unseen-cons js a id (ground (arith, h, other)) new)
]

ok-err : (t : Task) (e : Err) → ¬ (ok t ≡ err e)
ok-err t e h = cc h

ok-inj : (t u : Task) → ok t ≡ ok u → t ≡ u
ok-inj t u h = cc h

module _ {S : Type 0} (api : Store S) (st : S) (target : String) where
  -- What a search that found nothing has visited from `a` on: none of it is the target, and the
  -- dependencies of the stored tasks in it are visited as well.
  pub record Explored (a b : List String) : Type 0 where
    pub grows : Grows a b
    pub missed : (x : String) → contains b x ≡ true → contains a x ≡ false → (x == target) ≡ false
    pub closed :
        (x : String) (u : Task)
        → contains b x ≡ true
        → contains a x ≡ false
        → api.get x st ≡ ok u
        → All (λ d. contains b d ≡ true) u.depends_on

  Explored-refl : (a : List String) → Explored a a
  Explored-refl a = record {
    grows = λ x h. h;
    missed = λ x h k. absurd (ground (arith, h, k));
    closed = λ x u h k found. absurd (ground (arith, h, k));
  }

  Explored-trans : {a b c : List String} → Explored a b → Explored b c → Explored a c
  Explored-trans {a} {b} {c} p q = record {
    grows = λ x h. q.grows x (p.grows x h);
    missed = λ x h k. elim (Bool-cases (contains b x)) [
      | inl old ↦ p.missed x old k
      | inr new ↦ q.missed x h new
    ];
    closed = λ x u h k found. elim (Bool-cases (contains b x)) [
      | inl old ↦ All-map _ _ q.grows u.depends_on (p.closed x u old k found)
      | inr new ↦ q.closed x u h new found
    ];
  }

  -- A search of the dependencies one after the other, with a visit that explores.
  any_depends-Explored :
      (visit : String → List String → Bool × List String) (ids : List String) (limit : ℕ)
      → ((id : String) (seen : List String)
          → unseen ids seen < limit
          → (visit id seen).0 ≡ false
          → Explored seen (visit id seen).1 × (contains (visit id seen).1 id ≡ true))
      → (deps seen : List String) → unseen ids seen < limit
      → (any_depends visit deps seen).0 ≡ false
      → Explored seen (any_depends visit deps seen).1
        × All (λ d. contains (any_depends visit deps seen).1 d ≡ true) deps
  unfolding any_depends
  any_depends-Explored visit ids limit explores [] seen room h = (Explored-refl seen, tt)
  any_depends-Explored visit ids limit explores (dep ∷ deps) seen room h =
      elim (Bool-cases (visit dep seen).0) [
        | inl found ↦ absurd (ground (arith, h, found))
        | inr missed' ↦
            let (first, there) = explores dep seen room missed' in
            let next = (visit dep seen).1 in
            let same : any_depends visit (dep ∷ deps) seen ≡ any_depends visit deps next =
              rw (missed', any_depends) refl in
            let room' : unseen ids next < limit =
              ground (arith, room, unseen-Grows ids seen next first.grows) in
            let (rest, all) =
              any_depends-Explored visit ids limit explores deps next room'
                (ap (λ r. r.0) (sym same) ∙ h) in
            subst (λ r. Explored seen r.1 × All (λ d. contains r.1 d ≡ true) (dep ∷ deps))
              (sym same) (Explored-trans first rest, (rest.grows dep there, all))
      ]

  -- The visit of one identifier that is neither the target nor known.
  Explored-cons :
      (id : String) (seen after : List String)
      → (id == target) ≡ false
      → Explored (id ∷ seen) after
      → ((u : Task) → api.get id st ≡ ok u → All (λ d. contains after d ≡ true) u.depends_on)
      → Explored seen after
  Explored-cons id seen after other p deps = record {
    grows = λ x h. p.grows x (Grows-cons id seen x h);
    missed = λ x h k. elim (Bool-cases (id == x)) [
      | inl hit ↦ ap (λ y. y == target) (sym ((eq_iff id x).0 hit)) ∙ other
      | inr new ↦ p.missed x h (ground (arith, k, new))
    ];
    closed = λ x u h k found. elim (Bool-cases (id == x)) [
      | inl hit ↦ deps u (ap (λ y. api.get y st) ((eq_iff id x).0 hit) ∙ found)
      | inr new ↦ p.closed x u h (ground (arith, k, new)) found
    ];
  }

  head_seen : (id : String) (seen : List String) → contains (id ∷ seen) id ≡ true
  head_seen id seen = ground (arith, eq_refl id)

  module _ (ids : List String)
      (known : (j : String) (u : Task) → api.get j st ≡ ok u → contains ids j ≡ true) where
    pub depends_on-Explored :
        (depth : ℕ) (id : String) (seen : List String)
        → unseen ids seen < depth
        → (depends_on api (suc depth) target st id seen).0 ≡ false
        → Explored seen (depends_on api (suc depth) target st id seen).1
          × (contains (depends_on api (suc depth) target st id seen).1 id ≡ true)
    unfolding depends_on
    depends_on-Explored zero id seen room h = absurd (omega (arith, room))
    depends_on-Explored (suc depth) id seen room h = elim (Bool-cases (id == target)) [
      | inl hit ↦ absurd (ground (arith, h, hit))
      | inr other ↦ elim (Bool-cases (contains seen id)) [
        | inl old ↦ rw (other, old, depends_on) (Explored-refl seen, old)
        | inr new ↦ elim (Result-cases (api.get id st)) [
          | inl (e, missing) ↦
              let after = id ∷ seen in
              rw (other, new, missing, depends_on)
                (
                  Explored-cons id seen after other (Explored-refl after)
                      (λ u found. absurd (ok-err u e (sym found ∙ missing))),
                  head_seen id seen,
                )
          | inr (t, found) ↦
              let next =
                any_depends (depends_on api (suc depth) target st) t.depends_on (id ∷ seen) in
              let same : depends_on api (suc (suc depth)) target st id seen ≡ next =
                rw (other, new, found, depends_on) refl in
              let fewer = unseen-cons ids seen id (known id t found) new in
              let (deep, all) =
                any_depends-Explored (depends_on api (suc depth) target st) ids depth
                  (depends_on-Explored depth) t.depends_on (id ∷ seen) (omega (arith, fewer, room))
                  (ap (λ r. r.0) (sym same) ∙ h) in
              subst (λ r. Explored seen r.1 × (contains r.1 id ≡ true)) (sym same)
                (
                  Explored-cons id seen next.1 other deep (λ u there.
                      subst (λ v. All (λ d. contains next.1 d ≡ true) v.depends_on)
                        (ok-inj t u (sym found ∙ there)) all),
                  deep.grows id (head_seen id seen),
                )
        ]
      ]
    ]
