-- ===== src/Scenarios/Json.antt =====
-- An encoding of maps as texts, for runs of the stores that keep a map in a file: it takes the maps
-- whose values are made from their keys, and writes the keys.
use native.Mathlib.Decide.{ℕ_discrete}
use text.Mathlib.TextLemmas.{cons≢nil, nil-append, cons-append}
use Prim.Native.String.{◌++◌}
use Prim.Native.Char.{Char}
use job_raft.Task.{Task, backend_failed}
use job_raft.Store.{Result, ok, err}
use job_raft.Cluster.{Node}
use job_raft.Base.{
  split_slash, has_slash, split_slash-append, Assoc, String, List, [], ◌∷◌, ◌≡◌, true, false, Bool,
  Bool-cases, eq_iff, ◌==◌, ◌&&◌, not, arith, inl, inr, sym, ap, ◌∙◌, refl, if◌then◌else◌,
}

String-discrete : Discrete String
String-discrete a b = elim (Bool-cases (a == b)) [
  | inl same ↦ yes ((eq_iff a b).0 same)
  | inr other ↦ no (λ e. ground (arith, other, (eq_iff a b).1 e))
]

pub Task-discrete : Discrete Task
Task-discrete = hlevel (ℕ_discrete, String-discrete)

pub Node-discrete : Discrete Node
Node-discrete = hlevel (ℕ_discrete, String-discrete)

module _ {A : Type 0} (discrete : Discrete A) (make : String → A) where
  unfoldable pub is_made : Assoc A → Bool
  is_made [] = true
  is_made ((k, a) ∷ m) = elim (discrete a (make k)) [
    | yes _ ↦ not (has_slash k) && is_made m
    | no _ ↦ false
  ]

  abbrev print : Assoc A → String
  print [] = "}"
  print ((k, a) ∷ m) = k ++ String.◌∷◌ "/" (print m)

  abbrev read_keys : List String → Assoc A
  read_keys [] = []
  read_keys (k ∷ []) = []
  read_keys (k ∷ j ∷ js) = (k, make k) ∷ read_keys (j ∷ js)

  made_cons :
      (k : String) (a : A) (m : Assoc A)
      → is_made ((k, a) ∷ m) ≡ true
      → (a ≡ make k) × (has_slash k ≡ false) × (is_made m ≡ true)
  unfolding is_made
  made_cons k a m h =
      elim (discrete a (make k))
          as (λ d.
            elim d [ yes _ ↦ not (has_slash k) && is_made m | no _ ↦ false ] ≡ true
            → (a ≡ make k) × (has_slash k ≡ false) × (is_made m ≡ true)) [
              | yes e ↦ λ h. (e, ground (arith, h), ground (arith, h))
              | no _ ↦ λ h. absurd (ground (arith, h))
            ]
        h

  pub is_made_cons :
      (k : String) (m : Assoc A)
      → has_slash k ≡ false
      → is_made m ≡ true
      → is_made ((k, make k) ∷ m) ≡ true
  unfolding is_made
  is_made_cons k m plain rest =
      elim (discrete (make k) (make k))
        as (λ d. elim d [ yes _ ↦ not (has_slash k) && is_made m | no _ ↦ false ] ≡ true) [
          | yes _ ↦ ground (arith, plain, rest)
          | no other ↦ absurd (other refl)
        ]

  read_keys-print : (m : Assoc A) → is_made m ≡ true → read_keys (split_slash (print m)) ≡ m
  unfolding split_slash
  read_keys-print [] h = refl
  read_keys-print ((k, a) ∷ []) h =
      let (e, plain, rest) = made_cons k a [] h in
      rw (split_slash-append k "}" plain) (ap (λ b. (k, b) ∷ []) (sym e))
  read_keys-print ((k, a) ∷ (j, b) ∷ m) h =
      let (e, plain, rest) = made_cons k a ((j, b) ∷ m) h in
      let (_, plain', _) = made_cons j b m rest in
      let tail = split_slash-append j (print m) plain' in
      let later = read_keys-print ((j, b) ∷ m) rest in
      ap read_keys (split_slash-append k (print ((j, b) ∷ m)) plain)
      ∙ rw tail (ap (λ x. (k, x) ∷ read_keys (j ∷ split_slash (print m))) (sym e))
      ∙ ap (λ r. (k, a) ∷ r) (sym (ap read_keys tail) ∙ later)

  -- No text of a map is empty.
  cons-filled : (c : Char) (s : String) → (String.◌∷◌ c s == "") ≡ false
  cons-filled c s = elim (Bool-cases (String.◌∷◌ c s == "")) [
    | inr filled ↦ filled
    | inl empty ↦ absurd (cons≢nil ((eq_iff (String.◌∷◌ c s) "").0 empty))
  ]

  print-filled : (m : Assoc A) → (print m == "") ≡ false
  print-filled [] = refl
  print-filled ((String.[], a) ∷ m) =
      rw (nil-append (String.◌∷◌ "/" (print m))) (cons-filled "/" (print m))
  print-filled ((String.◌∷◌ c k, a) ∷ m) =
      rw (cons-append c k (String.◌∷◌ "/" (print m)))
        (cons-filled c (k ++ String.◌∷◌ "/" (print m)))

  abbrev pub printed : Assoc A → Result String
  printed m = if is_made m then ok (print m) else err (backend_failed "json")

  abbrev pub read_back : String → Result (Assoc A)
  read_back text = ok (read_keys (split_slash text))

  pub printed-filled : (m : Assoc A) (text : String) → printed m ≡ ok text → (text == "") ≡ false
  printed-filled m text h = elim (Bool-cases (is_made m)) [
    | inr other ↦ absurd (ground (arith, h, other))
    | inl made ↦
        let same : print m ≡ text = ground (arith, h, made) in rw (sym same) (print-filled m)
  ]

  pub read_back-printed :
      (m : Assoc A) (text : String) → printed m ≡ ok text → read_back text ≡ ok m
  read_back-printed m text h = elim (Bool-cases (is_made m)) [
    | inr other ↦ absurd (ground (arith, h, other))
    | inl made ↦
        let same : print m ≡ text = ground (arith, h, made) in
        rw (sym same) (ap ok (read_keys-print m made))
  ]
