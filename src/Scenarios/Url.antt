-- ===== src/Scenarios/Url.antt =====
-- A reading of URLs behind a base: the path stands before the first question mark, and the query of one
-- key behind it.
use Prim.Native.Char.{code}
use Prim.Native.String.{◌++◌}
use text.Mathlib.TextLemmas.{append_assoc, nil-append, cons-append}
use job_raft.WorkerClient.{Wire}
use job_raft.WorkerClient.Urls.{Urls, ReadsUrls, is_plain}
use job_raft.Base.{
  trim_prefix, trim_prefix-append, ◌≡◌, refl, sym, ap, ◌∙◌, inl, inr, String, Bool, true, false,
  Option, none, some, arith, if◌then◌else◌, Bool-cases, eq_ℕ,
}

unfoldable pub has_mark : String → Bool
has_mark String.[] = false
has_mark (String.◌∷◌ c s) = let rest = has_mark s in if eq_ℕ (code c) b'?' then true else rest

path_part : String → String
path_part String.[] = ""
path_part (String.◌∷◌ c s) =
    let rest = path_part s in if eq_ℕ (code c) b'?' then "" else String.◌∷◌ c rest

query_part : String → Option String
query_part String.[] = none
query_part (String.◌∷◌ c s) = let rest = query_part s in if eq_ℕ (code c) b'?' then some s else rest

-- An escaping that drops what it cannot write.
unfoldable pub bare : String → String
bare id = if has_mark id then "" else id

bare-has_mark : (id : String) → has_mark (bare id) ≡ false
unfolding bare has_mark
bare-has_mark id = elim (Bool-cases (has_mark id)) [
  | inl mark ↦ rw mark refl
  | inr clear ↦ rw clear clear
]

has_mark-append :
    (a b : String) → has_mark a ≡ false → has_mark b ≡ false → has_mark (a ++ b) ≡ false
unfolding has_mark
has_mark-append String.[] b h k = rw (nil-append b) k
has_mark-append (String.◌∷◌ c a) b h k =
    rw (cons-append c a b) (elim (Bool-cases (eq_ℕ (code c) b'?')) [
      | inl mark ↦ absurd (ground (arith, h, mark))
      | inr other ↦ rw other (has_mark-append a b (rw other at h) k)
    ])

is_plain-has_mark : (s : String) → is_plain s ≡ true → has_mark s ≡ false
unfolding is_plain has_mark
is_plain-has_mark String.[] h = refl
is_plain-has_mark (String.◌∷◌ c s) h = elim (Bool-cases (is_plain s)) [
  | inr odd ↦ absurd (ground (arith, h, odd))
  | inl plain ↦ let rest = is_plain-has_mark s plain in ground (arith, h, rest)
]

part_cases :
    (p : String)
    → has_mark p ≡ false
    → (path_part p ≡ p)
      × (query_part p ≡ none)
      × ((q : String) → (path_part (p ++ ("?" ++ q)) ≡ p) × (query_part (p ++ ("?" ++ q)) ≡ some q))
unfolding path_part query_part has_mark
part_cases String.[] h = (
  refl,
  refl,
  λ q.
      let mark : ("" ++ ("?" ++ q)) ≡ String.◌∷◌ "?" q =
        nil-append ("?" ++ q) ∙ cons-append "?" "" q ∙ ap (String.◌∷◌ "?") (nil-append q) in
      (ap path_part mark, ap query_part mark),
)
part_cases (String.◌∷◌ c p) h = elim (Bool-cases (eq_ℕ (code c) b'?')) [
  | inl mark ↦ absurd (ground (arith, h, mark))
  | inr other ↦
      let (path, query, more) = part_cases p (rw other at h) in
      (
        rw other (ap (String.◌∷◌ c) path),
        rw other query,
        λ q.
            let step = cons-append c p ("?" ++ q) in
            let (path', query') = more q in
            (
              ap path_part step ∙ rw other (ap (String.◌∷◌ c) path'),
              ap query_part step ∙ rw other query',
            ),
      )
]

abbrev value_in : Option String → String → String
value_in none k = ""
value_in (some q) k = trim_prefix q (k ++ "=")

-- The URLs behind a base.
pub based_urls : String → Urls
based_urls base = record {
  path = λ u. path_part (trim_prefix u base);
  escaped_path = λ u. path_part (trim_prefix u base);
  value = λ u k. value_in (query_part (trim_prefix u base)) k;
}

module _ {W : Type 0} (wire : Wire W) (base : String)
    (clear : (id : String) → has_mark (wire.escape_path id) ≡ false) where
  path-has_mark :
      (pre id suf : String)
      → is_plain pre ≡ true
      → is_plain suf ≡ true
      → has_mark ((pre ++ wire.escape_path id) ++ suf) ≡ false
  path-has_mark pre id suf h k =
      has_mark-append (pre ++ wire.escape_path id) suf
        (has_mark-append pre (wire.escape_path id) (is_plain-has_mark pre h) (clear id))
        (is_plain-has_mark suf k)

  based_urls-ReadsUrls : ReadsUrls wire (based_urls base) base
  unfolding based_urls
  based_urls-ReadsUrls = record {
    reads_path = λ pre id suf slash h k.
        let p = (pre ++ wire.escape_path id) ++ suf in
        let (path, query, more) = part_cases p (path-has_mark pre id suf h k) in
        let back = trim_prefix-append base p in
        (
          ap path_part back ∙ path,
          λ key. ap (λ u. value_in (query_part u) key) back ∙ ap (λ q. value_in q key) query,
        );
    reads_query = λ pre id suf key v slash h k word word'.
        let p = (pre ++ wire.escape_path id) ++ suf in
        let q = key ++ ("=" ++ v) in
        let (path, query, more) = part_cases p (path-has_mark pre id suf h k) in
        let (path', query') = more q in
        let back = trim_prefix-append base (p ++ ("?" ++ q)) in
        (
          ap path_part back ∙ path',
          ap (λ u. value_in (query_part u) key) back
              ∙ ap (λ r. value_in r key) query'
              ∙ ap (λ r. trim_prefix r (key ++ "=")) (sym (append_assoc key "=" v))
              ∙ trim_prefix-append (key ++ "=") v,
        );
  }

-- With the escaping above the reading is as documented.
pub bare_urls-ReadsUrls :
    {W : Type 0} (wire : Wire W) (base : String)
    → ((id : String) → wire.escape_path id ≡ bare id)
    → ReadsUrls wire (based_urls base) base
bare_urls-ReadsUrls wire base escapes =
    based_urls-ReadsUrls wire base (λ id. ap has_mark (escapes id) ∙ bare-has_mark id)
