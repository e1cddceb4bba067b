-- ===== src/Task/Id.antt =====
-- internal/task/id.go: the identifiers of tasks that the caller did not name. The process tag comes
-- from crypto/rand and is a parameter; the counter is the package's `idCounter`, a uint64.
use Prim.Native.String.{◌++◌}
use text.Mathlib.TextLemmas.{append_cancel_left, tail-eq_of_cons-eq}
use job_raft.Base.{
  ℕ, ◌+◌, ◌%◌, ◌^◌, ◌≡◌, String, ℤ, ltb, if◌then◌else◌, zeros, zeros_inj, decimal, decimal_ℤ,
  decimal_ℤ_inj,
}

-- How many zeros `%06d` puts in front.
unfoldable padding : ℕ → ℕ
padding n =
    if ltb n 10
    then 5
    else if ltb n 100
    then 4
    else if ltb n 1000
    then 3
    else if ltb n 10000
    then 2
    else if ltb n 100000
    then 1
    else 0

-- `%06d`
unfoldable pad6 : ℕ → String
unfolding padding zeros
pad6 n = zeros (padding n) (decimal n "")

unfoldable pub id_from : String → ℤ → ℕ → String
unfolding pad6
id_from tag nanos sequence =
    "task-" ++ decimal_ℤ nanos (String.◌∷◌ "-" (tag ++ String.◌∷◌ "-" (pad6 (sequence % 1000000))))

-- `NewID` with the clock's reading and the counter before the call; the counter after it.
abbrev pub new_id : String → ℤ → ℕ → String × ℕ
new_id tag nanos counter =
    let sequence = (counter + 1) % 2 ^ 64 in (id_from tag nanos sequence, sequence)

pad6_inj : (a b : ℕ) → pad6 a ≡ pad6 b → a ≡ b
unfolding pad6
pad6_inj a b e = zeros_inj (padding a) (padding b) a b e

-- Two identifiers with one process tag are equal only if they carry the same nanosecond and the
-- same counter value, read modulo a million.
pub id_from_inj :
    (tag : String) (m n : ℤ) (i j : ℕ)
    → id_from tag m i ≡ id_from tag n j
    → (m ≡ n) × (i % 1000000 ≡ j % 1000000)
unfolding id_from
id_from_inj tag m n i j e =
    let (p, q) = decimal_ℤ_inj m n _ _ (append_cancel_left "task-" _ _ e) in
    (p, pad6_inj _ _ (tail-eq_of_cons-eq (append_cancel_left tag _ _ q)))
