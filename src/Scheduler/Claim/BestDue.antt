-- ===== src/Scheduler/Claim/BestDue.antt =====
-- internal/scheduler/scheduler.go: what `bestDue` finds.
use mathlib.Core.Option.{some-injective}
use job_raft.Base.{
  ℕ, zero, suc, ◌+◌, ◌≡◌, refl, ap, sym, In, ◌∙◌, ◌≤◌, ◌⊎◌, inl, inr, Bool, true, false, not, ◌||◌,
  Option, none, some, List, [], ◌∷◌, arith, ltb, if◌then◌else◌, Bool-cases, ℤ, pos, negsuc, eq_ℤ,
  ltb_ℤ, eq_ℕ, str_ltb_trans, str_ltb_irrefl,
}
use job_raft.Task.{Task}
use job_raft.Scheduler.Claim.{due_before, is_claimable, beats, scan_due, best_due}

-- A task that a claim may take: pending or retrying, and its time has come.
abbrev pub Claimable : ℕ → Task → Type 0
Claimable now t = (is_claimable t.status ≡ true) × (t.run_at ≤ now)

abbrev ClaimableBest : ℕ → Option (ℕ × Task) → Type 0
ClaimableBest now none = Unit {0}
ClaimableBest now (some (_, t)) = Claimable now t

scan_due-Claimable :
    (now i : ℕ) (ts : List Task) (skip : List Bool) (best : Option (ℕ × Task))
    → ClaimableBest now best
    → ClaimableBest now (scan_due now i ts skip best)
unfolding scan_due
scan_due-Claimable now i [] skip best h = h
scan_due-Claimable now i (t ∷ ts) [] best h = h
scan_due-Claimable now i (t ∷ ts) (skipped ∷ skip) best h =
    scan_due-Claimable now (suc i) ts skip _
      (elim (Bool-cases (skipped || not (is_claimable t.status) || ltb now t.run_at)) [
        | inl out ↦ rw out h
        | inr fits ↦ elim (Bool-cases (beats t best)) [
          | inl better ↦ rw (fits, better) (ground arith, ground arith)
          | inr worse ↦ rw (fits, worse) h
        ]
      ])

pub best_due-Claimable :
    (now : ℕ) (ts : List Task) (skip : List Bool) {i : ℕ} {t : Task}
    → best_due ts now skip ≡ some (i, t)
    → Claimable now t
unfolding best_due
best_due-Claimable now ts skip h = rw h at (scan_due-Claimable now 0 ts skip none tt)

-- The comparison of two times, and of two priorities, with one that breaks a tie.
abbrev by_time : ℕ → ℕ → Bool → Bool
by_time a b tie = if not (eq_ℕ a b) then ltb a b else tie

by_time_trans :
    (a b c : ℕ) (p q r : Bool)
    → (p ≡ true → q ≡ true → r ≡ true)
    → by_time a b p ≡ true
    → by_time b c q ≡ true
    → by_time a c r ≡ true
by_time_trans a b c p q r rest h k = ground (arith, rest)

abbrev by_priority : ℤ → ℤ → Bool → Bool
by_priority a b tie = if not (eq_ℤ a b) then ltb_ℤ b a else tie

by_priority_trans :
    (a b c : ℤ) (p q r : Bool)
    → (p ≡ true → q ≡ true → r ≡ true)
    → by_priority a b p ≡ true
    → by_priority b c q ≡ true
    → by_priority a c r ≡ true
by_priority_trans (pos a) (pos b) c p q r rest h k = ground (arith, rest)
by_priority_trans (pos a) (negsuc b) c p q r rest h k = ground (arith, rest)
by_priority_trans (negsuc a) (pos b) c p q r rest h k = ground (arith, rest)
by_priority_trans (negsuc a) (negsuc b) c p q r rest h k = ground (arith, rest)

due_before_trans :
    (a b c : Task) → due_before a b ≡ true → due_before b c ≡ true → due_before a c ≡ true
unfolding due_before
due_before_trans a b c h k =
    by_priority_trans a.priority b.priority c.priority _ _ _
      (by_time_trans a.run_at b.run_at c.run_at _ _ _ (str_ltb_trans a.id b.id c.id)) h k

due_before_irrefl : (a : Task) → due_before a a ≡ false
unfolding due_before
due_before_irrefl a = ground (arith, str_ltb_irrefl a.id)

-- Nothing that was scanned comes before the best candidate.
abbrev pub NotBeaten : Task → Option (ℕ × Task) → Type 0
NotBeaten u none = ⊥
NotBeaten u (some (_, t)) = due_before u t ≡ false

keeps-NotBeaten :
    (i : ℕ) (u t : Task) (best : Option (ℕ × Task))
    → beats t best ≡ true
    → NotBeaten u best
    → NotBeaten u (some (i, t))
unfolding beats
keeps-NotBeaten i u t none h k = absurd k
keeps-NotBeaten i u t (some (j, b)) h k = elim (Bool-cases (due_before u t)) [
  | inr done ↦ done
  | inl before ↦ cc (due_before_trans u t b before h)
]

scan_due-NotBeaten :
    (now i : ℕ) (ts : List Task) (skip : List Bool) (best : Option (ℕ × Task)) (u : Task)
    → NotBeaten u best
    → NotBeaten u (scan_due now i ts skip best)
unfolding scan_due
scan_due-NotBeaten now i [] skip best u h = h
scan_due-NotBeaten now i (t ∷ ts) [] best u h = h
scan_due-NotBeaten now i (t ∷ ts) (skipped ∷ skip) best u h =
    scan_due-NotBeaten now (suc i) ts skip _ u
      (elim (Bool-cases (skipped || not (is_claimable t.status) || ltb now t.run_at)) [
        | inl out ↦ rw out h
        | inr fits ↦ elim (Bool-cases (beats t best)) [
          | inl better ↦ rw (fits, better) (keeps-NotBeaten i u t best better h)
          | inr worse ↦ rw (fits, worse) h
        ]
      ])

-- The task at an index that is not skipped.
unfoldable pub candidate : ℕ → List Task → List Bool → Option Task
candidate i [] skip = none
candidate i (t ∷ ts) [] = none
candidate zero (t ∷ ts) (skipped ∷ skip) = if skipped then none else some t
candidate (suc i) (t ∷ ts) (skipped ∷ skip) = candidate i ts skip

fits :
    (u : Task) {now : ℕ} → Claimable now u → not (is_claimable u.status) || ltb now u.run_at ≡ false
fits u c = ground arith

unbeaten : (u : Task) (best : Option (ℕ × Task)) → beats u best ≡ false → NotBeaten u best
unfolding beats
unbeaten u none h = cc h
unbeaten u (some (j, b)) h = h

pub scan_due-candidate :
    (now i j : ℕ) (ts : List Task) (skip : List Bool) (best : Option (ℕ × Task)) (u : Task)
    → candidate j ts skip ≡ some u
    → Claimable now u
    → NotBeaten u (scan_due now i ts skip best)
unfolding scan_due candidate
scan_due-candidate now i j [] skip best u h c = cc
scan_due-candidate now i j (t ∷ ts) [] best u h c = cc
scan_due-candidate now i zero (t ∷ ts) (skipped ∷ skip) best u h c =
    scan_due-NotBeaten now (suc i) ts skip _ u (elim (Bool-cases skipped) [
      | inl out ↦ cc (rw (out, candidate) at h)
      | inr free ↦
          let same : t ≡ u = some-injective _ _ (rw (free, candidate) at h) in
          rw (same, free)
            (elim (Bool-cases (beats u best)) [
              | inl better ↦ rw (fits u c, better) (due_before_irrefl u)
              | inr worse ↦ rw (fits u c, worse) (unbeaten u best worse)
            ])
    ])
scan_due-candidate now i (suc j) (t ∷ ts) (skipped ∷ skip) best u h c =
    scan_due-candidate now (suc i) j ts skip _ u h c

-- Where the scan's result comes from: from an index that is not skipped, or from before.
scan_due_origin :
    (now i : ℕ) (ts : List Task) (skip : List Bool) (best : Option (ℕ × Task))
    → (scan_due now i ts skip best ≡ best)
      ⊎ ((d : ℕ) × (t : Task) × (scan_due now i ts skip best ≡ some (i + d, t))
          × (candidate d ts skip ≡ some t))
unfolding scan_due candidate
scan_due_origin now i [] skip best = inl refl
scan_due_origin now i (t ∷ ts) [] best = inl refl
scan_due_origin now i (t ∷ ts) (skipped ∷ skip) best =
    elim (Bool-cases (skipped || not (is_claimable t.status) || ltb now t.run_at)) [
      | inl out ↦ rw out (later best (scan_due_origin now (suc i) ts skip best) (inl refl))
      | inr ok ↦ elim (Bool-cases (beats t best)) [
        | inr worse ↦
            rw (ok, worse) (later best (scan_due_origin now (suc i) ts skip best) (inl refl))
        | inl better ↦
            rw (ok, better)
              (later (some (i, t)) (scan_due_origin now (suc i) ts skip (some (i, t)))
                (inr (0, t, ap (λ (k : ℕ). some (k, t)) (omega arith), ground arith)))
      ]
    ]
  where
    Origin : Option (ℕ × Task) → Type 0
    Origin r =
        (r ≡ best)
        ⊎ ((d : ℕ) × (u : Task) × (r ≡ some (i + d, u))
            × (candidate d (t ∷ ts) (skipped ∷ skip) ≡ some u))

    later :
        (b : Option (ℕ × Task))
        → (scan_due now (suc i) ts skip b ≡ b)
          ⊎ ((d : ℕ) × (u : Task) × (scan_due now (suc i) ts skip b ≡ some (suc i + d, u))
              × (candidate d ts skip ≡ some u))
        → Origin b
        → Origin (scan_due now (suc i) ts skip b)
    later b (inl kept) o = rw kept o
    later b (inr (d, u, e, c)) o = inr (suc d, u, e ∙ ap (λ (k : ℕ). some (k, u)) (omega arith), c)

pub best_due-candidate :
    (now : ℕ) (ts : List Task) (skip : List Bool) {i : ℕ} {t : Task}
    → best_due ts now skip ≡ some (i, t)
    → candidate i ts skip ≡ some t
unfolding best_due
best_due-candidate now ts skip h = elim (scan_due_origin now 0 ts skip none) [
  | inl nothing ↦ cc
  | inr (d, u, e, c) ↦ ground arith
]

candidate-In :
    (i : ℕ) (ts : List Task) (skip : List Bool) {found : Task}
    → candidate i ts skip ≡ some found
    → In found ts
unfolding candidate
candidate-In i [] skip h = absurd (ground arith)
candidate-In i (t ∷ ts) [] h = absurd (ground arith)
candidate-In zero (t ∷ ts) (true ∷ skip) h = absurd (ground arith)
candidate-In zero (t ∷ ts) (false ∷ skip) h = inl (sym (some-injective _ _ h))
candidate-In (suc i) (t ∷ ts) (skipped ∷ skip) h = inr (candidate-In i ts skip h)

-- The best candidate is one of the tasks that were scanned.
pub best_due-In :
    (now : ℕ) (ts : List Task) (skip : List Bool) {i : ℕ} {t : Task}
    → best_due ts now skip ≡ some (i, t)
    → In t ts
best_due-In now ts skip {i} h = candidate-In i ts skip (best_due-candidate now ts skip h)
