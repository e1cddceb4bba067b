-- ===== src/Store/Due/Order.antt =====
-- internal/store/store.go: the list that `Due` returns is the due tasks of the given ones, in order.
use job_raft.Task.{pending, retrying, Task}
use job_raft.Base.{
  count_if, All-map, All, ℕ, ◌≡◌, refl, ◌∙◌, inl, inr, Bool, true, false, ◌&&◌, List, [], ◌∷◌,
  arith, Bool-cases, eq_ℤ, ltb_ℤ, leb, ◌≤◌, ◌⊎◌,
}
use job_raft.Store.{is_due, filter_due, due, sort_stable, due_less, insert_stable}
use job_raft.Store.Due.{insert_stable-All}

due_less_asym : (t u : Task) → due_less u t ≡ true → due_less t u ≡ false
unfolding due_less
due_less_asym t u h = ground arith

due_less_trans : (t u v : Task) → due_less u t ≡ false → due_less v u ≡ false → due_less v t ≡ false
unfolding due_less
due_less_trans t u v h k = ground arith

-- No task comes before an earlier one of the list.
abbrev pub InOrder : List Task → Type 0
InOrder [] = Unit
InOrder (t ∷ ts) = All (λ u. due_less u t ≡ false) ts × InOrder ts

insert_stable-InOrder : (t : Task) (us : List Task) → InOrder us → InOrder (insert_stable t us)
unfolding insert_stable
insert_stable-InOrder t [] h = (tt, tt)
insert_stable-InOrder t (u ∷ us) h = elim (Bool-cases (due_less u t)) [
  | inl after ↦
      rw after
        (insert_stable-All _ t us (due_less_asym t u after) h.0, insert_stable-InOrder t us h.1)
  | inr before ↦ rw before ((before, All-map _ _ (λ v. due_less_trans t u v before) us h.0), h)
]

sort_stable-InOrder : (ts : List Task) → InOrder (sort_stable ts)
unfolding sort_stable
sort_stable-InOrder [] = tt
sort_stable-InOrder (t ∷ ts) = insert_stable-InOrder t (sort_stable ts) (sort_stable-InOrder ts)

-- A task of higher priority, or of the same and of no later time.
abbrev pub Precedes : Task → Task → Type 0
Precedes t u =
    (ltb_ℤ u.priority t.priority ≡ true)
    ⊎ ((eq_ℤ t.priority u.priority ≡ true) × (t.run_at ≤ u.run_at))

-- Each task precedes all that come after it.
abbrev pub ByPriority : List Task → Type 0
ByPriority [] = Unit
ByPriority (t ∷ ts) = All (Precedes t) ts × ByPriority ts

due_less-Precedes : (t u : Task) → due_less u t ≡ false → Precedes t u
unfolding due_less
due_less-Precedes t u h = elim (Bool-cases (eq_ℤ t.priority u.priority)) [
  | inl same ↦ inr (same, ground (arith, h))
  | inr other ↦ inl (ground (arith, h, other))
]

InOrder-ByPriority : (ts : List Task) → InOrder ts → ByPriority ts
InOrder-ByPriority [] h = tt
InOrder-ByPriority (t ∷ ts) h =
    (All-map _ _ (due_less-Precedes t) ts h.0, InOrder-ByPriority ts h.1)

-- The task waits to be run, and its time has come.
abbrev pub is_waiting : ℕ → Task → Bool
is_waiting now t = elim t.status [
  | pending ↦ leb t.run_at now
  | retrying ↦ leb t.run_at now
  | _ ↦ false
]

is_due-is_waiting : (now : ℕ) (t : Task) → is_due now t ≡ is_waiting now t
unfolding is_due
is_due-is_waiting now t = ground arith

module _ (p : Task → Bool) where
  count_if-insert_stable :
      (t : Task) (us : List Task) → count_if p (insert_stable t us) ≡ count_if p (t ∷ us)
  unfolding insert_stable
  count_if-insert_stable t [] = refl
  count_if-insert_stable t (u ∷ us) = ground (arith, count_if-insert_stable t us)

  count_if-sort_stable : (ts : List Task) → count_if p (sort_stable ts) ≡ count_if p ts
  unfolding sort_stable
  count_if-sort_stable [] = refl
  count_if-sort_stable (t ∷ ts) =
      omega (arith, count_if-insert_stable t (sort_stable ts), count_if-sort_stable ts)

  count_if-filter_due :
      (now : ℕ) (ts : List Task)
      → count_if p (filter_due now ts) ≡ count_if (λ t. is_waiting now t && p t) ts
  unfolding filter_due
  count_if-filter_due now [] = refl
  count_if-filter_due now (t ∷ ts) =
      ground (arith, is_due-is_waiting now t, count_if-filter_due now ts)

-- The tasks of the list that `Due` returns are those of the given one that are pending or retrying
-- and whose time has come: as many of either pass any test. Of two of them the one that comes first
-- has the higher priority, or the same priority and no later time.
pub due_lists :
    (now : ℕ) (ts : List Task) (p : Task → Bool)
    → ByPriority (due ts now)
      × (count_if p (due ts now) ≡ count_if (λ t. is_waiting now t && p t) ts)
unfolding due
due_lists now ts p = (
  InOrder-ByPriority (due ts now) (sort_stable-InOrder (filter_due now ts)),
  count_if-sort_stable p (filter_due now ts) ∙ count_if-filter_due p now ts,
)
