-- ===== src/Store/Due.antt =====
-- internal/store/store.go: `Due` and its stable sort.
pub mod Order
use job_raft.Base.{ℕ, ◌≡◌, inl, inr, true, List, [], ◌∷◌, Bool-cases}
use job_raft.Base.{All}
use job_raft.Store.{Task, is_due, due_less, insert_stable, sort_stable, filter_due, due}

module _ {κ} (P : Task → Type κ) where
  pub insert_stable-All : (t : Task) (us : List Task) → P t → All P us → All P (insert_stable t us)
  unfolding insert_stable
  insert_stable-All t [] h hs = (h, tt)
  insert_stable-All t (u ∷ us) h hs = elim (Bool-cases (due_less u t)) [
    | inl after ↦ rw after (hs.0, insert_stable-All t us h hs.1)
    | inr before ↦ rw before (h, hs)
  ]

  sort_stable-All : (ts : List Task) → All P ts → All P (sort_stable ts)
  unfolding sort_stable
  sort_stable-All [] hs = tt
  sort_stable-All (t ∷ ts) hs = insert_stable-All t (sort_stable ts) hs.0 (sort_stable-All ts hs.1)

filter_due-All : (now : ℕ) (ts : List Task) → All (λ t. is_due now t ≡ true) (filter_due now ts)
unfolding filter_due
filter_due-All now [] = tt
filter_due-All now (t ∷ ts) = elim (Bool-cases (is_due now t)) [
  | inl yes' ↦ rw yes' (yes', filter_due-All now ts)
  | inr no' ↦ rw no' (filter_due-All now ts)
]

-- Every listed task is due.
pub due-All : (now : ℕ) (ts : List Task) → All (λ t. is_due now t ≡ true) (due ts now)
unfolding due
due-All now ts = sort_stable-All _ _ (filter_due-All now ts)
