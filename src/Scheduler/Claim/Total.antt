-- ===== src/Scheduler/Claim/Total.antt =====
-- internal/scheduler/scheduler.go: `bestDue` finds the first candidate in the order of the claim, and
-- the loop of `Claim` comes to an end.
use job_raft.Scheduler.Workers.{worker_healthy}
use job_raft.Scheduler.Claim.BestDue.{
  best_due-Claimable, best_due-candidate, scan_due-candidate, Claimable, candidate,
}
use job_raft.Scheduler.Claim.{
  claimed_atomically, try_candidate, next, done, due_before, claim, claim_loop, Attempt,
  none_skipped, mark, best_due,
}
use job_raft.Store.{Result-cases, err, Result, Store}
use job_raft.Task.{worker_unhealthy, not_leader, no_task, Task}
use job_raft.Base.{
  ℕ, zero, suc, ◌≡◌, refl, ◌<◌, inl, inr, String, Bool, true, false, not, Option, none, some, List,
  [], ◌∷◌, arith, Bool-cases, Option-cases, length,
}
use job_raft.Base.{count_if}
use job_raft.Scheduler.{gate_closed, Scheduler}

-- If any candidate that is not skipped can be claimed, `bestDue` finds one, itself claimable and not
-- skipped, which no such candidate comes before: in priority, then in scheduled time, then in id.
pub best_due_first :
    (now : ℕ) (ts : List Task) (skip : List Bool) (j : ℕ) (u : Task)
    → candidate j ts skip ≡ some u
    → Claimable now u
    → (i : ℕ) × (t : Task) × (best_due ts now skip ≡ some (i, t))
      × (candidate i ts skip ≡ some t)
      × Claimable now t
      × (due_before u t ≡ false)
unfolding best_due
best_due_first now ts skip j u h c = elim (Option-cases (best_due ts now skip)) [
  | inl nothing ↦ absurd (rw nothing at (scan_due-candidate now 0 j ts skip none u h c))
  | inr ((i, t), found) ↦ (
    i,
    t,
    found,
    best_due-candidate now ts skip found,
    best_due-Claimable now ts skip found,
    rw found at (scan_due-candidate now 0 j ts skip none u h c),
  )
]

-- How many candidates are not skipped yet.
abbrev left : List Bool → ℕ
left = count_if not

mark-left :
    (i : ℕ) (ts : List Task) (skip : List Bool) {t : Task}
    → candidate i ts skip ≡ some t
    → suc (left (mark i skip)) ≡ left skip
unfolding mark candidate
mark-left i [] skip h = cc h
mark-left i (u ∷ ts) [] h = cc h
mark-left zero (u ∷ ts) (true ∷ skip) h = cc h
mark-left zero (u ∷ ts) (false ∷ skip) h = omega arith
mark-left (suc i) (u ∷ ts) (skipped ∷ skip) h = ground (arith, mark-left i ts skip h)

left-none_skipped : (ts : List Task) → left (none_skipped ts) ≡ length ts
left-none_skipped [] = refl
left-none_skipped (t ∷ ts) = omega (arith, left-none_skipped ts)

module _ {S : Type 0} (api : Store S) where
  goes_on :
      (a : Attempt S) (rest : Scheduler S → Option (Result Task × Scheduler S))
      → ((s : Scheduler S) → (r : Result Task × Scheduler S) × (rest s ≡ some r))
      → (r : Result Task × Scheduler S) × (elim a [ done r s ↦ some (r, s) | next s ↦ rest s ]
          ≡ some r)
  goes_on (done r s) rest ih = ((r, s), refl)
  goes_on (next s) rest ih = ih s

  claim_loop_total :
      (fuel : ℕ) (clock : ℕ → ℕ) (now : ℕ) (worker : String) (items : List Task) (skip : List Bool)
      (s : Scheduler S)
      → left skip < fuel
      → (r : Result Task × Scheduler S) × (claim_loop api fuel clock now worker items skip s
          ≡ some r)
  unfolding claim_loop
  claim_loop_total zero clock now worker items skip s h = absurd (omega arith)
  claim_loop_total (suc fuel) clock now worker items skip s h =
      elim (Option-cases (best_due items now skip)) [
        | inl over ↦ ((err no_task, s), rw (over, claim_loop))
        | inr ((index, t), found) ↦
            rw (found, claim_loop)
              (goes_on (try_candidate api (clock 0) (clock 1) worker t s) _ (λ s'.
                claim_loop_total fuel (λ n. clock (suc n)) now worker items (mark index skip) s'
                  (omega
                    (arith, mark-left index items skip (best_due-candidate now items skip found)))))
      ]

  -- `Claim` always comes to an end: the fuel, one round more than there are listed tasks, is
  -- enough.
  pub claim_total :
      (now_health now : ℕ) (clock : ℕ → ℕ) (worker : String) (s : Scheduler S)
      → (r : Result Task × Scheduler S) × (claim api now_health now clock worker s ≡ some r)
  unfolding claim
  claim_total now_health now clock worker s = elim (Bool-cases (gate_closed s.leader_gate)) [
    | inl closed ↦ ((err not_leader, s), ground arith)
    | inr leads ↦ elim (Bool-cases (worker_healthy api now_health worker s)) [
      | inr ill ↦ ((err worker_unhealthy, s), ground arith)
      | inl healthy ↦ elim (Option-cases api.atomic_claimer) [
        | inr (claimer, p) ↦ (
          claimed_atomically (clock 0) (claimer.claim_due now worker s.lease_ttl s.store) s,
          ground arith,
        )
        | inl listing ↦ elim (Result-cases (api.list s.store)) [
          | inl (e, p) ↦ ((err e, s), ground arith)
          | inr (items, p) ↦
              let (r, q) =
                claim_loop_total (suc (length items)) clock now worker items (none_skipped items) s
                  (omega (arith, left-none_skipped items)) in
              (r, ground arith)
        ]
      ]
    ]
  ]
