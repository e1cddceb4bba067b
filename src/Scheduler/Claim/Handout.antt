-- ===== src/Scheduler/Claim/Handout.antt =====
-- internal/scheduler/scheduler.go: what a claim hands out.
use job_raft.Scheduler.Claim.BestDue.{best_due-Claimable, best_due-In, Claimable}
use job_raft.Scheduler.Workers.{worker_healthy}
use job_raft.Task.{running, success, is_terminal, Task}
use job_raft.Scheduler.Metrics.{observe_queue_latency}
use job_raft.Scheduler.Claim.{
  none_skipped, mark, next, best_due, claim, claim_loop, Attempt, commit_claim, done, try_candidate,
  settle,
}
use job_raft.Store.{Result-cases, ok, Result, Store}
use job_raft.Base.{
  All-map, All, In, ℕ, zero, suc, ◌≡◌, ap, ◌∙◌, inl, inr, String, Bool, true, false, Option, none,
  some, List, [], ◌∷◌, arith, Option-cases, length,
}
use job_raft.Scheduler.{gate_closed, reserve, Scheduler, dependencies_ready}
use job_raft.Store.Contract.{IsLawful}
use job_raft.Scheduler.Moves.{Runs-frozen}
use job_raft.Scheduler.Moves.Loops.{commit_claim-Runs}
use job_raft.Scheduler.Claim.Exclusive.{commit_claim-ok}

settle-done :
    {S : Type 0} (now : ℕ) (id : String) (r : Result Task × Scheduler S) (t : Task)
    (s : Scheduler S)
    → settle now id r ≡ done (ok t) s
    → (r.0 ≡ ok t) × (s.store ≡ r.1.store)
unfolding settle observe_queue_latency
settle-done now id r t s h = ground arith

module _ {S : Type 0} (api : Store S) where
  -- The store has the task, and it succeeded.
  abbrev pub Succeeded : S → String → Type 0
  Succeeded st id = (t : Task) × (api.get id st ≡ ok t) × (t.status ≡ success)

  pub dependencies_ready-Succeeded :
      (ids : List String) (st : S)
      → (dependencies_ready api ids st).0 ≡ true
      → All (Succeeded st) ids
  unfolding dependencies_ready
  dependencies_ready-Succeeded [] st h = tt
  dependencies_ready-Succeeded (id ∷ ids) st h = elim (Result-cases (api.get id st)) [
    | inl (e, p) ↦ absurd (ground arith)
    | inr (t, p) ↦
        let rest : (dependencies_ready api ids st).0 ≡ true = ground arith in
        ((t, p, ground arith), dependencies_ready-Succeeded ids st rest)
  ]

  -- What a worker gets: one of the listed records, which was due at `now`. The store has it running
  -- under the worker's name, and each dependency of the listed record has succeeded.
  abbrev pub HandedOut : ℕ → List Task → String → Task → Scheduler S → Type 0
  HandedOut now items worker t s =
      (u : Task) × In u items
      × Claimable now u
      × (api.get u.id s.store ≡ ok t)
      × (t.status ≡ running)
      × (t.worker_id ≡ worker)
      × All (Succeeded s.store) u.depends_on

module _ {S : Type 0} (api : Store S) (law : IsLawful api) where
  Succeeded-final : (t : Task) → t.status ≡ success → is_terminal t ≡ true
  unfolding is_terminal
  Succeeded-final t h = ground arith

  try_candidate-HandedOut :
      (listed now now' : ℕ) (items : List Task) (worker : String) (u t : Task) (s s' : Scheduler S)
      → In u items
      → Claimable listed u
      → try_candidate api now now' worker u s ≡ done (ok t) s'
      → HandedOut api listed items worker t s'
  unfolding try_candidate
  try_candidate-HandedOut listed now now' items worker u t s s' among fits h =
      let r = commit_claim api now worker u.id (reserve u.id s) in
      let ready : (dependencies_ready api u.depends_on s.store).0 ≡ true = ground arith in
      let settled : settle now' u.id r ≡ done (ok t) s' = ground arith in
      let (won, stored') = settle-done now' u.id r t s' settled in
      let (held, run, mine, _, _) =
        commit_claim-ok api law now worker u.id (reserve u.id s) r.1 t (ap (λ x. (x, r.1)) won) in
      let kept =
        All-map (Succeeded api s.store) (Succeeded api r.1.store)
          (λ d (dep, p, q). (
            dep,
            Runs-frozen d dep p (Succeeded-final dep q)
                (commit_claim-Runs api law now worker u.id (reserve u.id s)),
            q,
          ))
          u.depends_on (dependencies_ready-Succeeded api u.depends_on s.store ready) in
      (u, among, fits, ap (api.get u.id) stored' ∙ held, run, mine, rw stored' kept)

  after_attempt :
      {Q : Type 0} (a : Attempt S) (rest : Scheduler S → Option (Result Task × Scheduler S))
      (r : Result Task × Scheduler S)
      → (a ≡ done r.0 r.1 → Q)
      → ((s : Scheduler S) → rest s ≡ some r → Q)
      → elim a as (λ k. Option (Result Task × Scheduler S)) [
        | done r s ↦ some (r, s)
        | next s ↦ rest s
      ]
        ≡ some r
      → Q
  after_attempt (done q s) rest r won later h = won (ground arith)
  after_attempt (next s) rest r won later h = later s h

  claim_loop-HandedOut :
      (fuel : ℕ) (clock : ℕ → ℕ) (now : ℕ) (worker : String) (items : List Task) (skip : List Bool)
      (s s' : Scheduler S) (t : Task)
      → claim_loop api fuel clock now worker items skip s ≡ some (ok t, s')
      → HandedOut api now items worker t s'
  unfolding claim_loop
  claim_loop-HandedOut zero clock now worker items skip s s' t h = absurd (ground arith)
  claim_loop-HandedOut (suc fuel) clock now worker items skip s s' t h =
      elim (Option-cases (best_due items now skip)) [
        | inl over ↦ absurd (ground arith)
        | inr ((index, u), found) ↦
            after_attempt (try_candidate api (clock 0) (clock 1) worker u s) _ (ok t, s')
              (try_candidate-HandedOut now (clock 0) (clock 1) items worker u t s s'
                (best_due-In now items skip found) (best_due-Claimable now items skip found))
              (λ s''.
                claim_loop-HandedOut fuel (λ n. clock (suc n)) now worker items (mark index skip)
                  s'' s' t)
              (rw (found, claim_loop) at h)
      ]

  -- A claim that gives a worker a task was made where the leader gate was open and the worker
  -- was healthy. The task is one of the records that the store listed, pending or retrying and
  -- due at that time. The store has it running under the worker's name, and each dependency that
  -- the listed record names has succeeded. The store keeps the contract of Store/Contract and has
  -- no atomic claim of its own.
  pub claim_hands_out :
      (now_health now : ℕ) (clock : ℕ → ℕ) (worker : String) (s s' : Scheduler S) (t : Task)
      → api.atomic_claimer ≡ none
      → claim api now_health now clock worker s ≡ some (ok t, s')
      → (gate_closed s.leader_gate ≡ false)
        × (worker_healthy api now_health worker s ≡ true)
        × (items : List Task) × (api.list s.store ≡ ok items)
        × HandedOut api now items worker t s'
  unfolding claim
  claim_hands_out now_health now clock worker s s' t plain h =
      elim (Result-cases (api.list s.store)) [
        | inl (e, p) ↦ absurd (ground arith)
        | inr (items, p) ↦
            let looped : claim_loop api (suc (length items)) clock now worker items
                  (none_skipped items) s
                ≡ some (ok t, s') =
              ground arith in
            (
              ground arith,
              ground arith,
              items,
              p,
              claim_loop-HandedOut (suc (length items)) clock now worker items (none_skipped items)
                  s s' t looped,
            )
      ]
