-- ===== src/Scheduler/Submit/Acyclic.antt =====
-- internal/scheduler/scheduler.go: the search of `dependsOn` misses no path, so a submission that goes
-- through closes no cycle of dependencies.
use job_raft.Scheduler.Submit.Accepted.{submit_cases}
use job_raft.Scheduler.{Scheduler}
use job_raft.Store.Contract.{IsLawful}
use job_raft.Task.{Task}
use mathlib.Core.Path.{subst}
use job_raft.Base.{
  none, length, All, ℕ, suc, ◌≡◌, refl, ap, ◌<◌, inl, inr, String, true, List, [], ◌∷◌, arith,
  eq_iff, eq_refl, ◌==◌, Bool-cases,
}
use job_raft.Scheduler.Submit.{with_defaults, submit, contains}
use job_raft.Store.{ok, Store}
use job_raft.Scheduler.Submit.Explored.{Explored, depends_on-Explored, unseen-nil}

-- The first task is the second one, or is stored and depends on a task that leads to it.
pub data Leads {S : Type 0} (api : Store S) (st : S) : String → String → Type 0 where
  arrived : {id : String} → Leads api st id id
  through :
      {id target : String} (u : Task) (dep : String)
      → api.get id st ≡ ok u
      → contains u.depends_on dep ≡ true
      → Leads api st dep target
      → Leads api st id target

All-contains :
    (P : String → Type 0) (xs : List String) (x : String) → All P xs → contains xs x ≡ true → P x
All-contains P [] x all h = absurd (ground (arith, h))
All-contains P (y ∷ ys) x (first, rest) h = elim (Bool-cases (y == x)) [
  | inl hit ↦ subst P ((eq_iff y x).0 hit) first
  | inr other ↦ All-contains P ys x rest (ground (arith, h, other))
]

module _ {S : Type 0} (api : Store S) where
  -- Nothing that a search has visited without success leads to its target.
  visited-Leads :
      (st : S) (target id : String) (after : List String)
      → Explored api st target [] after
      → contains after id ≡ true
      → ¬ Leads api st id target
  visited-Leads st target id after explored there arrived =
      absurd (ground (arith, explored.missed id there refl, eq_refl id))
  visited-Leads st target id after explored there (through u dep found listed rest) =
      let all = explored.closed id u there refl found in
      visited-Leads st target dep after explored (All-contains _ u.depends_on dep all listed) rest

  -- A submission that goes through closes no cycle: none of the task's dependencies leads back to
  -- it. The store keeps the contract of Store/Contract, every stored task's identifier is among
  -- `ids`, and the depth of the search is more than their number by two.
  pub submit_acyclic :
      (law : IsLawful api) (ids : List String) (depth : ℕ) (new_id : String) (m n : ℕ) (t : Task)
      (s : Scheduler S) (dep : String)
      → ((j : String) (u : Task) → api.get j s.store ≡ ok u → contains ids j ≡ true)
      → length ids < depth
      → (submit api (suc depth) new_id m n t s).0 ≡ none
      → contains t.depends_on dep ≡ true
      → ¬ Leads api s.store dep (with_defaults new_id m n t).id
  submit_acyclic law ids depth new_id m n t s dep known room went listed =
      elim (submit_cases api law (suc depth) new_id m n t s) [
        | inl (e, refused, _) ↦ absurd (ground (arith, went, ap (λ r. r.0) refused))
        | inr (e, fresh, queued, valid, free, all, ended, replaced, counted) ↦
            let (other, u, found, missed) = All-contains _ t.depends_on dep all listed in
            let target = (with_defaults new_id m n t).id in
            let (explored, there) =
              depends_on-Explored api s.store target ids known depth dep []
                (omega (arith, room, unseen-nil ids)) missed in
            visited-Leads s.store target dep _ explored there
      ]
