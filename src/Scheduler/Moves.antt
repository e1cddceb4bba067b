-- ===== src/Scheduler/Moves.antt =====
-- The life of a task as internal/scheduler/scheduler.go has it: the changes that a write of the
-- scheduler makes to the record that the store has under an identifier.
pub mod Methods
pub mod Loops
pub mod Ticks
use job_raft.Base.{
  ◌≡◌, refl, sym, ◌∙◌, ap, ◌⊎◌, inl, inr, String, Bool, true, false, Option, none, some, arith,
  eq_iff, ◌==◌, if◌then◌else◌, Bool-cases, ◌≢◌,
}
use job_raft.Task.{
  Status, pending, running, success, failed, retrying, canceled, Task, Err, validate, is_terminal,
}
use job_raft.Store.{Result, ok, err, Store, ConditionalUpdater}
use job_raft.Store.Contract.{Replaced, ComparesAndSets, IsLawful}
use job_raft.Scheduler.{Scheduler, write_if_state}
use job_raft.Scheduler.Claim.{is_claimable}
use job_raft.Scheduler.Complete.{write_if_lease}

-- One step of a task's life.
pub data Edge (t u : Task) : Type 0 where
  claimed : is_claimable t.status ≡ true → u.status ≡ running → Edge t u
  succeeded : t.status ≡ running → u.status ≡ success → Edge t u
  scheduled : t.status ≡ running → u.status ≡ pending → Edge t u
  put_back : t.status ≡ running → u.status ≡ retrying → Edge t u
  exhausted : t.status ≡ running → u.status ≡ failed → Edge t u
  renewed : t.status ≡ running → u.status ≡ running → u.lease_token ≡ t.lease_token → Edge t u
  dropped : is_claimable t.status ≡ true → u.status ≡ failed → Edge t u
  stopped : is_terminal t ≡ false → u.status ≡ canceled → Edge t u

-- A terminal task has no step.
pub Edge-is_terminal : {t u : Task} → Edge t u → is_terminal t ≡ false
unfolding is_terminal is_claimable
Edge-is_terminal (claimed p q) = ground arith
Edge-is_terminal (succeeded p q) = ground arith
Edge-is_terminal (scheduled p q) = ground arith
Edge-is_terminal (put_back p q) = ground arith
Edge-is_terminal (exhausted p q) = ground arith
Edge-is_terminal (renewed p q r) = ground arith
Edge-is_terminal (dropped p q) = ground arith
Edge-is_terminal (stopped p q) = p

-- A record stays as it is, takes one step, or is created.
pub data Change (before after : Result Task) : Type 0 where
  same : after ≡ before → Change before after
  step : (t u : Task) → before ≡ ok t → after ≡ ok u → Edge t u → Change before after
  created : (e : Err) (u : Task) → before ≡ err e → after ≡ ok u → Change before after

-- Every record of the store changes by at most one step.
abbrev pub Moves : {S : Type 0} → Store S → S → S → Type 0
Moves api st st' = (id : String) → Change (api.get id st) (api.get id st')

-- Any number of such writes, one after the other.
pub data Runs {S : Type 0} (api : Store S) (st : S) : S → Type 0 where
  here : Runs api st st
  next : {st' st'' : S} → Runs api st st' → Moves api st' st'' → Runs api st st''

frozen-Change :
    (before after : Result Task) (t : Task)
    → before ≡ ok t
    → is_terminal t ≡ true
    → Change before after
    → after ≡ ok t
frozen-Change before after t p h (same e) = e ∙ p
frozen-Change before after t p h (step u v q r edge) = ground (arith, Edge-is_terminal edge)
frozen-Change before after t p h (created e u q r) = ground arith

module _ {S : Type 0} {api : Store S} where
  pub Runs-trans : {a b c : S} → Runs api a b → Runs api b c → Runs api a c
  Runs-trans r here = r
  Runs-trans r (next q m) = next (Runs-trans r q) m

  pub Runs-one : {a b : S} → Moves api a b → Runs api a b
  Runs-one m = next here m

  pub Runs-of_eq : {a b : S} → b ≡ a → Runs api a b
  Runs-of_eq e = rw e here

  -- A terminal task keeps its record through any number of writes.
  pub Runs-frozen :
      {a b : S} (id : String) (t : Task)
      → api.get id a ≡ ok t
      → is_terminal t ≡ true
      → Runs api a b
      → api.get id b ≡ ok t
  Runs-frozen id t p h here = p
  Runs-frozen id t p h (next {st' = m} r move) =
      frozen-Change _ _ t (Runs-frozen id t p h r) h (move id)

module _ {S : Type 0} (api : Store S) where
  -- A conditional write whose record continues every record that it can replace.
  ComparesAndSets-Moves :
      (id : String) (status : Status) (token : String) (t : Task) (st : S) (r : Option Err × S)
      → ((current : Task)
          → api.get id st ≡ ok current
          → current.status ≡ status
          → current.lease_token ≡ token
          → Edge current t)
      → ComparesAndSets api id status token t st r
      → Moves api st r.1
  ComparesAndSets-Moves id status token t st r edge (inl (e, p, q)) j = same (rw q refl)
  ComparesAndSets-Moves id status token t st r edge (inr (current, found, p, q, valid, done, new))
        j =
      elim (Bool-cases (id == j)) [
        | inl hit ↦
            step current t (rw (← (eq_iff id j).0 hit) found) (rw hit at (new j))
              (edge current found p q)
        | inr other ↦ same (rw other at (new j))
      ]

  module _ (law : IsLawful api) where
    -- So it is for the writes of the scheduler at a store that keeps the contract.
    pub write_if_state-ComparesAndSets :
        (id : String) (status : Status) (token : String) (t : Task) (st : S)
        → ComparesAndSets api id status token t st (write_if_state api id status token t st)
    unfolding write_if_state
    write_if_state-ComparesAndSets id status token t st =
        rw (law.has_updater, write_if_state) (law.state_cases id status token t st)

    pub write_if_lease-ComparesAndSets :
        (id token : String) (t : Task) (st : S)
        → ComparesAndSets api id running token t st (write_if_lease api id token t st)
    unfolding write_if_lease
    write_if_lease-ComparesAndSets id token t st =
        rw (law.has_updater, write_if_lease) (law.lease_cases id token t st)

    pub write_if_state-Moves :
        (id : String) (status : Status) (token : String) (t : Task) (st : S)
        → ((current : Task)
            → api.get id st ≡ ok current
            → current.status ≡ status
            → current.lease_token ≡ token
            → Edge current t)
        → Moves api st (write_if_state api id status token t st).1
    write_if_state-Moves id status token t st edge =
        ComparesAndSets-Moves id status token t st _ edge
          (write_if_state-ComparesAndSets id status token t st)

    pub write_if_lease-Moves :
        (id token : String) (t : Task) (st : S)
        → ((current : Task)
            → api.get id st ≡ ok current
            → current.status ≡ running
            → current.lease_token ≡ token
            → Edge current t)
        → Moves api st (write_if_lease api id token t st).1
    write_if_lease-Moves id token t st edge =
        ComparesAndSets-Moves id running token t st _ edge
          (write_if_lease-ComparesAndSets id token t st)

    -- A write whose expectations hold, of a valid record, goes through.
    pub write_if_state_hit :
        (id : String) (t current : Task) (st : S)
        → validate t ≡ none
        → api.get id st ≡ ok current
        → (write_if_state api id current.status current.lease_token t st).0 ≡ none
    unfolding write_if_state
    write_if_state_hit id t current st valid found =
        rw (law.has_updater, write_if_state) (law.state_hit id t current st valid found)
