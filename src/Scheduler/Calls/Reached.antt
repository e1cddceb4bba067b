-- ===== src/Scheduler/Calls/Reached.antt =====
-- internal/scheduler/scheduler.go: what a piece of code does to a scheduler, as calls of its methods.
use job_raft.Task.{Task}
use job_raft.Store.{Result, Store}
use job_raft.Base.{ℕ, ◌≡◌, refl, sym, ap, ◌∙◌, String, some, List, [], ◌∷◌, ◌++◌}
use job_raft.Scheduler.Claim
use job_raft.Scheduler.Calls.{after_claim, claims, Call, perform, perform_all}
use job_raft.Scheduler.{Scheduler}

-- The second state is reached from the first by calls of the scheduler.
pub record ByCalls {S : Type 0} (api : Store S) (s s' : Scheduler S) : Type 0 where
  pub calls : List Call
  pub reached : s' ≡ perform_all api calls s

module _ {S : Type 0} (api : Store S) where
  perform_all-append :
      (cs ds : List Call) (s : Scheduler S)
      → perform_all api (cs ++ ds) s ≡ perform_all api ds (perform_all api cs s)
  unfolding perform_all
  perform_all-append [] ds s = refl
  perform_all-append (c ∷ cs) ds s = perform_all-append cs ds (perform api c s)

  pub ByCalls-refl : (s : Scheduler S) → ByCalls api s s
  unfolding perform_all
  ByCalls-refl s = record { calls = []; reached = refl }

  pub ByCalls-trans :
      {s s' s'' : Scheduler S} → ByCalls api s s' → ByCalls api s' s'' → ByCalls api s s''
  ByCalls-trans {s} h k = record {
    calls = h.calls ++ k.calls;
    reached =
        k.reached
        ∙ ap (perform_all api k.calls) h.reached
        ∙ sym (perform_all-append h.calls k.calls s);
  }

  pub ByCalls-one : (c : Call) {s s' : Scheduler S} → s' ≡ perform api c s → ByCalls api s s'
  unfolding perform_all
  ByCalls-one c h = record { calls = c ∷ []; reached = h }

  -- A claim as an event.
  pub claim-ByCalls :
      (a b : ℕ) (clock : ℕ → ℕ) (id : String) (s s' : Scheduler S) (x : Result Task)
      → Claim.claim api a b clock id s ≡ some (x, s')
      → ByCalls api s s'
  unfolding perform
  claim-ByCalls a b clock id s s' x h =
      ByCalls-one (claims a b clock id) (sym (ap (after_claim api s) h))
