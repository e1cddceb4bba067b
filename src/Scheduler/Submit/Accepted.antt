-- ===== src/Scheduler/Submit/Accepted.antt =====
-- internal/scheduler/scheduler.go: what a submission comes to at a store that keeps the contract.
use job_raft.Task.{duplicate_task, validate, Err, Task}
use job_raft.Scheduler.Submit.{queue_error, duplicate, submit, dependency_error, with_defaults}
use job_raft.Store.{err, Store}
use job_raft.Base.{All, ℕ, ◌≡◌, refl, ◌⊎◌, inl, inr, String, none, some, arith, Option-cases}
use job_raft.Scheduler.Submit.Conditions.{
  known, unacceptable, not_created, Refused, KeyFree, HasRoom, Acceptable, duplicate-KeyFree,
  duplicate-KeyTaken, queue_error-HasRoom, queue_error-Refused, dependency_error-Acceptable,
  dependency_error-some,
}
use job_raft.Scheduler.{Scheduler, add_one}
use job_raft.Store.Contract.{Replaced, IsLawful}

module _ {S : Type 0} (api : Store S) where
  -- A submission is refused and changes nothing, because a stored task has its key, the queue is full
  -- or cannot be counted, a dependency is not another stored task from which the search does not
  -- reach the task, or the store does not take it. Or for all that the store says no stored task had
  -- its key, the queue had room, the task with its defaults was valid, its identifier was free, each
  -- of its dependencies was another stored task from which the search did not reach it, and the
  -- store now has it beside the records that it had, while the counter of submissions was advanced.
  -- The store keeps the contract of Store/Contract.
  pub submit_cases :
      (law : IsLawful api) (depth : ℕ) (new_id : String) (m n : ℕ) (t : Task) (s : Scheduler S)
      → ((e : Err) × (submit api depth new_id m n t s ≡ (some e, s))
          × Refused api depth s.max_pending (with_defaults new_id m n t) s.store e)
        ⊎ ((e : Err) × KeyFree api t.idempotency_key s.store
            × HasRoom api s.max_pending s.store
            × (validate (with_defaults new_id m n t) ≡ none)
            × (api.get (with_defaults new_id m n t).id s.store ≡ err e)
            × All (Acceptable api depth (with_defaults new_id m n t).id s.store) t.depends_on
            × ((submit api depth new_id m n t s).0 ≡ none)
            × Replaced api
                (with_defaults new_id m n t).id
                (with_defaults new_id m n t)
                s.store
                (submit api depth new_id m n t s).1.store
            × ((submit api depth new_id m n t s).1.submitted ≡ add_one s.submitted))
  unfolding submit with_defaults
  submit_cases law depth new_id m n t s =
      let t' = with_defaults new_id m n t in
      elim (Option-cases (duplicate api t s.store)) [
        | inr (u, p) ↦
            let (key, taken) = duplicate-KeyTaken api t u s.store p in
            inl (duplicate_task u.id, ground arith, known u key taken refl)
        | inl fresh ↦ elim (Option-cases (queue_error api s.max_pending s.store)) [
          | inr (e, p) ↦
              inl (e, ground arith, queue_error-Refused api depth s.max_pending t' s.store e p)
          | inl room ↦ elim (Option-cases (dependency_error api depth t'.id s.store t.depends_on)) [
            | inr (e, p) ↦ inl (
              e,
              ground arith,
              unacceptable (dependency_error-some api depth t'.id s.store e t.depends_on p),
            )
            | inl fine ↦ elim (law.create_cases t' s.store) [
              | inl (e, p, q) ↦ inl (e, ground arith, not_created p)
              | inr (e, free, valid, done', new) ↦
                  let stored' : (submit api depth new_id m n t s).1.store
                      ≡ (api.create t' s.store).1 =
                    ground arith in
                  inr (
                    e,
                    duplicate-KeyFree api t s.store fresh,
                    queue_error-HasRoom api s.max_pending s.store room,
                    valid,
                    free,
                    dependency_error-Acceptable api depth t'.id s.store t.depends_on fine,
                    ground arith,
                    rw stored' new,
                    ground arith,
                  )
            ]
          ]
        ]
      ]
