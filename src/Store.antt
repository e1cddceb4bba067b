-- ===== src/Store.antt =====
-- internal/store/store.go: the contract of a store, its optional capabilities, and what they share.
pub mod Contract
pub mod Memory
pub mod File
pub mod Due
use job_raft.Base.{
  ◌≡◌, refl, ◌⊎◌, inl, inr, ℕ, ◌≡◌, String, Bool, ◌&&◌, ◌||◌, not, Option, none, some, List, [],
  ◌∷◌, ℤ, ltb, leb, ltb_ℤ, eq_ℤ, if◌then◌else◌, ◌==◌, length, count_if,
}
use job_raft.Task.{Status, pending, running, retrying, status_eq, Task, Err, validate}

-- A call that returns a value or an error.
pub data Result {ℓ} (A : Type ℓ) : Type ℓ where
  ok : A → Result A
  err : Err → Result A

pub Result-cases {ℓ} :
    {A : Type ℓ} (r : Result A) → ((e : Err) × (r ≡ err e)) ⊎ ((a : A) × (r ≡ ok a))
Result-cases (ok a) = inr (a, refl)
Result-cases (err e) = inl (e, refl)

-- A worker liveness lease.
pub record Worker : Type 0 where
  pub id : String
  pub last_heartbeat : ℕ
  pub lease_until : ℕ

-- A call that may write to the store of type `S`, with the error it returns (`none` is nil).
abbrev pub Write : Type 0 → Type 0
Write S = S → Option Err × S

pub record ConditionalUpdater (S : Type 0) : Type 0 where
  pub update_if_lease : String → String → Task → Write S
  pub update_if_state : String → Status → String → Task → Write S

-- The clock's reading in the database comes first.
pub record AtomicClaimer (S : Type 0) : Type 0 where
  pub claim_due : ℕ → String → ℤ → S → Result Task × S

pub record InFlightCounter (S : Type 0) : Type 0 where
  pub count_in_flight : S → Result ℕ

pub record TaskScanner (S : Type 0) : Type 0 where
  pub list_due : ℕ → S → Result (List Task)
  pub list_expired : ℕ → S → Result (List Task)

-- The clock's reading comes first where the method reads the clock.
pub record WorkerRegistry (S : Type 0) : Type 0 where
  pub register_worker : ℕ → String → ℤ → S → Result Worker × S
  pub heartbeat_worker : ℕ → String → ℤ → S → Result Worker × S
  pub get_worker : String → S → Result Worker
  pub list_workers : ℕ → S → Result (List Worker)
  pub renew_worker_task_leases : String → ℕ → Write S

pub record KeyFinder (S : Type 0) : Type 0 where
  pub get_by_idempotency_key : String → S → Result Task

-- The interface `Store`, with the capabilities that the scheduler asks for by type assertions.
pub record Store (S : Type 0) : Type 0 where
  pub create : Task → Write S
  pub get : String → S → Result Task
  pub list : S → Result (List Task)
  pub update : Task → Write S
  pub delete : String → Write S
  pub conditional_updater : Option (ConditionalUpdater S)
  pub atomic_claimer : Option (AtomicClaimer S)
  pub in_flight_counter : Option (InFlightCounter S)
  pub task_scanner : Option (TaskScanner S)
  pub worker_registry : Option (WorkerRegistry S)
  pub key_finder : Option (KeyFinder S)

unfoldable pub is_in_flight : Status → Bool
is_in_flight status =
    status_eq status pending || status_eq status retrying || status_eq status running

-- The condition of `Due`.
unfoldable pub is_due : ℕ → Task → Bool
is_due now t = (status_eq t.status pending || status_eq t.status retrying) && not (ltb now t.run_at)

-- The order of `Due`: higher priority first, then the earlier scheduled time.
unfoldable pub due_less : Task → Task → Bool
due_less a b =
    if not (eq_ℤ a.priority b.priority) then ltb_ℤ b.priority a.priority else ltb a.run_at b.run_at

-- `sort.SliceStable` of package sort: an entry goes in front of those that it is not after.
unfoldable pub insert_stable : Task → List Task → List Task
insert_stable t [] = t ∷ []
insert_stable t (u ∷ us) =
    let rest = insert_stable t us in if due_less u t then u ∷ rest else t ∷ u ∷ us

unfoldable pub sort_stable : List Task → List Task
sort_stable [] = []
sort_stable (t ∷ ts) = insert_stable t (sort_stable ts)

unfoldable pub filter_due : ℕ → List Task → List Task
filter_due now [] = []
filter_due now (t ∷ ts) = let rest = filter_due now ts in if is_due now t then t ∷ rest else rest

unfoldable pub due : List Task → ℕ → List Task
due tasks now = sort_stable (filter_due now tasks)
