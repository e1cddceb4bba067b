-- ===== src/Task.antt =====
-- internal/task/task.go: the domain model. A time is the number of nanoseconds since Go's zero
-- time, so 0 is `time.Time{}`; a `*time.Time` is an `Option`; a duration is signed. A nil byte or
-- string slice is the empty list, which JSON and `clone` do not tell apart from it.
pub mod Id
use job_raft.Base.{
  ◌≡◌, arith, ℕ, suc, ◌+◌, ◌-◌, String, Bool, true, false, ◌&&◌, ◌||◌, Option, none, some, List, ℤ,
  pos, negsuc, not, eq_ℕ, ltb_ℤ, ◌==◌, if◌then◌else◌,
}

-- `unset` is the empty string, which a task has before it is submitted.
pub data Status : Type 0 where
  unset pending running success failed retrying canceled : Status

abbrev pub status_eq : Status → Status → Bool
status_eq unset unset = true
status_eq pending pending = true
status_eq running running = true
status_eq success success = true
status_eq failed failed = true
status_eq retrying retrying = true
status_eq canceled canceled = true
status_eq _ _ = false

pub status_eq→eq : (a b : Status) → status_eq a b ≡ true → a ≡ b
status_eq→eq a b h = ground arith

pub status_eq_refl : (a : Status) → status_eq a a ≡ true
status_eq_refl a = ground arith

pub record RetryPolicy : Type 0 where
  pub max_attempts : ℤ
  pub backoff : ℤ

pub record Task : Type 0 where
  pub id : String
  pub idempotency_key : String
  pub name : String
  pub priority : ℤ
  pub depends_on : List String
  pub payload : List ℕ
  pub result : List ℕ
  pub status : Status
  pub attempts : ℤ
  pub retry : RetryPolicy
  pub run_at : ℕ
  pub schedule : ℤ
  pub run_count : ℤ
  pub timeout : ℤ
  pub last_error : String
  pub created_at : ℕ
  pub started_at : Option ℕ
  pub finished_at : Option ℕ
  pub worker_id : String
  pub lease_until : Option ℕ
  pub lease_token : String

-- Every error value that the packages return; the text of a wrapped error is kept as its argument.
pub data Err : Type 0 where
  invalid_task : Err
  not_found : Err
  conflict : Err
  duplicate_idempotency_key : Err
  duplicate_id : Err
  -- `os.ErrExist` and `os.ErrInvalid`
  file_exists : Err
  invalid_argument : Err
  no_task_available : Err
  worker_id_required : Err
  worker_not_registered : Err
  no_task : Err
  backpressure : Err
  not_leader : Err
  worker_unhealthy : Err
  handler_required : Err
  invalid_lease : Err
  claim_lost : Err
  self_dependency : Err
  dependency_not_found : String → Err
  dependency_cycle : String → Err
  -- wraps `duplicate_idempotency_key` and names the task that has the key
  duplicate_task : String → Err
  task_running : String → Err
  -- an error of a database or a file system
  backend_failed : String → Err

abbrev is_negative : ℤ → Bool
is_negative z = ltb_ℤ z (pos 0)

unfoldable pub validate : Task → Option Err
validate t =
    if t.id == "" || t.name == ""
    then some invalid_task
    else if ltb_ℤ t.retry.max_attempts (pos 1)
    then some invalid_task
    else if is_negative t.retry.backoff
        || is_negative t.timeout
        || is_negative t.schedule
        || is_negative t.attempts
        || is_negative t.run_count
    then some invalid_task
    else if eq_ℕ t.run_at 0
    then some invalid_task
    else none

unfoldable pub is_terminal : Task → Bool
is_terminal t =
    status_eq t.status success
    || status_eq t.status canceled
    || (status_eq t.status failed && not (ltb_ℤ t.attempts t.retry.max_attempts))

-- `t.Add(d)` of the time package.
abbrev pub add_time : ℕ → ℤ → ℕ
add_time t (pos d) = t + d
add_time t (negsuc d) = t - suc d
