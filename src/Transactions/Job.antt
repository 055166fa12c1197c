-- ===== src/Transactions/Job.antt =====
-- The background job that categorizes: the effect on its polled status, with the ref `wasRunning`,
-- and what a failed start does (frontend/src/pages/TransactionsPage.tsx).
pub mod Runs
use cogni_cash.Base.{
  ℕ, String, ◌==◌, Bool, true, false, Option, none, some, List, [], ◌∷◌, if◌then◌else◌, nat_eq,
}
use cogni_cash.Types.{JobState}

-- What the user is told; the numbers are those of the status.
pub data Toast : Type 0 where
  categorized : ℕ → Toast
  cancelled_after : ℕ → Toast
  no_uncategorized : Toast
  start_failed : Toast
  unknown_error : Toast

-- `wasRunning.current`, the toast, and how often the cached lists were invalidated.
pub record Watch : Type 0 where
  pub was_running : Bool
  pub toast : Option Toast
  pub refetches : ℕ

abbrev toast_of : JobState → Option Toast → Option Toast
toast_of job_status shown =
    if job_status.status == "completed"
    then some (categorized job_status.processed)
    else if job_status.status == "cancelled"
    then some (cancelled_after job_status.processed)
    else shown

-- The effect, on the status that the query holds.
unfoldable pub observe : Option JobState → Watch → Watch
observe none w = w
observe (some job_status) w =
    if job_status.is_running
    then record w { was_running = true }
    else if w.was_running
    then record {
      was_running = false;
      toast = toast_of job_status w.toast;
      refetches = ℕ.suc w.refetches;
    }
    else w

-- The effect on each status of a run of the page.
unfoldable pub observe_all : List (Option JobState) → Watch → Watch
observe_all [] w = w
observe_all (j ∷ js) w = observe_all js (observe j w)

-- How the start request failed: with the status of an answer, without one, or outside axios.
pub data StartError : Type 0 where
  answered : ℕ → StartError
  unanswered : StartError
  other_error : StartError

pub data AfterStart : Type 0 where
  told : Toast → AfterStart
  refetched_status : AfterStart

-- `onError` of `startJobMutation`
unfoldable pub start_failed_with : StartError → AfterStart
start_failed_with (answered status) =
    if nat_eq status 404
    then told no_uncategorized
    else if nat_eq status 409
    then refetched_status
    else told start_failed
start_failed_with unanswered = told start_failed
start_failed_with other_error = told unknown_error
