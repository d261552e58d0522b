-- ===== src/RateLimit.antt =====
-- crates/rustmistmcp-core/src/rate_limit.rs: the hourly call budget of one Mist API token.
-- An `Instant` is a number of nanoseconds. The two readings of the clock that `reset_if_elapsed`
-- makes are arguments, and the state behind the mutex is passed along.
pub mod Reserve
pub mod Window
mod Examples
use rustmistmcp.Prelude.{
  ℕ, zero, suc, ◌+◌, ◌-◌, ◌*◌, ◌<◌, min, List, [], ◌∷◌, Bool, Result, ok, err, ltb, leb,
  if◌then◌else◌, ◌>>=◌,
}

-- `WINDOW`
abbrev pub window_length : ℕ
window_length = 3600 * 1_000_000_000

pub data CallPriority : Type 0 where
  standard reserved : CallPriority

pub record BudgetStatus : Type 0 where
  pub hourly_limit : ℕ
  pub human_reserve : ℕ
  pub used : ℕ
  pub remaining_standard : ℕ
  pub remaining_reserved : ℕ

pub data BudgetExhausted : Type 0 where
  budget_exhausted : BudgetExhausted

pub record CallWindow : Type 0 where
  pub started_at : ℕ
  pub used : ℕ

pub record RateLimitBudget : Type 0 where
  pub hourly_limit : ℕ
  pub human_reserve : ℕ
  pub window : CallWindow

unfoldable pub new : ℕ → ℕ → ℕ → RateLimitBudget
new hourly_limit human_reserve now = record {
  hourly_limit = hourly_limit;
  human_reserve = min human_reserve hourly_limit;
  window = record { started_at = now; used = 0 };
}

unfoldable pub mist_default : ℕ → RateLimitBudget
unfolding new
mist_default now = new 5_000 250 now

unfoldable pub standard_cap : RateLimitBudget → ℕ
standard_cap b = b.hourly_limit - b.human_reserve

-- The time at which `elapsed` is read, and the time at which `now` is.
pub record Clock : Type 0 where
  pub checked : ℕ
  pub restarted : ℕ

unfoldable pub reset_if_elapsed : CallWindow → Clock → CallWindow
reset_if_elapsed w clock =
    if leb window_length (clock.checked - w.started_at)
    then record { started_at = clock.restarted; used = 0 }
    else w

unfoldable pub status_locked : RateLimitBudget → CallWindow → BudgetStatus
unfolding standard_cap
status_locked b w = record {
  hourly_limit = b.hourly_limit;
  human_reserve = b.human_reserve;
  used = w.used;
  remaining_standard = standard_cap b - w.used;
  remaining_reserved = b.hourly_limit - w.used;
}

unfoldable pub status : RateLimitBudget → Clock → RateLimitBudget × BudgetStatus
unfolding reset_if_elapsed status_locked
status b clock =
    let w = reset_if_elapsed b.window clock in (record b { window = w }, status_locked b w)

unfoldable pub cap : RateLimitBudget → CallPriority → ℕ
unfolding standard_cap
cap b standard = standard_cap b
cap b reserved = b.hourly_limit

unfoldable pub charge :
    RateLimitBudget → CallWindow → ℕ → RateLimitBudget × Result BudgetExhausted BudgetStatus
unfolding status_locked
charge b w limit =
    let w' : CallWindow = record w { used = w.used + 1 } in
    if leb limit w.used
    then (record b { window = w }, err budget_exhausted)
    else (record b { window = w' }, ok (status_locked b w'))

unfoldable pub try_acquire :
    RateLimitBudget → CallPriority → Clock → RateLimitBudget × Result BudgetExhausted BudgetStatus
unfolding reset_if_elapsed cap charge
try_acquire b priority clock = charge b (reset_if_elapsed b.window clock) (cap b priority)

-- The clock is read before the window is over.
abbrev pub IsOpen : RateLimitBudget → Clock → Type 0
IsOpen b clock = clock.checked - b.window.started_at < window_length

-- A request for budget: its priority, and the clock as it is read.
abbrev pub Ask : Type 0
Ask = CallPriority × Clock

unfoldable pub step : RateLimitBudget → Ask → RateLimitBudget
unfolding try_acquire
step b (priority, clock) = (try_acquire b priority clock).0

unfoldable pub run : RateLimitBudget → List Ask → RateLimitBudget
run b [] = b
run b (a ∷ asks) = run (step b a) asks

-- `n` requests of one priority, all at one reading of the clock.
unfoldable pub repeat : ℕ → RateLimitBudget → CallPriority → Clock → RateLimitBudget
repeat zero b priority clock = b
repeat (suc n) b priority clock = repeat n (step b (priority, clock)) priority clock
