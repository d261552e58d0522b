-- ===== src/RateLimit/Window.antt =====
-- The budget over one window: what it counts, and what a status foretells.
use rustmistmcp.Prelude.{ℕ, zero, suc, ◌+◌, ◌≤◌, min, max, ◌≡◌, List, [], ◌∷◌, arith}
use rustmistmcp.RateLimit.{
  RateLimitBudget, CallPriority, standard, reserved, Clock, new, cap, Ask, step, run, repeat,
  IsOpen,
}

pub record IsValid (b : RateLimitBudget) : Type 0 where
  pub reserve_fits : b.human_reserve ≤ b.hourly_limit
  pub used_fits : b.window.used ≤ b.hourly_limit

step-IsValid : (b : RateLimitBudget) (a : Ask) → IsValid b → IsValid (step b a)
unfolding step
step-IsValid b (standard, clock) v = ground arith
step-IsValid b (reserved, clock) v = ground arith

run-IsValid : (b : RateLimitBudget) (asks : List Ask) → IsValid b → IsValid (run b asks)
unfolding run
run-IsValid b [] v = v
run-IsValid b (a ∷ asks) v = run-IsValid (step b a) asks (step-IsValid b a v)

-- Whatever limits a tracker is built with, and whatever is asked of it when, the reserve is at most
-- the limit, and at most the limit is counted as used.
pub run-new-IsValid :
    (hourly_limit human_reserve now : ℕ) (asks : List Ask)
    → IsValid (run (new hourly_limit human_reserve now) asks)
unfolding new
run-new-IsValid hourly_limit human_reserve now asks = run-IsValid _ asks (ground arith)

pub step-open :
    (b : RateLimitBudget) (priority : CallPriority) (clock : Clock)
    → IsOpen b clock
    → (step b (priority, clock)).window.started_at ≡ b.window.started_at
unfolding step
step-open b priority clock o = ground arith

pub step-cap :
    (b : RateLimitBudget) (priority p : CallPriority) (clock : Clock)
    → cap (step b (priority, clock)) p ≡ cap b p
unfolding step
step-cap b priority standard clock = ground arith
step-cap b priority reserved clock = ground arith

step-used :
    (b : RateLimitBudget) (priority : CallPriority) (clock : Clock)
    → IsOpen b clock
    → (step b (priority, clock)).window.used
      ≡ max b.window.used (min (b.window.used + 1) (cap b priority))
unfolding step
step-used b standard clock o = ground arith
step-used b reserved clock o = ground arith

-- Within one window `n` requests of a priority use up as many calls as that priority's cap allows,
-- and no more.
pub repeat-used :
    (n : ℕ) (b : RateLimitBudget) (priority : CallPriority) (clock : Clock)
    → IsOpen b clock
    → (repeat n b priority clock).window.used
      ≡ max b.window.used (min (b.window.used + n) (cap b priority))
unfolding repeat
repeat-used zero b priority clock o = omega arith
repeat-used (suc n) b priority clock o =
    let s = step b (priority, clock) in
    omega (
      arith,
      repeat-used n s priority clock (rw (step-open b priority clock o) o),
      step-cap b priority priority clock,
      step-used b priority clock o,
    )
