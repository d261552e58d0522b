-- ===== src/RateLimit/Reserve.antt =====
-- The reserve: what is left for a human operator, and what a reported status means.
use rustmistmcp.Prelude.{
  ℕ, zero, suc, ◌+◌, ◌≤◌, ◌<◌, min, ◌≡◌, ◌∙◌, refl, ◌↔◌, List, [], ◌∷◌, true, false, is_err, arith,
  All,
}
use rustmistmcp.RateLimit.{
  RateLimitBudget, CallPriority, standard, reserved, Clock, new, cap, status, try_acquire, Ask,
  step, run, repeat, IsOpen,
}
use rustmistmcp.RateLimit.Window.{step-open, step-cap, repeat-used}

-- The reserve as configured, and nothing of it used.
record IsReserved (limit reserve : ℕ) (b : RateLimitBudget) : Type 0 where
  same_limit : b.hourly_limit ≡ limit
  same_reserve : b.human_reserve ≡ min reserve limit
  untouched : b.window.used + b.human_reserve ≤ limit

step-IsReserved :
    (limit reserve : ℕ) (b : RateLimitBudget) (clock : Clock)
    → IsReserved limit reserve b
    → IsReserved limit reserve (step b (standard, clock))
unfolding step
step-IsReserved limit reserve b clock v = ground arith

abbrev pub IsStandard : Ask → Type 0
IsStandard a = a.0 ≡ standard

run-IsReserved :
    (limit reserve : ℕ) (b : RateLimitBudget) (asks : List Ask)
    → All IsStandard asks
    → IsReserved limit reserve b
    → IsReserved limit reserve (run b asks)
unfolding run
run-IsReserved limit reserve b [] h v = v
run-IsReserved limit reserve b ((priority, clock) ∷ asks) (e, h) v =
    run-IsReserved limit reserve (step b (priority, clock)) asks h
      (rw e (step-IsReserved limit reserve b clock v))

-- However many standard calls are asked for, and whenever, a status taken afterwards still shows
-- the whole reserve (at most the limit) as available to reserved callers.
pub standard_keeps_reserve :
    (limit reserve now : ℕ) (asks : List Ask) (clock : Clock)
    → All IsStandard asks
    → min reserve limit ≤ (status (run (new limit reserve now) asks) clock).1.remaining_reserved
unfolding status new
standard_keeps_reserve limit reserve now asks clock h =
    let v =
      run-IsReserved limit reserve (new limit reserve now) asks h
        (record { same_limit = refl; same_reserve = refl; untouched = ground arith }) in
    ground (arith, v.same_limit, v.same_reserve, v.untouched)

-- So with a reserve and a limit that are not 0, a human call is granted after any run of standard
-- calls.
pub reserved_call_granted :
    (limit reserve now : ℕ) (asks : List Ask) (clock : Clock)
    → 0 < reserve
    → 0 < limit
    → All IsStandard asks
    → is_err (try_acquire (run (new limit reserve now) asks) reserved clock).1 ≡ false
unfolding try_acquire new
reserved_call_granted limit reserve now asks clock r l h =
    let v =
      run-IsReserved limit reserve (new limit reserve now) asks h
        (record { same_limit = refl; same_reserve = refl; untouched = ground arith }) in
    ground (arith, v.same_limit, v.same_reserve, v.untouched)

denied_iff :
    (b : RateLimitBudget) (priority : CallPriority) (clock : Clock)
    → IsOpen b clock
    → (is_err (try_acquire b priority clock).1 ≡ true) ↔ (cap b priority ≤ b.window.used)
unfolding try_acquire
denied_iff b standard clock o = ground arith
denied_iff b reserved clock o = ground arith

repeat-same :
    (n : ℕ) (b : RateLimitBudget) (priority p : CallPriority) (clock : Clock)
    → IsOpen b clock
    → (cap (repeat n b priority clock) p ≡ cap b p) × IsOpen (repeat n b priority clock) clock
unfolding repeat
repeat-same zero b priority p clock o = (refl, o)
repeat-same (suc n) b priority p clock o =
    let (same, still) =
      repeat-same n (step b (priority, clock)) priority p clock
        (rw (step-open b priority clock o) o) in
    (same ∙ step-cap b priority p clock, still)

-- A status is exact: within the window it was taken in, as many further standard calls as it
-- reports are granted, and the one after them is denied.
pub remaining_standard_exact :
    (b : RateLimitBudget) (clock : Clock) (n : ℕ)
    → IsOpen b clock
    → (is_err (try_acquire (repeat n b standard clock) standard clock).1 ≡ true)
      ↔ ((status b clock).1.remaining_standard ≤ n)
unfolding status cap
remaining_standard_exact b clock n o =
    let (same, still) = repeat-same n b standard standard clock o in
    ground (
      arith,
      denied_iff (repeat n b standard clock) standard clock still,
      same,
      repeat-used n b standard clock o,
    )
