-- ===== src/RateLimit/Examples.antt =====
-- The budget at concrete limits: a tracker of ten calls an hour with three in reserve.
use rustmistmcp.Prelude.{◌≤◌, ◌≡◌, refl, List, [], ◌∷◌, err}
use rustmistmcp.RateLimit.{
  step, standard, reserved, Clock, new, status, try_acquire, budget_exhausted, Ask, run, repeat,
}
use rustmistmcp.RateLimit.Window.{IsValid, run-new-IsValid}
use rustmistmcp.RateLimit.Reserve.{standard_keeps_reserve}

abbrev noon : Clock
noon = record { checked = 5; restarted = 5 }

abbrev next_hour : Clock
next_hour = record { checked = 3_600_000_000_006; restarted = 3_600_000_000_007 }

abbrev three_asks : List Ask
three_asks = (standard, noon) ∷ (standard, noon) ∷ (standard, next_hour) ∷ []

spent_standard_pool :
    (try_acquire (repeat 7 (new 10 3 0) standard noon) standard noon).1 ≡ err budget_exhausted
unfolding try_acquire repeat step new
spent_standard_pool = refl

next_window : (run (new 10 3 0) three_asks).window.used ≡ 1
unfolding run step new
next_window = refl

run-new-IsValid_example : IsValid (run (new 10 3 0) ((reserved, noon) ∷ three_asks))
run-new-IsValid_example = run-new-IsValid 10 3 0 ((reserved, noon) ∷ three_asks)

standard_keeps_reserve_example :
    3 ≤ (status (run (new 10 3 0) three_asks) next_hour).1.remaining_reserved
standard_keeps_reserve_example =
    standard_keeps_reserve 10 3 0 three_asks next_hour (refl, (refl, (refl, tt)))
