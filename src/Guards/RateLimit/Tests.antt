-- ===== src/Guards/RateLimit/Tests.antt =====
-- Runs of the rate limit in memory.
use rental_application_nest.Prelude.{
  ◌≤◌, refl, true, false, none, some, List, [], ◌∷◌, arith, count_if,
}
use rental_application_nest.External.Memory.Sorted.{memory_sorted_sets, Keyed}
use rental_application_nest.Guards.RateLimit.{
  RateLimitOptions, Key, user, same_key, remove_old, pipeline, can_activate,
}
use rental_application_nest.Guards.RateLimit.Window.{Request, nobody, asks}
use rental_application_nest.Guards.RateLimit.Bound.{is_passed, passed-Served}

abbrev options : RateLimitOptions
options = record { window_ms = 1000; max = 1; key_prefix = none }

abbrev empty : Key → Keyed
empty k = ([], none)

abbrev requests : List Request
requests =
    record { key = (0, user 7); time = 2700; is_allowed = true }
    ∷ record { key = (0, user 7); time = 1600; is_allowed = false }
    ∷ record { key = (0, user 7); time = 1200; is_allowed = true }
    ∷ []

passed-Served_example :
    count_if (is_passed (memory_sorted_sets same_key) options empty (0, user 7) 1650) requests ≤ 1
unfolding can_activate pipeline remove_old
passed-Served_example =
    passed-Served (memory_sorted_sets same_key) options empty (0, user 7) 1650 {rs = requests}
      (asks (some 7) none 2700 5
        (asks (some 7) none 1600 5
          (asks (some 7) none 1200 5 (nobody (λ j later. refl)) (omega arith) refl) (omega arith)
          refl)
        (omega arith) refl)
