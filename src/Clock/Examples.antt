-- ===== src/Clock/Examples.antt =====
-- A run of the clock.
use easygametools.Base.{ℕ, ◌*◌, ◌≡◌, refl, true, false}
use easygametools.Base.Int.{pos}
use easygametools.Base.Outcome.{ok, ◌>>=◌, Ensures}
use easygametools.Clock.{time_init, update, milliseconds, update-milliseconds}

update-milliseconds_example :
    Ensures (time_init (pos 1300000000) (1000 * 2) 7 >>= update true 15001) (λ (t, d).
      (t ≡ milliseconds (1000 * 2) 15001)
      × ((later : ℕ) → update false later d ≡ ok (milliseconds (1000 * 2) 15001, d)))
update-milliseconds_example = update-milliseconds (pos 1300000000) 1 7 15001 refl
