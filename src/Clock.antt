-- ===== src/Clock.antt =====
-- `DateTime` of game_client/game_client/DateTime.h and DateTime.cpp: a clock of milliseconds.
--
-- `QueryPerformanceFrequency` and `QueryPerformanceCounter` are what the system gives, the ticks in a
-- second and those so far. The build is that of Windows.
pub mod Examples
use native.Mathlib.Nat.{mul-div-mul_left, mul-div_cancel_left}
use easygametools.Base.{
  ℕ, zero, suc, ◌*◌, ◌/◌, ◌%◌, ◌^◌, ◌<◌, ◌≡◌, refl, ap, sym, ◌∙◌, Bool, true, false, ◌==◌, Option,
  none, some, arith, if◌then◌else◌,
}
use easygametools.Base.Int.{ℤ, pos, ltb_ℤ}
use easygametools.Base.Outcome.{
  Result, ok, err, division_by_zero, uninitialised, ◌>>=◌, or_error, Ensures,
}

-- A `DateTime`; `tick_accuracy` and `system_time` are set where the system has the time.
pub record DateTime : Type 0 where
  pub current_date : ℤ
  pub tick_accuracy : Option ℕ
  pub system_time : Option ℕ

-- `tick_count.QuadPart / (tick_accuracy.QuadPart / CLOCK_ACCURACY)`, as an `unsigned long` of 32 bits
unfoldable pub millis : ℕ → ℕ → Result ℕ
millis count accuracy =
    if accuracy / 1000 == 0 then err division_by_zero else ok (count / (accuracy / 1000) % 2 ^ 32)

-- `DateTime::TimeInit`, and the constructor, which only calls it; its value is not looked at.
unfoldable pub time_init : ℤ → ℕ → ℕ → Result DateTime
unfolding millis
time_init now accuracy count =
    if ltb_ℤ now (pos 1)
    then ok (record { current_date = pos 0; tick_accuracy = none; system_time = none })
    else do
      t ← millis count accuracy
      ok (record { current_date = now; tick_accuracy = some accuracy; system_time = some t })

-- `DateTime::Update`, by whether the thread is the first to enter `updateSem`: another takes the time that
-- the first has read.
unfoldable pub update : Bool → ℕ → DateTime → Result (ℕ × DateTime)
unfolding millis
update false count d = do t ← or_error d.system_time uninitialised; ok (t, d)
update true count d = do
  accuracy ← or_error d.tick_accuracy uninitialised
  t ← millis count accuracy
  ok (t, record d { system_time = some t })

-- Milliseconds, of 32 bits, of a count of ticks.
abbrev pub milliseconds : ℕ → ℕ → ℕ
milliseconds accuracy count = count * 1000 / accuracy % 2 ^ 32

millis-exact :
    (count per_milli : ℕ)
    → millis count (1000 * suc per_milli) ≡ ok (milliseconds (1000 * suc per_milli) count)
unfolding millis
millis-exact count k = rw (whole, same) (ap (λ q. ok (q % 2 ^ 32)) (scaled count))
  where
    whole : 1000 * suc k / 1000 ≡ suc k
    whole = mul-div_cancel_left (suc k) (omega arith)

    same : (suc k == 0) ≡ false
    same = ground arith

    scaled : (n : ℕ) → n / suc k ≡ n * 1000 / (1000 * suc k)
    scaled n =
        sym (ap (λ m. m / (1000 * suc k)) (swap n) ∙ mul-div-mul_left n (suc k) (omega arith))
      where
        swap : (n : ℕ) → n * 1000 ≡ 1000 * n
        swap n = omega arith

-- Where the system has the time and the ticks of a second are a multiple of 1000 and not 0, a clock
-- that is made and updated gives the whole milliseconds of the ticks so far, modulo 2 ^ 32; a thread
-- that finds the clock taken gets the same number.
pub update-milliseconds :
    (now : ℤ) (per_milli count count' : ℕ)
    → ltb_ℤ now (pos 1) ≡ false
    → Ensures (time_init now (1000 * suc per_milli) count >>= update true count') (λ (t, d).
      (t ≡ milliseconds (1000 * suc per_milli) count')
      × ((later : ℕ) → update false later d ≡ ok (milliseconds (1000 * suc per_milli) count', d)))
unfolding time_init update
update-milliseconds now k count count' has_time =
    rw (has_time, millis-exact count k, millis-exact count' k) (refl, λ later. refl)
