-- ===== src/Syscall/Sleep.antt =====
-- kernel/syscall.c: the calls that read the clock.
use ace_os.Base.{
  ℕ, ◌+◌, ◌*◌, ◌^◌, ◌%◌, ◌≤◌, ◌≡◌, ◌≢◌, inl, inr, refl, ap, ◌∙◌, false, Option, none, some, List,
  [], ◌∷◌, ◌++◌, Bool-cases, ◌==◌, arith,
}
use ace_os.Base.Words.{add32, mul32}
use ace_os.Timer.{sleep_loop}
use ace_os.Timer.Waiting.{AreBelow, sleep_loop_lem}
use ace_os.Fs.Blocks.{Allocator}
use ace_os.Syscall.{Kernel, wake, sleep_from, kernel_sleep, time_from, kernel_time}
use ace_os.Syscall.Reported.{Keeps, kept}

module _ {A : Allocator} where
  -- What a call leaves, if it ends.
  abbrev pub After : (ℕ × Kernel A → Type 0) → Option (ℕ × Kernel A) → Type 0
  After Q none = Unit {0}
  After Q (some r) = Q r

  wake-Keeps : (k : Kernel A) (o : Option (List ℕ)) → After (λ r. Keeps k r.1) (wake k o)
  unfolding wake
  wake-Keeps k none = tt
  wake-Keeps k (some readings) = kept (λ v. v) refl refl

  sleep_from-Keeps :
      (k : Kernel A) (seconds : ℕ) (readings : List ℕ)
      → After (λ r. Keeps k r.1) (sleep_from k seconds readings)
  unfolding sleep_from
  sleep_from-Keeps k seconds [] = tt
  sleep_from-Keeps k seconds (t ∷ readings) =
      wake-Keeps k (sleep_loop (add32 t (mul32 seconds 1000)) readings)

  pub sleep-Keeps : (k : Kernel A) (seconds : ℕ) → After (λ r. Keeps k r.1) (kernel_sleep k seconds)
  unfolding kernel_sleep
  sleep-Keeps k seconds = elim (Bool-cases (seconds == 0)) [
    | inl e ↦ rw e (kept (λ v. v) refl refl)
    | inr e ↦ rw e (sleep_from-Keeps k seconds k.readings)
  ]

  time_from-Keeps :
      (k : Kernel A) (readings : List ℕ) → After (λ r. Keeps k r.1) (time_from k readings)
  unfolding time_from
  time_from-Keeps k [] = tt
  time_from-Keeps k (t ∷ readings) = kept (λ v. v) refl refl

  pub time-Keeps : (k : Kernel A) → After (λ r. Keeps k r.1) (kernel_time k)
  unfolding kernel_time
  time-Keeps k = time_from-Keeps k k.readings

  -- A sleep of some seconds, but not 0, ends, with result 0 and no change of `errno`, at the first value
  -- of the timer that is not below the target, which is the value at the call and 1000 for each second,
  -- as words, if there is such a value.
  pub sleep_ends :
      (k : Kernel A) (seconds start now : ℕ) (early later : List ℕ)
      → seconds ≢ 0
      → k.readings ≡ start ∷ (early ++ now ∷ later)
      → AreBelow ((start + seconds * 1000 % 2 ^ 32) % 2 ^ 32) early
      → (start + seconds * 1000 % 2 ^ 32) % 2 ^ 32 ≤ now
      → kernel_sleep k seconds ≡ some (0, record k { readings = later })
  unfolding kernel_sleep sleep_from wake
  sleep_ends k seconds start now early later some_time read below over =
      let e : (seconds == 0) ≡ false = ground arith in
      let waited = sleep_loop_lem (add32 start (mul32 seconds 1000)) now early later below over in
      rw e (ap (sleep_from k seconds) read ∙ ap (wake k) waited)
