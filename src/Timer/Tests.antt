-- ===== src/Timer/Tests.antt =====
-- Runs of drivers/timer.c.
use ace_os.Base.{◌≡◌, refl, true, [], ◌∷◌, arith}
use ace_os.Timer.{Timer, SystemTime}
use ace_os.Timer.Clock.{IsTime, InStep, interrupts, interrupts-InStep}
use ace_os.Timer.Callbacks.{IsTable}

-- The last second of a day.
abbrev midnight : SystemTime
midnight = record { seconds = 59; minutes = 59; hours = 23; days = 0 }

abbrev late : Timer
late = record {
  timer_ticks = 86_399_999;
  system_time = midnight;
  stats = record {
    total_ticks = 86_399_999;
    interrupts_per_second = 1000;
    missed_ticks = 0;
    scheduler_calls = 0;
  };
  measurement_start = 0;
  timer_callbacks = 7 ∷ 5 ∷ 9 ∷ 0 ∷ 0 ∷ 0 ∷ 0 ∷ 0 ∷ 0 ∷ 0 ∷ [];
  callback_count = 3;
}

midnight-IsTime : IsTime midnight
midnight-IsTime = omega arith

late-InStep : InStep late
late-InStep = record { time = midnight-IsTime; seconds = refl; small = omega arith }

late-IsTable : IsTable late
late-IsTable = omega arith

interrupts-InStep_example :
    InStep (interrupts 5 true late) × ((interrupts 5 true late).timer_ticks ≡ 86_400_004)
interrupts-InStep_example = interrupts-InStep 5 true late late-InStep (omega arith)
