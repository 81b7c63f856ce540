-- ===== src/Timer.antt =====
-- drivers/timer.c: the tick handler, the clock, the callbacks and the measurement.
-- A callback is a number other than 0, NULL is 0. Calling one is recorded: the handler returns the
-- callbacks that it calls, in order, and whether it calls `scheduler_tick`.
pub mod Waiting
pub mod Clock
pub mod Callbacks
mod Tests
pub use ace_os.Base.Words.{add32}
use ace_os.Base.{
  ℕ, zero, suc, ◌+◌, ◌-◌, ◌*◌, ◌/◌, ◌%◌, ◌^◌, Bool, true, false, Option, none, some, List, [], ◌∷◌,
  if◌then◌else◌, ◌==◌, ltb, leb, get_or, set, replicate,
}

abbrev pub max_timer_callbacks : ℕ
max_timer_callbacks = 10

abbrev pub timer_frequency : ℕ
timer_frequency = 1000

-- `system_time_t`.
pub record SystemTime : Type 0 where
  pub seconds : ℕ
  pub minutes : ℕ
  pub hours : ℕ
  pub days : ℕ

-- `timer_stats_t`.
pub record TimerStats : Type 0 where
  pub total_ticks : ℕ
  pub interrupts_per_second : ℕ
  pub missed_ticks : ℕ
  pub scheduler_calls : ℕ

-- The globals of the file.
pub record Timer : Type 0 where
  pub timer_ticks : ℕ
  pub system_time : SystemTime
  pub stats : TimerStats
  pub measurement_start : ℕ
  pub timer_callbacks : List ℕ
  pub callback_count : ℕ

-- The two bytes that `timer_set_frequency` sends to the data port after its command byte.
pub divisor_bytes : ℕ → ℕ × ℕ
divisor_bytes frequency = let divisor = 1193180 / frequency in (divisor % 256, divisor / 256 % 256)

-- The ticks, the clock and the measurement are not touched.
pub timer_init : Timer → Timer
timer_init t = record t {
  stats = record {
    total_ticks = 0;
    interrupts_per_second = 0;
    missed_ticks = 0;
    scheduler_calls = 0;
  };
  timer_callbacks = replicate max_timer_callbacks 0;
  callback_count = 0;
}

pub timer_update_system_time : SystemTime → SystemTime
timer_update_system_time t =
    let seconds = add32 t.seconds 1 in
    let minutes = add32 t.minutes 1 in
    let hours = add32 t.hours 1 in
    if leb 60 seconds
    then (if leb 60 minutes
        then (if leb 24 hours
            then record { seconds = 0; minutes = 0; hours = 0; days = add32 t.days 1 }
            else record t { seconds = 0; minutes = 0; hours = hours })
        else record t { seconds = 0; minutes = minutes })
    else record t { seconds = seconds }

-- The loop over the callbacks: `n` rounds from `i` on.
pub called : List ℕ → ℕ → ℕ → List ℕ
called callbacks i zero = []
called callbacks i (suc n) =
    let c = get_or callbacks i 0 in
    let later = called callbacks (i + 1) n in if c == 0 then later else c ∷ later

-- The new state, the callbacks that are called, and whether the scheduler is.
pub timer_handler : Bool → Timer → Timer × List ℕ × Bool
timer_handler multitasking t =
    let ticks = add32 t.timer_ticks 1 in
    let second = ticks % 1000 == 0 in
    (
      record t {
        timer_ticks = ticks;
        system_time = if second then timer_update_system_time t.system_time else t.system_time;
        stats = record (t.stats) {
          total_ticks = add32 t.stats.total_ticks 1;
          interrupts_per_second = if second then 1000 else t.stats.interrupts_per_second;
          scheduler_calls =
              if multitasking then add32 t.stats.scheduler_calls 1 else t.stats.scheduler_calls;
        };
      },
      called t.timer_callbacks 0 t.callback_count,
      multitasking,
    )

pub timer_get_ticks : Timer → ℕ
timer_get_ticks t = t.timer_ticks

-- The wait of `timer_sleep`: `readings` are the values of `timer_ticks` that its test reads. The
-- result is what is left of them when the wait ends, `none` for a wait that has not ended.
pub sleep_loop : ℕ → List ℕ → Option (List ℕ)
sleep_loop target [] = none
sleep_loop target (now ∷ readings) =
    let later = sleep_loop target readings in if ltb now target then later else some readings

pub timer_sleep : ℕ → ℕ → List ℕ → Option (List ℕ)
timer_sleep start milliseconds readings = sleep_loop (add32 start milliseconds) readings

pub timer_register_callback : Timer → ℕ → Timer
timer_register_callback t callback =
    if ltb t.callback_count max_timer_callbacks
    then record t {
      timer_callbacks = set t.timer_callbacks t.callback_count callback;
      callback_count = t.callback_count + 1;
    }
    else t

-- `for (j = i; j < i + n; j++) callbacks[j] = callbacks[j + 1]`.
pub shift_down : List ℕ → ℕ → ℕ → List ℕ
shift_down callbacks i zero = callbacks
shift_down callbacks i (suc n) = shift_down (set callbacks i (get_or callbacks (i + 1) 0)) (i + 1) n

-- The search of `timer_unregister_callback`: `n` rounds from `i` on.
pub find_callback : List ℕ → ℕ → ℕ → ℕ → Option ℕ
find_callback callbacks callback i zero = none
find_callback callbacks callback i (suc n) =
    let later = find_callback callbacks callback (i + 1) n in
    if get_or callbacks i 0 == callback then some i else later

pub timer_unregister_callback : Timer → ℕ → Timer
timer_unregister_callback t callback =
    elim (find_callback t.timer_callbacks callback 0 t.callback_count) [
      | none ↦ t
      | some i ↦ record t {
        timer_callbacks =
            set (shift_down t.timer_callbacks i (t.callback_count - 1 - i)) (t.callback_count - 1)
              0;
        callback_count = t.callback_count - 1;
      }
    ]

pub timer_start_measurement : Timer → Timer
timer_start_measurement t = record t { measurement_start = t.timer_ticks }

pub timer_end_measurement : Timer → ℕ
timer_end_measurement t = (t.timer_ticks + 2 ^ 32 - t.measurement_start) % 2 ^ 32
