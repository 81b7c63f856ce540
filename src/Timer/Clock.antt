-- ===== src/Timer/Clock.antt =====
-- The clock and the measurement of drivers/timer.c.
use ace_os.Base.{ℕ, zero, suc, ◌+◌, ◌-◌, ◌*◌, ◌/◌, ◌%◌, ◌^◌, ◌<◌, ◌≡◌, refl, ap, Bool, arith}
use ace_os.Timer.{
  SystemTime, Timer, timer_update_system_time, timer_handler, timer_start_measurement,
  timer_end_measurement,
}

pub record IsTime (t : SystemTime) : Type 0 where
  pub seconds_in : t.seconds < 60
  pub minutes_in : t.minutes < 60
  pub hours_in : t.hours < 24
  pub days_in : t.days < 2 ^ 32 - 1

-- The time in seconds.
abbrev pub elapsed : SystemTime → ℕ
elapsed t = ((t.days * 24 + t.hours) * 60 + t.minutes) * 60 + t.seconds

-- Each update of the clock adds exactly one second and keeps its fields in range, until the days
-- would wrap.
update-elapsed :
    (t : SystemTime)
    → IsTime t
    → let t' = timer_update_system_time t in
      (elapsed t' ≡ elapsed t + 1) × (t'.seconds < 60) × (t'.minutes < 60) × (t'.hours < 24)
unfolding timer_update_system_time
update-elapsed t v = ground arith

-- `n` timer interrupts.
pub interrupts : ℕ → Bool → Timer → Timer
interrupts zero multitasking t = t
interrupts (suc n) multitasking t = interrupts n multitasking (timer_handler multitasking t).0

-- The clock shows the whole seconds that have passed since the ticks were 0.
pub record InStep (t : Timer) : Type 0 where
  pub time : IsTime t.system_time
  pub seconds : elapsed t.system_time ≡ t.timer_ticks / 1000
  pub small : t.timer_ticks < 2 ^ 32

handler-InStep :
    (m : Bool) (t : Timer)
    → InStep t
    → t.timer_ticks + 1 < 2 ^ 32
    → InStep (timer_handler m t).0 × ((timer_handler m t).0.timer_ticks ≡ t.timer_ticks + 1)
unfolding timer_handler
handler-InStep m t v h = ground (arith, update-elapsed t.system_time v.time)

-- After any number of timer interrupts the clock shows the whole seconds since the ticks were 0, and
-- its fields are in range, until the tick counter wraps after 49 days.
pub interrupts-InStep :
    (n : ℕ) (m : Bool) (t : Timer)
    → InStep t
    → t.timer_ticks + n < 2 ^ 32
    → InStep (interrupts n m t) × ((interrupts n m t).timer_ticks ≡ t.timer_ticks + n)
unfolding interrupts
interrupts-InStep zero m t v h = (v, omega arith)
interrupts-InStep (suc n) m t v h =
    let (v', e) = handler-InStep m t v (omega arith) in
    let (w, e') = interrupts-InStep n m (timer_handler m t).0 v' (omega arith) in (w, omega arith)

ticks-interrupts :
    (n : ℕ) (m : Bool) (t : Timer)
    → (interrupts n m t).timer_ticks % 2 ^ 32 ≡ (t.timer_ticks + n) % 2 ^ 32
unfolding interrupts timer_handler
ticks-interrupts zero m t = ap (λ k. k % 2 ^ 32) (omega arith)
ticks-interrupts (suc n) m t = omega (arith, ticks-interrupts n m (timer_handler m t).0)

ticks-lt :
    (n : ℕ) (m : Bool) (t : Timer)
    → t.timer_ticks < 2 ^ 32
    → (interrupts n m t).timer_ticks < 2 ^ 32
unfolding interrupts timer_handler
ticks-lt zero m t h = h
ticks-lt (suc n) m t h = ticks-lt n m (timer_handler m t).0 (omega arith)

start-interrupts :
    (n : ℕ) (m : Bool) (t : Timer) → (interrupts n m t).measurement_start ≡ t.measurement_start
unfolding interrupts timer_handler
start-interrupts zero m t = refl
start-interrupts (suc n) m t = start-interrupts n m (timer_handler m t).0

-- A measurement gives the number of interrupts between its start and its end, also when the tick
-- counter wraps in between.
measurement_lem :
    (n : ℕ) (m : Bool) (t : Timer)
    → t.timer_ticks < 2 ^ 32
    → n < 2 ^ 32
    → timer_end_measurement (interrupts n m (timer_start_measurement t)) ≡ n
unfolding timer_start_measurement timer_end_measurement
measurement_lem n m t h k =
    let s : Timer = record t { measurement_start = t.timer_ticks } in
    omega (arith, ticks-interrupts n m s, ticks-lt n m s h, start-interrupts n m s)
