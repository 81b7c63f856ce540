-- ===== src/Timer/Waiting.antt =====
-- drivers/timer.c: when the wait of `timer_sleep` ends.
use ace_os.Base.{ℕ, ◌≤◌, ◌<◌, ◌≡◌, refl, true, false, some, List, [], ◌∷◌, ◌++◌, ltb, arith}
use ace_os.Timer.{sleep_loop}

-- Each reading is below the bound.
abbrev pub AreBelow : ℕ → List ℕ → Type 0
AreBelow target [] = Unit {0}
AreBelow target (t ∷ readings) = (t < target) × AreBelow target readings

pub sleep_loop_lem :
    (target now : ℕ) (early later : List ℕ)
    → AreBelow target early
    → target ≤ now
    → sleep_loop target (early ++ now ∷ later) ≡ some later
unfolding sleep_loop
sleep_loop_lem target now [] later h le =
    let over : ltb now target ≡ false = ground arith in rw over refl
sleep_loop_lem target now (t ∷ early) later (lt, h) le =
    let below : ltb t target ≡ true = ground arith in
    rw below (sleep_loop_lem target now early later h le)
