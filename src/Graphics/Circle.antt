-- ===== src/Graphics/Circle.antt =====
-- `graphics_draw_circle` of drivers/graphics.c ends.
use ace_os.Base.{
  ℕ, zero, suc, ◌+◌, ◌-◌, ◌%◌, ◌<◌, ◌≤◌, ◌^◌, ◌≡◌, inl, inr, refl, sym, subst, false, Option, some,
  Bool-cases, leb, arith,
}
use ace_os.Base.Words.{add32, sub32, mul32, is_negative, less, rounds}
use ace_os.Libc.{Memory}
use ace_os.Graphics.{if_ended, draw_octants, circle_loop, circle_rounds, graphics_draw_circle}
use ace_os.Graphics.Clip.{then_pixel}
use ace_os.Graphics.Pixels.{OnScreen, OnScreen-refl, OnScreen-trans, put_pixel-OnScreen}

octants-OnScreen : (cx cy x y color : ℕ) (m : Memory) → OnScreen m (draw_octants cx cy x y color m)
unfolding draw_octants
octants-OnScreen cx cy x y color m = then_pixel _ _ color m _ (
    then_pixel _ _ color _ _ (
      then_pixel _ _ color _ _ (
        then_pixel _ _ color _ _ (
          then_pixel _ _ color _ _ (
            then_pixel _ _ color _ _
              (then_pixel _ _ color _ _ (put_pixel-OnScreen _ _ color _)))))))

-- What a circle has done when its loop ends.
pub record Drawn (m : Memory) (r : Option Memory) : Type 0 where
  pub result : Memory
  pub returned : r ≡ some result
  pub on_screen : OnScreen m result

after_octants :
    (cx cy x y color : ℕ) (m : Memory) {r : Option Memory}
    → Drawn (draw_octants cx cy x y color m) r
    → Drawn m r
after_octants cx cy x y color m h = record {
  result = h.result;
  returned = h.returned;
  on_screen = OnScreen-trans m _ h.result (octants-OnScreen cx cy x y color m) h.on_screen;
}

-- The word of `h` - 1.
abbrev pred32 : ℕ → ℕ
pred32 h = (h + 2 ^ 32 - 1) % 2 ^ 32

-- `x` grows by one in each round and `y`, which is `h` - 1, does not grow, so the loop ends.
circle_ends :
    (fuel cx cy x h d color : ℕ) (m : Memory)
    → h < 2 ^ 30
    → x ≤ h + 1
    → h < fuel + x
    → 0 < fuel
    → Drawn m (if_ended (circle_loop fuel cx cy x (pred32 h) d color m))
unfolding circle_loop if_ended
circle_ends zero cx cy x h d color m small near enough some_left = absurd (omega (arith, some_left))
circle_ends (suc fuel) cx cy x h d color m small near enough some_left =
    let over : less (pred32 h) x ≡ leb h x = ground arith in
    let down : leb h x ≡ false → sub32 (pred32 h) 1 ≡ pred32 (h - 1) = λ e. ground arith in
    let right : add32 x 1 ≡ x + 1 = omega (arith, small, near) in
    rw over (elim (Bool-cases (leb h x)) [
      | inl e ↦ rw e (record { result = m; returned = refl; on_screen = OnScreen-refl m })
      | inr e ↦
          let m' = draw_octants cx cy x (pred32 h) color m in
          let kept =
            circle_ends fuel cx cy (x + 1) h (add32 (add32 d (mul32 2 x)) 3) color m' small
              (ground arith) (omega (arith, enough)) (ground arith) in
          let lower =
            circle_ends fuel cx cy (x + 1) (h - 1)
              (add32 (add32 d (mul32 2 (sub32 x (pred32 h)))) 5) color m' (omega (arith, small))
              (ground arith) (omega (arith, enough)) (ground arith) in
          rw (e, right)
            (elim (Bool-cases (is_negative d)) [
              | inl n ↦ rw n (after_octants cx cy x (pred32 h) color m kept)
              | inr n ↦ rw (n, down e) (after_octants cx cy x (pred32 h) color m lower)
            ])
    ])

-- `graphics_draw_circle` ends for every radius below 2^30 - 1, and writes nothing outside of the
-- screen.
pub draw_circle_ends :
    (cx cy radius color : ℕ) (m : Memory)
    → radius + 1 < 2 ^ 30
    → Drawn m (graphics_draw_circle cx cy radius color m)
unfolding graphics_draw_circle circle_rounds
draw_circle_ends cx cy radius color m small =
    let r : radius ≡ pred32 (radius + 1) = omega (arith, small) in
    let n : rounds radius + 2 ≡ radius + 2 = ground arith in
    let ends =
      circle_ends (radius + 2) cx cy 0 (radius + 1) (sub32 1 radius) color m small (omega arith)
        (omega arith) (omega arith) in
    rw n (
      subst (λ y. Drawn m (if_ended (circle_loop (radius + 2) cx cy 0 y (sub32 1 radius) color m)))
        (sym r) ends)

circle_loop-OnScreen :
    (fuel cx cy x y d color : ℕ) (m : Memory) → OnScreen m (circle_loop fuel cx cy x y d color m).1
unfolding circle_loop
circle_loop-OnScreen zero cx cy x y d color m = OnScreen-refl m
circle_loop-OnScreen (suc fuel) cx cy x y d color m = elim (Bool-cases (less y x)) [
  | inl end ↦ rw end (OnScreen-refl m)
  | inr on ↦ rw on (
      OnScreen-trans m _ _ (octants-OnScreen cx cy x y color m)
        (circle_loop-OnScreen fuel cx cy _ _ _ color (draw_octants cx cy x y color m)))
]

pub circle_rounds-OnScreen :
    (fuel cx cy radius color : ℕ) (m : Memory)
    → OnScreen m (circle_rounds fuel cx cy radius color m).1
unfolding circle_rounds
circle_rounds-OnScreen fuel cx cy radius color m = circle_loop-OnScreen fuel cx cy _ _ _ color m
