-- ===== src/Graphics/Line.antt =====
-- `graphics_draw_line` of drivers/graphics.c ends: Bresenham's loop meets the end point after one
-- round for each column and row between the points, at most.
use ace_os.Base.{
  ℕ, zero, suc, ◌+◌, ◌-◌, ◌*◌, ◌%◌, ◌^◌, ◌≤◌, ◌<◌, ◌≡◌, ◌⊎◌, inl, inr, refl, ◌∙◌, Bool, true, false,
  ◌&&◌, Bool-cases, Option, some, if◌then◌else◌, ◌==◌, ltb, arith,
}
use ace_os.Base.Words.{add32, sub32, neg32, mul32, less}
use ace_os.Libc.{Memory}
use ace_os.Graphics.{
  vga_width, vga_height, graphics_put_pixel, if_ended, line_loop, line_rounds, magnitude, direction,
  graphics_draw_line,
}
use ace_os.Graphics.Pixels.{pixel, OnScreen, OnScreen-trans, put_pixel-OnScreen, pixel-put_pixel}

-- With `p` columns and `q` rows of `a` and `b` left, `P` = p * b and `Q` = q * a: the error term.
abbrev err_word : ℕ → ℕ → ℕ → ℕ → ℕ
err_word a b P Q = (P + a + 2 ^ 32 - (Q + b)) % 2 ^ 32

-- It stays within three times the sum of the distances, up to a factor 2.
abbrev Near : ℕ → ℕ → ℕ → ℕ → Type 0
Near a b P Q = (2 * (P + a) ≤ 2 * (Q + b) + 3 * (a + b)) × (2 * (Q + b) ≤ 2 * (P + a) + 3 * (a + b))

module _ (a b P Q : ℕ) (ha : a < 2 ^ 28) (hb : b < 2 ^ 28) (near : Near a b P Q) where
  -- The two tests, as comparisons of numbers.
  test_x : less (neg32 b) (mul32 2 (err_word a b P Q)) ≡ ltb (2 * Q + b) (2 * P + 2 * a)
  test_x = ground arith

  test_y : less (mul32 2 (err_word a b P Q)) a ≡ ltb (2 * P + a) (2 * Q + 2 * b)
  test_y = ground arith

-- `p` steps of `s` lead from `x` to `x2`.
abbrev Ahead : ℕ → ℕ → ℕ → ℕ → Type 0
Ahead s p x x2 =
    (x < 2 ^ 32)
    × (x2 < 2 ^ 32)
    × (((s ≡ 1) × (x2 ≡ (x + p) % 2 ^ 32)) ⊎ ((s ≡ 2 ^ 32 - 1) × (x ≡ (x2 + p) % 2 ^ 32)))

Ahead-step : (s p x x2 : ℕ) → suc p < 2 ^ 28 → Ahead s (suc p) x x2 → Ahead s p (add32 x s) x2
Ahead-step s p x x2 small h = ground arith

Ahead-test : (s p x x2 : ℕ) → p < 2 ^ 28 → Ahead s p x x2 → (x == x2) ≡ (p == 0)
Ahead-test s p x x2 small h = ground arith

-- What the loop has done when it ends.
pub record Ended (x2 y2 color : ℕ) (m : Memory) (r : Option Memory) : Type 0 where
  pub result : Memory
  pub returned : r ≡ some result
  pub on_screen : OnScreen m result
  pub last : x2 < vga_width → y2 < vga_height → pixel result x2 y2 ≡ color

after_pixel :
    (x y : ℕ) {x2 y2 color : ℕ} (m : Memory) {r : Option Memory}
    → Ended x2 y2 color (graphics_put_pixel x y color m) r
    → Ended x2 y2 color m r
after_pixel x y {x2} {y2} {color} m h = record {
  result = h.result;
  returned = h.returned;
  on_screen =
      OnScreen-trans m (graphics_put_pixel x y color m) h.result (put_pixel-OnScreen x y color m)
        h.on_screen;
  last = h.last;
}

module _ (a b sx sy x2 y2 color : ℕ) (ha : a < 2 ^ 28) (hb : b < 2 ^ 28) where
  -- The steps that one round takes: along x, along y, or both; one at least.
  data Turn : ℕ → ℕ → Bool → Bool → Type 0 where
    along_x : (p q : ℕ) → Near a b (p * b) (q * a) → Turn (suc p) q true false
    along_y : (p q : ℕ) → Near a b (p * b) (q * a) → Turn p (suc q) false true
    both : (p q : ℕ) → Near a b (p * b) (q * a) → Turn (suc p) (suc q) true true

  turn :
      (p q : ℕ)
      → p ≤ a
      → q ≤ b
      → Near a b (p * b) (q * a)
      → 0 < p + q
      → Turn p q
          (ltb (2 * (q * a) + b) (2 * (p * b) + 2 * a))
          (ltb (2 * (p * b) + a) (2 * (q * a) + 2 * b))
  turn zero zero pa qb near some_left = absurd (omega arith)
  turn zero (suc q) pa qb near some_left =
      let no_x : ltb (2 * (suc q * a) + b) (2 * (0 * b) + 2 * a) ≡ false = ground arith in
      let go_y : ltb (2 * (0 * b) + a) (2 * (suc q * a) + 2 * b) ≡ true = ground arith in
      rw (no_x, go_y) (along_y _ q (omega (arith, near.0, near.1)))
  turn (suc p) zero pa qb near some_left =
      let go_x : ltb (2 * (0 * a) + b) (2 * (suc p * b) + 2 * a) ≡ true = ground arith in
      let no_y : ltb (2 * (suc p * b) + a) (2 * (0 * a) + 2 * b) ≡ false = ground arith in
      rw (go_x, no_y) (along_x p _ (omega (arith, near.0, near.1)))
  turn (suc p) (suc q) pa qb near some_left =
      elim (Bool-cases (ltb (2 * (suc q * a) + b) (2 * (suc p * b) + 2 * a))) [
        | inl go_x ↦ elim (Bool-cases (ltb (2 * (suc p * b) + a) (2 * (suc q * a) + 2 * b))) [
          | inl go_y ↦ rw (go_x, go_y) (both p q (ground arith))
          | inr no_y ↦ rw (go_x, no_y) (along_x p _ (ground arith))
        ]
        | inr no_x ↦
            let go_y : ltb (2 * (suc p * b) + a) (2 * (suc q * a) + 2 * b) ≡ true = ground arith in
            rw (no_x, go_y) (along_y _ q (ground arith))
      ]

  -- The rest of the loop with `p` columns and `q` rows left.
  abbrev loop : ℕ → ℕ → ℕ → ℕ → ℕ → Memory → Option Memory
  loop fuel x y P Q m = if_ended (line_loop fuel a b sx sy x2 y2 x y (err_word a b P Q) color m)

  -- The loop ends on that fuel, wherever it stands.
  abbrev EndsOn : ℕ → Type 0
  EndsOn fuel =
      (p q x y : ℕ) (m : Memory)
      → p + q < fuel
      → p ≤ a
      → q ≤ b
      → Near a b (p * b) (q * a)
      → Ahead sx p x x2
      → Ahead sy q y y2
      → Ended x2 y2 color m (loop fuel x y (p * b) (q * a) m)

  err_x :
      (p q : ℕ)
      → Near a b (suc p * b) (q * a)
      → Near a b (p * b) (q * a)
      → sub32 (err_word a b (suc p * b) (q * a)) b ≡ err_word a b (p * b) (q * a)
  err_x p q near near' = omega (arith, near, near')

  err_y :
      (p q : ℕ)
      → Near a b (p * b) (suc q * a)
      → Near a b (p * b) (q * a)
      → add32 (err_word a b (p * b) (suc q * a)) a ≡ err_word a b (p * b) (q * a)
  err_y p q near near' = omega (arith, near, near')

  err_xy :
      (p q : ℕ)
      → Near a b (suc p * b) (suc q * a)
      → Near a b (p * b) (q * a)
      → add32 (sub32 (err_word a b (suc p * b) (suc q * a)) b) a ≡ err_word a b (p * b) (q * a)
  err_xy p q near near' = omega (arith, near, near')

  -- The call behind the tests.
  abbrev rest : ℕ → ℕ → ℕ → ℕ → ℕ → Memory → Bool → Bool → Option Memory
  rest fuel p q x y m step_x step_y =
      let e = err_word a b (p * b) (q * a) in
      let e' : ℕ = if step_x then sub32 e b else e in
      if_ended (
        line_loop fuel a b sx sy x2 y2 (if step_x then add32 x sx else x)
          (if step_y then add32 y sy else y) (if step_y then add32 e' a else e') color m)

  rest_ends :
      (fuel p q x y : ℕ) (m : Memory) (tx ty : Bool)
      → EndsOn fuel
      → p + q < suc fuel
      → p ≤ a
      → q ≤ b
      → Near a b (p * b) (q * a)
      → Ahead sx p x x2
      → Ahead sy q y y2
      → Turn p q tx ty
      → Ended x2 y2 color m (rest fuel p q x y m tx ty)
  rest_ends fuel _ q x y m _ _ ends enough pa qb near ax ay (along_x p _ near') =
      rw (err_x p q near near') (
        ends p q (add32 x sx) y m (omega (arith, enough)) (omega (arith, pa)) qb near'
          (Ahead-step sx p x x2 (omega (arith, pa, ha)) ax) ay)
  rest_ends fuel p _ x y m _ _ ends enough pa qb near ax ay (along_y _ q near') =
      rw (err_y p q near near') (
        ends p q x (add32 y sy) m (omega (arith, enough)) pa (omega (arith, qb)) near' ax
          (Ahead-step sy q y y2 (omega (arith, qb, hb)) ay))
  rest_ends fuel _ _ x y m _ _ ends enough pa qb near ax ay (both p q near') =
      rw (err_xy p q near near') (
        ends p q (add32 x sx) (add32 y sy) m (omega (arith, enough)) (omega (arith, pa))
          (omega (arith, qb)) near' (Ahead-step sx p x x2 (omega (arith, pa, ha)) ax)
          (Ahead-step sy q y y2 (omega (arith, qb, hb)) ay))

  line_ends : (fuel : ℕ) → EndsOn fuel
  unfolding line_loop if_ended
  line_ends zero p q x y m enough pa qb near ax ay = absurd (omega (arith, enough))
  line_ends (suc fuel) p q x y m enough pa qb near ax ay =
      let at_end : (x == x2 && y == y2) ≡ (p + q == 0) =
        rw
          (
            Ahead-test sx p x x2 (omega (arith, pa, ha)) ax,
            Ahead-test sy q y y2 (omega (arith, qb, hb)) ay,
          )
          (ground arith) in
      let m' = graphics_put_pixel x y color m in
      rw at_end (elim (Bool-cases (p + q == 0)) [
        | inl done ↦ rw done (record {
          result = m';
          returned = refl;
          on_screen = put_pixel-OnScreen x y color m;
          last = λ hx hy. pixel-put_pixel x y color m x2 y2 hx hy ∙ rw (at_end ∙ done) refl;
        })
        | inr more ↦
            let t = turn p q pa qb near (ground arith) in
            let t' = rest_ends fuel p q x y m' _ _ (line_ends fuel) enough pa qb near ax ay t in
            rw (more, test_x a b (p * b) (q * a) ha hb near, test_y a b (p * b) (q * a) ha hb near)
              (after_pixel x y m t')
      ])

start-Ahead :
    (x x2 : ℕ)
    → x < 2 ^ 32
    → x2 < 2 ^ 32
    → magnitude (sub32 x2 x) < 2 ^ 28
    → Ahead (direction (sub32 x2 x)) (magnitude (sub32 x2 x)) x x2
start-Ahead x x2 wx wx2 small = ground arith

start_err : (a b : ℕ) → a < 2 ^ 28 → b < 2 ^ 28 → sub32 a b ≡ err_word a b (a * b) (b * a)
start_err a b ha hb = omega arith

-- `graphics_draw_line` ends for points that lie less than 2^28 apart in each direction, wherever they
-- lie. It has coloured the end point, if that is on the screen, and has written nothing outside of
-- the screen.
pub draw_line_ends :
    (x1 y1 x2 y2 color : ℕ) (m : Memory)
    → x1 < 2 ^ 32
    → y1 < 2 ^ 32
    → x2 < 2 ^ 32
    → y2 < 2 ^ 32
    → magnitude (sub32 x2 x1) < 2 ^ 28
    → magnitude (sub32 y2 y1) < 2 ^ 28
    → Ended x2 y2 color m (graphics_draw_line x1 y1 x2 y2 color m)
unfolding graphics_draw_line line_rounds
draw_line_ends x1 y1 x2 y2 color m wx1 wy1 wx2 wy2 ha hb =
    let a : ℕ = magnitude (sub32 x2 x1) in
    let b : ℕ = magnitude (sub32 y2 y1) in
    rw (start_err a b ha hb) (
      line_ends a b (direction (sub32 x2 x1)) (direction (sub32 y2 y1)) x2 y2 color ha hb
        (a + b + 1) a b x1 y1 m (omega arith) (omega arith) (omega arith) (omega arith)
        (start-Ahead x1 x2 wx1 wx2 ha) (start-Ahead y1 y2 wy1 wy2 hb))
