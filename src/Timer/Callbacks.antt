-- ===== src/Timer/Callbacks.antt =====
-- The callback table of drivers/timer.c.
use ace_os.Base.{
  ℕ, zero, suc, ◌+◌, ◌-◌, ◌≤◌, ◌<◌, ◌≡◌, refl, sym, ◌∙◌, ap, ◌≢◌, ◌⊎◌, Bool, false, arith,
  if◌then◌else◌, ◌==◌, leb, none, some, List, [], ◌∷◌, ◌++◌, ltb, length, get_or, set, Bool-cases,
  Option-cases, subst, inl, inr, get_or-set_self, get_or-set_ne, length-set, ◌&&◌,
}
use ace_os.Timer.{
  Timer, max_timer_callbacks, called, timer_handler, timer_register_callback, shift_down,
  find_callback, timer_unregister_callback,
}

pub record IsTable (t : Timer) : Type 0 where
  pub storage : length t.timer_callbacks ≡ max_timer_callbacks
  pub count_in : t.callback_count ≤ max_timer_callbacks

called-set : (l : List ℕ) (i n j c : ℕ) → i + n ≤ j → called (set l j c) i n ≡ called l i n
unfolding called
called-set l i zero j c h = refl
called-set l i (suc n) j c h =
    ground (arith, get_or-set_ne l j i c 0 (omega arith), called-set l (i + 1) n j c (omega arith))

called-suc :
    (l : List ℕ) (i n : ℕ)
    → called l i (suc n)
      ≡ (if get_or l i 0 == 0 then called l (i + 1) n else get_or l i 0 ∷ called l (i + 1) n)
unfolding called
called-suc l i n = refl

called_snoc :
    (l : List ℕ) (i n j : ℕ)
    → i + n ≡ j
    → get_or l j 0 ≢ 0
    → called l i (suc n) ≡ called l i n ++ (get_or l j 0 ∷ [])
called_snoc l i zero j e nz =
    let e' : i ≡ j = omega arith in
    let used : (get_or l j 0 == 0) ≡ false = ground arith in
    rw (called-suc l i zero, e', used) (unfold called in refl)
called_snoc l i (suc n) j e nz = elim (Bool-cases (get_or l i 0 == 0)) [
  | inl z ↦
      let skip : called l i (suc n) ≡ called l (i + 1) n = called-suc l i n ∙ rw z in
      called-suc l i (suc n)
      ∙ rw z (called_snoc l (i + 1) n j (omega arith) nz)
      ∙ ap (λ k. k ++ (get_or l j 0 ∷ [])) (sym skip)
  | inr z ↦
      let first : called l i (suc n) ≡ get_or l i 0 ∷ called l (i + 1) n =
        (called-suc l i n ∙ rw z) in
      called-suc l i (suc n)
      ∙ rw z (ap (λ k. get_or l i 0 ∷ k) (called_snoc l (i + 1) n j (omega arith) nz))
      ∙ ap (λ k. k ++ (get_or l j 0 ∷ [])) (sym first)
]

-- A callback registered in a table with room is called by the next interrupt, after those that were
-- called before; a full table stays as it is.
pub register_calls :
    (t : Timer) (m : Bool) (c : ℕ)
    → IsTable t
    → c ≢ 0
    → (timer_handler m (timer_register_callback t c)).1 ≡ (
        if ltb t.callback_count max_timer_callbacks
        then (timer_handler m t).1 ++ (c ∷ [])
        else (timer_handler m t).1)
unfolding timer_handler timer_register_callback
register_calls t m c v nz = elim (Bool-cases (ltb t.callback_count max_timer_callbacks)) [
  | inr full ↦ rw full
  | inl room ↦
      let l = set t.timer_callbacks t.callback_count c in
      let at : get_or l t.callback_count 0 ≡ c =
        (get_or-set_self t.timer_callbacks t.callback_count c 0 (ground (arith, v.storage))) in
      rw room (
        ap (called l 0) (omega arith)
        ∙ called_snoc l 0 t.callback_count t.callback_count (omega arith) (rw at nz)
        ∙ rw at (
            ap (λ k. k ++ (c ∷ []))
              (called-set t.timer_callbacks 0 t.callback_count t.callback_count c (omega arith))))
]

get_or-shift_down :
    (l : List ℕ) (i n j : ℕ)
    → i + n < length l
    → get_or (shift_down l i n) j 0
      ≡ (if leb i j && ltb j (i + n) then get_or l (j + 1) 0 else get_or l j 0)
unfolding shift_down
get_or-shift_down l i zero j h = ground arith
get_or-shift_down l i (suc n) j h =
    let l' = set l i (get_or l (i + 1) 0) in
    let rest =
      get_or-shift_down l' (i + 1) n j (omega (arith, length-set l i (get_or l (i + 1) 0))) in
    rest ∙ elim (Bool-cases (i == j)) [
      | inl e ↦
          let e' : j ≡ i = ground arith in
          ground (arith, get_or-set_self l i (get_or l (i + 1) 0) 0 (omega arith), e')
      | inr ne ↦ ground (
        arith,
        get_or-set_ne l i j (get_or l (i + 1) 0) 0 (ground arith),
        get_or-set_ne l i (j + 1) (get_or l (i + 1) 0) 0,
      )
    ]

length-shift_down : (l : List ℕ) (i n : ℕ) → length (shift_down l i n) ≡ length l
unfolding shift_down
length-shift_down l i zero = refl
length-shift_down l i (suc n) =
    length-shift_down (set l i (get_or l (i + 1) 0)) (i + 1) n ∙ length-set l i (get_or l (i + 1) 0)

find-some :
    (l : List ℕ) (c i n : ℕ) {k : ℕ}
    → find_callback l c i n ≡ some k
    → (i ≤ k) × (k < i + n) × (get_or l k 0 ≡ c)
unfolding find_callback
find-some l c i zero e = absurd (ground arith)
find-some l c i (suc n) {k} e = elim (Bool-cases (get_or l i 0 == c)) [
  | inl f ↦ let e' : i ≡ k = ground arith in (omega arith, omega arith, rw (← e') (ground arith))
  | inr f ↦
      let (a, b, d) = find-some l c (i + 1) n {k = k} (ground arith) in
      (omega arith, omega arith, d)
]

find-none :
    (l : List ℕ) (c i n : ℕ)
    → find_callback l c i n ≡ none
    → (j : ℕ) → i ≤ j
    → j < i + n
    → get_or l j 0 ≢ c
unfolding find_callback
find-none l c i zero e j p q = absurd (omega arith)
find-none l c i (suc n) e j p q = elim (Bool-cases (get_or l i 0 == c)) [
  | inl f ↦ absurd (ground arith)
  | inr f ↦ elim (Bool-cases (i == j)) [
    | inl s ↦ let s' : i ≡ j = ground arith in rw (← s') (ground arith)
    | inr s ↦ find-none l c (i + 1) n (ground arith) j (ground arith) (omega arith)
  ]
]

-- The table `t'` lacks the entry `i` of `t`, and the later entries have moved down.
pub record Dropped (t : Timer) (i : ℕ) (t' : Timer) : Type 0 where
  pub one_less : t'.callback_count + 1 ≡ t.callback_count
  pub moved :
      (j : ℕ)
      → j < t'.callback_count
      → get_or t'.timer_callbacks j 0
        ≡ (if ltb j i then get_or t.timer_callbacks j 0 else get_or t.timer_callbacks (j + 1) 0)
  pub cleared : get_or t'.timer_callbacks t'.callback_count 0 ≡ 0

abbrev dropped : Timer → ℕ → Timer
dropped t i = record t {
  timer_callbacks =
      set (shift_down t.timer_callbacks i (t.callback_count - 1 - i)) (t.callback_count - 1) 0;
  callback_count = t.callback_count - 1;
}

unregister_found :
    (t : Timer) (c i : ℕ)
    → find_callback t.timer_callbacks c 0 t.callback_count ≡ some i
    → timer_unregister_callback t c ≡ dropped t i
unfolding timer_unregister_callback
unregister_found t c i e = rw (e, timer_unregister_callback)

unregister_absent :
    (t : Timer) (c : ℕ)
    → find_callback t.timer_callbacks c 0 t.callback_count ≡ none
    → timer_unregister_callback t c ≡ t
unfolding timer_unregister_callback
unregister_absent t c e = rw (e, timer_unregister_callback)

dropped-Dropped : (t : Timer) (i : ℕ) → IsTable t → i < t.callback_count → Dropped t i (dropped t i)
dropped-Dropped t i v lt =
    let n = t.callback_count - 1 in
    let l = shift_down t.timer_callbacks i (n - i) in
    record {
      one_less = omega arith;
      moved = λ j h.
          get_or-set_ne l n j 0 0 (λ s. omega arith)
          ∙ get_or-shift_down t.timer_callbacks i (n - i) j (omega (arith, v.storage, v.count_in))
          ∙ ground arith;
      cleared =
          get_or-set_self l n 0 0
            (omega (arith, v.storage, v.count_in, length-shift_down t.timer_callbacks i (n - i)));
    }

-- `timer_unregister_callback` takes out one entry that holds the callback, moves the later entries
-- down by one, clears the last and counts one less; when no entry holds it, nothing changes.
pub unregister_lem :
    (t : Timer) (c : ℕ)
    → IsTable t
    → ((timer_unregister_callback t c ≡ t)
        × ((j : ℕ) → j < t.callback_count → get_or t.timer_callbacks j 0 ≢ c))
      ⊎ ((i : ℕ) × (i < t.callback_count)
          × (get_or t.timer_callbacks i 0 ≡ c)
          × Dropped t i (timer_unregister_callback t c))
unregister_lem t c v = elim (Option-cases (find_callback t.timer_callbacks c 0 t.callback_count)) [
  | inl e ↦ inl (
    unregister_absent t c e,
    λ j h. find-none t.timer_callbacks c 0 t.callback_count e j (omega arith) (omega arith),
  )
  | inr (i, e) ↦
      let (_, lt, here) = find-some t.timer_callbacks c 0 t.callback_count {k = i} e in
      inr (
        i,
        omega arith,
        here,
        subst (Dropped t i) (sym (unregister_found t c i e)) (dropped-Dropped t i v (omega arith)),
      )
]
