-- ===== src/Gui/Windows.antt =====
-- kernel/gui.c: the list of windows and the active window.
use ace_os.Base.{
  ℕ, ◌+◌, ◌≤◌, ◌≡◌, ◌≢◌, ◌⊎◌, inl, inr, refl, ap, ◌∙◌, List, [], ◌∷◌, ◌++◌, Bool-cases, ◌==◌, leb,
  length, arith,
}
use ace_os.Fs.Blocks.{Allocator}
use ace_os.Gui.{
  Gui, max_windows, window_size, remove_window, last_window, gui_init, gui_create_window,
  gui_destroy_window,
}

abbrev pub Among : ℕ → List ℕ → Type 0
Among a [] = ⊥
Among a (x ∷ xs) = (a ≡ x) ⊎ Among a xs

-- At most 16 windows, none of them NULL; the active window is one of them, and NULL if there is none.
pub record IsGui {A : Allocator} (g : Gui A) : Type 0 where
  pub room : length g.windows ≤ max_windows
  pub some_address : (w : ℕ) → Among w g.windows → w ≢ 0
  pub active : ((g.windows ≡ []) × (g.active_window ≡ 0)) ⊎ Among g.active_window g.windows

length-remove_window : (w : ℕ) (xs : List ℕ) → length (remove_window w xs) ≤ length xs
unfolding remove_window
length-remove_window w [] = omega arith
length-remove_window w (v ∷ xs) = elim (Bool-cases (v == w)) [
  | inl e ↦ rw e (omega arith)
  | inr e ↦ rw e (omega (arith, length-remove_window w xs))
]

-- What is left was there.
Among-remove_window : (a w : ℕ) (xs : List ℕ) → Among a (remove_window w xs) → Among a xs
unfolding remove_window
Among-remove_window a w [] m = m
Among-remove_window a w (v ∷ xs) m0 = elim (Bool-cases (v == w)) [
  | inl e ↦
      let back : Among a (remove_window w (v ∷ xs)) → Among a (v ∷ xs) = rw e (λ m. inr m) in
      back m0
  | inr e ↦
      let back : Among a (remove_window w (v ∷ xs)) → Among a (v ∷ xs) =
        rw e (λ m. elim m [ inl here ↦ inl here | inr m ↦ inr (Among-remove_window a w xs m) ]) in
      back m0
]

-- The others stay.
remove_window-Among : (a w : ℕ) (xs : List ℕ) → a ≢ w → Among a xs → Among a (remove_window w xs)
unfolding remove_window
remove_window-Among a w [] other m = m
remove_window-Among a w (v ∷ xs) other m = elim (Bool-cases (v == w)) [
  | inl e ↦ rw e (elim m [ inl here ↦ absurd (ground (arith, e, here, other)) | inr m ↦ m ])
  | inr e ↦ rw e (elim m [ inl here ↦ inl here | inr m ↦ inr (remove_window-Among a w xs other m) ])
]

last_window-Among : (xs : List ℕ) → ((xs ≡ []) × (last_window xs ≡ 0)) ⊎ Among (last_window xs) xs
unfolding last_window
last_window-Among [] = inl (refl, refl)
last_window-Among (w ∷ []) = inr (inl refl)
last_window-Among (w ∷ v ∷ xs) = elim (last_window-Among (v ∷ xs)) [
  | inl (e, z) ↦ absurd (cc e)
  | inr m ↦ inr (inr m)
]

Among-append : (a p : ℕ) (xs : List ℕ) → Among a (xs ++ p ∷ []) → Among a xs ⊎ (a ≡ p)
Among-append a p [] (inl e) = inr e
Among-append a p [] (inr m) = absurd m
Among-append a p (x ∷ xs) (inl e) = inl (inl e)
Among-append a p (x ∷ xs) (inr m) = elim (Among-append a p xs m) [
  | inl m ↦ inl (inr m)
  | inr e ↦ inr e
]

appended : (p : ℕ) (xs : List ℕ) → Among p (xs ++ p ∷ [])
appended p [] = inl refl
appended p (x ∷ xs) = inr (appended p xs)

length-append : (p : ℕ) (xs : List ℕ) → length (xs ++ p ∷ []) ≡ length xs + 1
length-append p [] = refl
length-append p (x ∷ xs) = omega (arith, length-append p xs)

module _ {A : Allocator} where
  init-IsGui : (g : Gui A) → IsGui (gui_init g)
  unfolding gui_init
  init-IsGui g = record {
    room = omega arith;
    some_address = λ w m. absurd m;
    active = inl (refl, refl);
  }

  create-IsGui :
      (g : Gui A) (title : List ℕ) (x y width height current : ℕ)
      → IsGui g
      → IsGui (gui_create_window g title x y width height current).1
  unfolding gui_create_window
  create-IsGui g title x y width height current v =
      let p = (A.malloc g.heap window_size).0 in
      elim (Bool-cases (leb max_windows (length g.windows))) [
        | inl e ↦ rw e v
        | inr e ↦ elim (Bool-cases (p == 0)) [
          | inl z ↦
              rw (e, z) record { room = v.room; some_address = v.some_address; active = v.active }
          | inr z ↦
              rw (e, z)
                record {
                  room = ground (arith, e, length-append p g.windows);
                  some_address = λ w m. elim (Among-append w p g.windows m) [
                    | inl m ↦ v.some_address w m
                    | inr here ↦ ground (arith, here, z)
                  ];
                  active = inr (appended p g.windows);
                }
        ]
      ]

  destroy-IsGui : (g : Gui A) (w : ℕ) → IsGui g → IsGui (gui_destroy_window g w)
  unfolding gui_destroy_window remove_window
  destroy-IsGui g w v = elim (Bool-cases (w == 0)) [
    | inl e ↦ rw e v
    | inr e ↦
        let left = remove_window w g.windows in
        let room : length left ≤ max_windows =
          omega (arith, v.room, length-remove_window w g.windows) in
        let some_address : (a : ℕ) → Among a left → a ≢ 0 =
          λ a m. v.some_address a (Among-remove_window a w g.windows m) in
        elim (Bool-cases (g.active_window == w)) [
          | inl z ↦
              rw (e, z)
                record { room = room; some_address = some_address; active = last_window-Among left }
          | inr z ↦
              rw (e, z)
                record {
                  room = room;
                  some_address = some_address;
                  active = elim v.active [
                    | inl (none, no_window) ↦ inl (ap (remove_window w) none ∙ refl, no_window)
                    | inr m ↦
                        inr (remove_window-Among g.active_window w g.windows (ground (arith, z)) m)
                  ];
                }
        ]
  ]

  -- The states that the windows can reach: any window may be created and any address destroyed.
  pub data Reach : Gui A → Type 0 where
    init : (g : Gui A) → Reach (gui_init g)
    create :
        {g : Gui A} (title : List ℕ) (x y width height current : ℕ)
        → Reach g
        → Reach (gui_create_window g title x y width height current).1
    destroy : {g : Gui A} (w : ℕ) → Reach g → Reach (gui_destroy_window g w)

-- In every state that creating and destroying windows can reach, there are at most 16 windows, none of
-- them NULL, and the active window is one of them, or NULL if there is none.
pub Reach-IsGui : {A : Allocator} {g : Gui A} → Reach g → IsGui g
Reach-IsGui (init g) = init-IsGui g
Reach-IsGui (create {g} title x y width height current r) =
    create-IsGui g title x y width height current (Reach-IsGui r)
Reach-IsGui (destroy {g} w r) = destroy-IsGui g w (Reach-IsGui r)
