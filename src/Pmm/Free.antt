-- ===== src/Pmm/Free.antt =====
-- `pmm_free_frame` of kernel/pmm.c, and what it undoes.
use ace_os.Base.{
  ℕ, suc, ◌+◌, ◌-◌, ◌*◌, ◌/◌, ◌%◌, ◌^◌, ◌≤◌, ◌<◌, ◌≡◌, refl, sym, ◌∙◌, ap, ◌≢◌, ◌⊎◌, inl, inr, true,
  false, arith, if◌then◌else◌, ◌==◌, leb, ltb, Bool-cases,
}
use ace_os.Pmm.{Pmm, page_size, memory_start, is_free, set_free, pmm_alloc_frame, pmm_free_frame}
use ace_os.Pmm.Bitmap.{is_free-set_free, length-set_free}
use ace_os.Pmm.Count.{count, count-le, count_more}
use ace_os.Pmm.Invariant.{IsValid}
use ace_os.Pmm.Alloc.{alloc_first_fit}

-- The address lies in frame `i`.
pub record InFrame (p : Pmm) (a i : ℕ) : Type 0 where
  pub in_memory : i < p.total_frames
  pub from : memory_start + i * page_size ≤ a
  pub to : a < memory_start + i * page_size + page_size

abbrev released : Pmm → ℕ → Pmm
released p i = record p {
  bitmap = set_free p.bitmap i;
  free_frames = (p.free_frames + 1) % 2 ^ 32;
  first_free_frame = if ltb i p.first_free_frame then i else p.first_free_frame;
}

free_inside :
    (p : Pmm) {a i : ℕ}
    → InFrame p a i
    → pmm_free_frame p a ≡ (if is_free p.bitmap i then p else released p i)
unfolding pmm_free_frame
free_inside p {a} {i} w =
    let low : ltb a memory_start ≡ false = ground (arith, w.from) in
    let e : (a - memory_start) / page_size ≡ i = omega (arith, w.from, w.to) in
    let in_map : leb p.total_frames i ≡ false = ground (arith, w.in_memory) in rw (low, e, in_map)

frees_more :
    (p : Pmm) (i : ℕ)
    → IsValid p
    → i < p.total_frames
    → is_free p.bitmap i ≡ false
    → count (is_free (set_free p.bitmap i)) p.total_frames ≡ suc p.free_frames
frees_more p i v h f =
    count_more (is_free (set_free p.bitmap i)) (is_free p.bitmap) p.total_frames i
      (λ j ne. ground (arith, is_free-set_free p.bitmap i j (omega (arith, v.mapped)))) h
      (ground (arith, is_free-set_free p.bitmap i i (omega (arith, v.mapped)))) f
    ∙ ap suc (sym v.counted)

module _ (p : Pmm) (v : IsValid p) where
  released-IsValid :
      (i : ℕ) → i < p.total_frames → is_free p.bitmap i ≡ false → IsValid (released p i)
  released-IsValid i h f = record {
    mapped = omega (arith, v.mapped, length-set_free p.bitmap i);
    addressed = v.addressed;
    counted = omega (
      arith,
      frees_more p i v h f,
      v.addressed,
      count-le (is_free (set_free p.bitmap i)) p.total_frames,
    );
    hint_in = ground (arith, v.hint_in);
    hint_low = λ j q.
        is_free-set_free p.bitmap i j (omega (arith, v.mapped)) ∙ elim (Bool-cases (j == i)) [
          | inl e ↦ absurd (ground arith)
          | inr ne ↦ rw ne (v.hint_low j (ground arith))
        ];
  }

  -- Freeing an address inside frame `i` makes exactly frame `i` free, counts it once even when it
  -- was free before, and keeps the invariant.
  pub free_frame_lem :
      {a i : ℕ}
      → InFrame p a i
      → let p' = pmm_free_frame p a in
        ((j : ℕ) → is_free p'.bitmap j ≡ (if j == i then true else is_free p.bitmap j))
        × (p'.free_frames ≡ (if is_free p.bitmap i then p.free_frames else p.free_frames + 1))
        × IsValid p'
  free_frame_lem {a} {i} w = rw (free_inside p w) (elim (Bool-cases (is_free p.bitmap i)) [
    | inl f ↦ rw f (
      (λ j. elim (Bool-cases (j == i)) [
        | inl e ↦ let e' : j ≡ i = ground arith in rw (e, e') f
        | inr ne ↦ rw ne
      ]),
      refl,
      v,
    )
    | inr f ↦ rw f (
      (λ j. is_free-set_free p.bitmap i j (omega (arith, v.mapped, w.in_memory))),
      omega (
        arith,
        frees_more p i v w.in_memory f,
        v.addressed,
        count-le (is_free (set_free p.bitmap i)) p.total_frames,
      ),
      released-IsValid i w.in_memory f,
    )
  ])

  -- An address outside the managed memory is ignored.
  pub free_outside :
      (a : ℕ)
      → (a < memory_start) ⊎ (memory_start + p.total_frames * page_size ≤ a)
      → pmm_free_frame p a ≡ p
  unfolding pmm_free_frame
  free_outside a h = ground arith

  pub free-IsValid : (a : ℕ) → IsValid (pmm_free_frame p a)
  unfolding pmm_free_frame
  free-IsValid a = elim (Bool-cases (ltb a memory_start)) [
    | inl low ↦ rw low v
    | inr in_range ↦ elim (Bool-cases (leb p.total_frames ((a - memory_start) / page_size))) [
      | inl out ↦ rw (in_range, out) v
      | inr in_map ↦ elim (Bool-cases (is_free p.bitmap ((a - memory_start) / page_size))) [
        | inl f ↦ rw (in_range, in_map, f) v
        | inr f ↦
            rw (in_range, in_map, f)
              (released-IsValid ((a - memory_start) / page_size) (ground arith) f)
      ]
    ]
  ]

-- A frame that was allocated and is freed again is as free as before, like every other frame,
-- and the number of free frames is what it was.
pub free-alloc :
    (p : Pmm)
    → IsValid p
    → (pmm_alloc_frame p).0 ≢ 0
    → let (a, p') = pmm_alloc_frame p in
      let p'' = pmm_free_frame p' a in
      ((j : ℕ) → is_free p''.bitmap j ≡ is_free p.bitmap j) × (p''.free_frames ≡ p.free_frames)
free-alloc p v ne = elim (alloc_first_fit p v) [
  | inl (z, _, _) ↦ absurd (ne z)
  | inr (i, t) ↦
      let p' = (pmm_alloc_frame p).1 in
      let w : InFrame p' (pmm_alloc_frame p).0 i = record {
        in_memory = omega (arith, t.same_total, t.in_memory);
        from = omega (arith, t.at_address);
        to = omega (arith, t.at_address);
      } in
      let (exact, total, _) = free_frame_lem p' t.valid w in
      (
        λ j. exact j ∙ elim (Bool-cases (j == i)) [
          | inl e ↦ let e' : j ≡ i = ground arith in rw (e, e') (sym t.was_free)
          | inr other ↦ rw other (t.only j ∙ rw other)
        ],
        ground (arith, total, t.only i, t.one_less),
      )
]
