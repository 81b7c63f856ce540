-- ===== src/Pmm/Invariant.antt =====
-- The representation invariant of the frame allocator in kernel/pmm.c.
use ace_os.Base.{
  ℕ, zero, suc, ◌+◌, ◌*◌, ◌/◌, ◌%◌, ◌^◌, ◌≤◌, ◌<◌, ◌≡◌, refl, sym, ◌∙◌, true, false, List, arith,
  if◌then◌else◌, ◌==◌, leb, length, Bool-cases, inl, inr, get_or-replicate, length-replicate,
  replicate,
}
use ace_os.Base.Bits.{bit-zero, mask_test}
use ace_os.Pmm.{
  Pmm, page_size, memory_start, is_free, set_used, pmm_mark_frame_used, mark_bitmap, pmm_init,
}
use ace_os.Pmm.Bitmap.{is_free-set_used, length-set_used}
use ace_os.Pmm.Count.{count, count-le, count_more, count_all}

-- Every frame has a bit and an address, `free_frames` counts the clear bits, and no frame below
-- the hint is free.
pub record IsValid (p : Pmm) : Type 0 where
  pub mapped : p.total_frames ≤ 32 * length p.bitmap
  pub addressed : memory_start + p.total_frames * page_size ≤ 2 ^ 32
  pub counted : p.free_frames ≡ count (is_free p.bitmap) p.total_frames
  pub hint_in : p.first_free_frame ≤ p.total_frames
  pub hint_low : (j : ℕ) → j < p.first_free_frame → is_free p.bitmap j ≡ false

pub marks_fewer :
    (m : List ℕ) (i n : ℕ)
    → n ≤ 32 * length m
    → i < n
    → is_free m i ≡ true
    → count (is_free m) n ≡ suc (count (is_free (set_used m i)) n)
marks_fewer m i n h p f =
    count_more (is_free m) (is_free (set_used m i)) n i
      (λ j ne. ground (arith, is_free-set_used m i j (omega arith))) p f
      (ground (arith, is_free-set_used m i i (omega arith)))

-- `pmm_mark_frame_used` takes exactly the given frame out of the free ones, if it is a frame.
mark_lem :
    (p : Pmm) (i j : ℕ)
    → IsValid p
    → is_free (pmm_mark_frame_used p i).bitmap j ≡ (
        if leb p.total_frames i
        then is_free p.bitmap j
        else if j == i
        then false
        else is_free p.bitmap j)
unfolding pmm_mark_frame_used
mark_lem p i j v = elim (Bool-cases (leb p.total_frames i)) [
  | inl out ↦ rw out
  | inr in_map ↦ elim (Bool-cases (is_free p.bitmap i)) [
    | inl f ↦ rw (in_map, f) (is_free-set_used p.bitmap i j (ground (arith, v.mapped)))
    | inr f ↦
        rw (in_map, f)
          (elim (Bool-cases (j == i)) [
            | inl e ↦ let e' : j ≡ i = ground arith in rw (e, e') f
            | inr ne ↦ rw ne
          ])
  ]
]

pub mark-IsValid : (p : Pmm) (i : ℕ) → IsValid p → IsValid (pmm_mark_frame_used p i)
unfolding pmm_mark_frame_used
mark-IsValid p i v = elim (Bool-cases (leb p.total_frames i)) [
  | inl out ↦ rw out v
  | inr in_map ↦ elim (Bool-cases (is_free p.bitmap i)) [
    | inr f ↦ rw (in_map, f) v
    | inl f ↦
        rw (in_map, f)
          (record {
            mapped = omega (arith, v.mapped, length-set_used p.bitmap i);
            addressed = v.addressed;
            counted = ground (
              arith,
              v.counted,
              v.addressed,
              count-le (is_free p.bitmap) p.total_frames,
              marks_fewer p.bitmap i p.total_frames v.mapped (ground arith) f,
            );
            hint_in = v.hint_in;
            hint_low = λ j h.
                is_free-set_used p.bitmap i j (ground (arith, v.mapped))
                ∙ (ground (arith, v.hint_low j h));
          })
  ]
]

pub mark_bitmap-IsValid : (n i : ℕ) (p : Pmm) → IsValid p → IsValid (mark_bitmap n i p)
unfolding mark_bitmap
mark_bitmap-IsValid zero i p v = v
mark_bitmap-IsValid (suc n) i p v =
    mark_bitmap-IsValid n (i + 1) (pmm_mark_frame_used p i) (mark-IsValid p i v)

is_free_cleared : (n j : ℕ) → is_free (replicate n 0) j ≡ true
unfolding is_free
is_free_cleared n j =
    rw (get_or-replicate {A = ℕ} n (j / 32) 0) (mask_test (j % 32) 0 ∙ rw (bit-zero (j % 32)))

cleared : ℕ → ℕ → Pmm
cleared words frames = record {
  bitmap = replicate words 0;
  bitmap_size = words;
  total_frames = frames;
  free_frames = frames;
  first_free_frame = 0;
}

cleared-IsValid :
    (words frames : ℕ)
    → frames ≤ 32 * words
    → memory_start + frames * page_size ≤ 2 ^ 32
    → IsValid (cleared words frames)
unfolding cleared
cleared-IsValid words frames h k = record {
  mapped = omega (arith, length-replicate {A = ℕ} words 0);
  addressed = k;
  counted = sym (count_all (is_free (replicate words 0)) frames (λ j p. is_free_cleared words j));
  hint_in = omega arith;
  hint_low = λ j p. absurd (omega arith);
}

-- `pmm_init` establishes the invariant, and takes the bitmap's own frame and no other.
pub pmm_init-IsValid : IsValid pmm_init
unfolding pmm_init cleared
pmm_init-IsValid =
    mark_bitmap-IsValid 1 0 (cleared 240 7680)
      (cleared-IsValid 240 7680 (omega arith) (omega arith))

-- After `pmm_init` the frame of the bitmap itself is used, every other frame is free, and the
-- count says so.
pub pmm_init_frames :
    ((j : ℕ) → is_free pmm_init.bitmap j ≡ (if j == 0 then false else true))
    × (pmm_init.free_frames ≡ 7679)
unfolding pmm_init cleared mark_bitmap
pmm_init_frames = (
  λ j.
      mark_lem (cleared 240 7680) 0 j (cleared-IsValid 240 7680 (omega arith) (omega arith))
      ∙ rw is_free_cleared refl,
  unfold pmm_mark_frame_used in (rw is_free_cleared refl),
)
