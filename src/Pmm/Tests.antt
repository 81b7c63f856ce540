-- ===== src/Pmm/Tests.antt =====
-- Runs of kernel/pmm.c on a memory of 64 frames.
use ace_os.Base.{
  ℕ, zero, suc, ◌+◌, ◌%◌, ◌≤◌, ◌<◌, ◌≡◌, refl, ◌≢◌, ◌⊎◌, true, false, [], ◌∷◌, arith, if◌then◌else◌,
  ◌==◌,
}
use ace_os.Pmm.{
  Pmm, page_size, memory_start, memory_size, is_free, scan, pmm_init, pmm_alloc_frame,
  pmm_free_frame,
}
use ace_os.Pmm.Count.{count}
use ace_os.Pmm.Invariant.{IsValid}
use ace_os.Pmm.Alloc.{Took, Exhausted, alloc_first_fit}
use ace_os.Pmm.Free.{InFrame, free_frame_lem}
use ace_os.Pmm.Reach.{init, alloc, free, Reach-alloc}

-- 64 frames, of which 0, 1, 2 and 33 are used.
abbrev small : Pmm
small = record {
  bitmap = 7 ∷ 2 ∷ [];
  bitmap_size = 2;
  total_frames = 64;
  free_frames = 60;
  first_free_frame = 3;
}

small_low : (j : ℕ) → j < 3 → is_free small.bitmap j ≡ false
unfolding is_free
small_low zero h = refl
small_low (suc zero) h = refl
small_low (suc (suc zero)) h = refl
small_low (suc (suc (suc j))) h = absurd (omega arith)

small-IsValid : IsValid small
unfolding count is_free
small-IsValid = record {
  mapped = omega arith;
  addressed = omega arith;
  counted = refl;
  hint_in = omega arith;
  hint_low = small_low;
}

takes_frame_3 : (pmm_alloc_frame small).0 ≡ 0x203000
unfolding pmm_alloc_frame scan is_free
takes_frame_3 = refl

takes_memory : (pmm_alloc_frame small).0 ≢ 0
takes_memory e = absurd (omega (arith, takes_frame_3, e))

alloc_first_fit_example :
    let (a, p') = pmm_alloc_frame small in
    ((a ≡ 0) × (p' ≡ small) × Exhausted small) ⊎ ((i : ℕ) × Took small i a p')
alloc_first_fit_example = alloc_first_fit small small-IsValid

InFrame-33 : InFrame small 0x221010 33
InFrame-33 = omega arith

free_frame_lem_example :
    let p' = pmm_free_frame small 0x221010 in
    ((j : ℕ) → is_free p'.bitmap j ≡ (if j == 33 then true else is_free small.bitmap j))
    × (p'.free_frames ≡ (if is_free small.bitmap 33 then 60 else 60 + 1))
    × IsValid p'
free_frame_lem_example = free_frame_lem small small-IsValid InFrame-33

Reach-alloc_example :
    let (a, p') = pmm_alloc_frame (pmm_free_frame (pmm_alloc_frame pmm_init).1 0x201000) in
    IsValid p'
    × ((a ≡ 0)
        ⊎ ((memory_start ≤ a) × (a + page_size ≤ memory_start + memory_size) × (a % page_size ≡ 0)))
Reach-alloc_example = Reach-alloc (free 0x201000 (alloc init))
