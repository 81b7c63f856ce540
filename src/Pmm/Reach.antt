-- ===== src/Pmm/Reach.antt =====
-- Every state of the frame allocator that calls to kernel/pmm.c can reach.
use ace_os.Base.{ℕ, ◌+◌, ◌%◌, ◌≤◌, ◌≡◌, ◌⊎◌, inl, inr, ◌∙◌, ap, arith}
use ace_os.Pmm.{
  Pmm, page_size, memory_start, memory_size, pmm_init, mark_bitmap, pmm_mark_frame_used,
  pmm_alloc_frame, pmm_free_frame,
}
use ace_os.Pmm.Invariant.{IsValid, pmm_init-IsValid, mark-IsValid}
use ace_os.Pmm.Alloc.{alloc_first_fit}
use ace_os.Pmm.Free.{free-IsValid}

pub data Reach : Pmm → Type 0 where
  init : Reach pmm_init
  alloc : {p : Pmm} → Reach p → Reach (pmm_alloc_frame p).1
  free : {p : Pmm} (a : ℕ) → Reach p → Reach (pmm_free_frame p a)
  mark : {p : Pmm} (i : ℕ) → Reach p → Reach (pmm_mark_frame_used p i)

total_mark : (p : Pmm) (i : ℕ) → (pmm_mark_frame_used p i).total_frames ≡ p.total_frames
unfolding pmm_mark_frame_used
total_mark p i = ground arith

total_free : (p : Pmm) (a : ℕ) → (pmm_free_frame p a).total_frames ≡ p.total_frames
unfolding pmm_free_frame
total_free p a = ground arith

total_alloc : (p : Pmm) → IsValid p → (pmm_alloc_frame p).1.total_frames ≡ p.total_frames
total_alloc p v = elim (alloc_first_fit p v) [
  | inl (_, e, _) ↦ ap (λ (q : Pmm). q.total_frames) e
  | inr (i, t) ↦ t.same_total
]

total_init : pmm_init.total_frames ≡ 7680
unfolding pmm_init mark_bitmap pmm_mark_frame_used
total_init = ground arith

Reach-IsValid : {p : Pmm} → Reach p → IsValid p
Reach-IsValid init = pmm_init-IsValid
Reach-IsValid (alloc {p} r) = elim (alloc_first_fit p (Reach-IsValid r)) [
  | inl (_, e, _) ↦ rw e (Reach-IsValid r)
  | inr (i, t) ↦ t.valid
]
Reach-IsValid (free {p} a r) = free-IsValid p (Reach-IsValid r) a
Reach-IsValid (mark {p} i r) = mark-IsValid p i (Reach-IsValid r)

Reach-total : {p : Pmm} → Reach p → p.total_frames ≡ 7680
Reach-total init = total_init
Reach-total (alloc {p} r) = total_alloc p (Reach-IsValid r) ∙ Reach-total r
Reach-total (free {p} a r) = total_free p a ∙ Reach-total r
Reach-total (mark {p} i r) = total_mark p i ∙ Reach-total r

-- Whatever calls came before, an allocation returns 0 or the address of a page-aligned frame
-- between 2 MB and 32 MB, and the state keeps the invariant.
pub Reach-alloc :
    {p : Pmm}
    → Reach p
    → let (a, p') = pmm_alloc_frame p in
      IsValid p'
      × ((a ≡ 0)
          ⊎ ((memory_start ≤ a)
              × (a + page_size ≤ memory_start + memory_size)
              × (a % page_size ≡ 0)))
Reach-alloc {p} r = (
  Reach-IsValid (alloc r),
  elim (alloc_first_fit p (Reach-IsValid r)) [
    | inl (z, _, _) ↦ inl z
    | inr (i, t) ↦ inr (
      omega (arith, t.at_address),
      omega (arith, t.at_address, t.in_memory, Reach-total r),
      omega (arith, t.at_address),
    )
  ],
)
