-- ===== src/Pmm/Alloc.antt =====
-- `pmm_alloc_frame` of kernel/pmm.c takes the lowest free frame.
use ace_os.Base.{
  ℕ, suc, ◌+◌, ◌-◌, ◌*◌, ◌≤◌, ◌<◌, ◌≡◌, refl, ◌∙◌, ◌≢◌, ◌⊎◌, inl, inr, true, false, none, arith,
  if◌then◌else◌, ◌==◌, leb, Bool-cases, Option-cases,
}
use ace_os.Pmm.{Pmm, page_size, memory_start, address, is_free, set_used, scan, pmm_alloc_frame}
use ace_os.Pmm.Bitmap.{is_free-set_used, length-set_used}
use ace_os.Pmm.Count.{count-pos, count-zero, scan-some, scan-none}
use ace_os.Pmm.Invariant.{IsValid, marks_fewer}

-- From `p` the lowest free frame `i` was taken, which leaves `p'`.
pub record Took (p : Pmm) (i : ℕ) (a : ℕ) (p' : Pmm) : Type 0 where
  pub in_memory : i < p.total_frames
  pub at_address : a ≡ memory_start + i * page_size
  pub was_free : is_free p.bitmap i ≡ true
  pub lowest : (j : ℕ) → j < i → is_free p.bitmap j ≡ false
  pub only : (j : ℕ) → is_free p'.bitmap j ≡ (if j == i then false else is_free p.bitmap j)
  pub one_less : p.free_frames ≡ suc p'.free_frames
  pub same_total : p'.total_frames ≡ p.total_frames
  pub valid : IsValid p'

-- No frame is free.
abbrev pub Exhausted : Pmm → Type 0
Exhausted p = (j : ℕ) → j < p.total_frames → is_free p.bitmap j ≡ false

abbrev pub taken : Pmm → ℕ → Pmm
taken p i = record p {
  bitmap = set_used p.bitmap i;
  free_frames = p.free_frames - 1;
  first_free_frame = if i == p.first_free_frame then p.first_free_frame + 1 else p.first_free_frame;
}

module _ (p : Pmm) (v : IsValid p) where
  below_hint :
      (i : ℕ)
      → p.first_free_frame ≤ i
      → ((j : ℕ) → p.first_free_frame ≤ j → j < i → is_free p.bitmap j ≡ false)
      → (j : ℕ) → j < i
      → is_free p.bitmap j ≡ false
  below_hint i h k j q = elim (Bool-cases (leb p.first_free_frame j)) [
    | inl le ↦ k j (ground arith) q
    | inr lt ↦ v.hint_low j (ground arith)
  ]

  taken-IsValid :
      (i : ℕ)
      → p.first_free_frame ≤ i
      → i < p.total_frames
      → is_free p.bitmap i ≡ true
      → IsValid (taken p i)
  taken-IsValid i h k f = record {
    mapped = omega (arith, v.mapped, length-set_used p.bitmap i);
    addressed = v.addressed;
    counted = omega (arith, v.counted, marks_fewer p.bitmap i p.total_frames v.mapped k f);
    hint_in = ground (arith, v.hint_in);
    hint_low = λ j q.
        is_free-set_used p.bitmap i j (omega (arith, v.mapped)) ∙ elim (Bool-cases (j == i)) [
          | inl e ↦ rw e
          | inr ne ↦ rw ne (v.hint_low j (ground arith))
        ];
  }

  taken-Took :
      (i : ℕ)
      → p.first_free_frame ≤ i
      → i < p.total_frames
      → is_free p.bitmap i ≡ true
      → ((j : ℕ) → p.first_free_frame ≤ j → j < i → is_free p.bitmap j ≡ false)
      → Took p i (address i) (taken p i)
  taken-Took i h k f low = record {
    in_memory = k;
    at_address = omega (arith, v.addressed);
    was_free = f;
    lowest = below_hint i h low;
    only = λ j. is_free-set_used p.bitmap i j (omega (arith, v.mapped));
    one_less = omega (arith, v.counted, marks_fewer p.bitmap i p.total_frames v.mapped k f);
    same_total = refl;
    valid = taken-IsValid i h k f;
  }

  exhausted : p.free_frames ≡ 0 → Exhausted p
  exhausted e j h = count-zero (is_free p.bitmap) p.total_frames j (omega (arith, v.counted)) h

  -- Under the invariant the first loop finds a frame, so the second is never entered.
  found :
      p.free_frames ≢ 0
      → scan p.bitmap p.first_free_frame (p.total_frames - p.first_free_frame) ≢ none
  found ne e =
      let (i, h, f) = count-pos (is_free p.bitmap) p.total_frames (omega (arith, v.counted)) in
      let used =
        below_hint p.total_frames v.hint_in
          (λ j a b. scan-none p.bitmap p.first_free_frame _ e j a (omega (arith, v.hint_in))) i h in
      ground arith

  -- `pmm_alloc_frame` returns 0 and changes nothing when no frame is free; else it takes the
  -- lowest free frame, returns its address, leaves every other frame as it was, counts one free
  -- frame less, and keeps the invariant.
  pub alloc_first_fit :
      let (a, p') = pmm_alloc_frame p in
      ((a ≡ 0) × (p' ≡ p) × Exhausted p) ⊎ ((i : ℕ) × Took p i a p')
  unfolding pmm_alloc_frame
  alloc_first_fit = elim (Bool-cases (p.free_frames == 0)) [
    | inl z ↦ rw z (inl (refl, refl, exhausted (ground arith)))
    | inr nz ↦
        elim (Option-cases
          (scan p.bitmap p.first_free_frame (p.total_frames - p.first_free_frame))) [
            | inl e ↦ absurd (found (ground arith) e)
            | inr (i, e) ↦
                let (a, b, c, d) = scan-some p.bitmap p.first_free_frame _ e in
                rw (nz, e) (inr (i, taken-Took i a (omega (arith, v.hint_in)) c d))
          ]
  ]
