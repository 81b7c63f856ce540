-- ===== src/Vmm/Tests.antt =====
-- Runs of kernel/vmm.c.
use ace_os.Base.{
  ℕ, ◌+◌, ◌/◌, ◌%◌, ◌^◌, ◌≡◌, ◌≢◌, inl, inr, refl, sym, ◌∙◌, ◌<◌, true, false, if◌then◌else◌, ◌==◌,
  arith,
}
use ace_os.Pmm.{memory_start, pmm_init, pmm_alloc_frame}
use ace_os.Pmm.Reach.{init, Reach-alloc}
use ace_os.Pmm.Invariant.{pmm_init-IsValid}
use ace_os.Vmm.{
  PageEntry, Vmm, empty_entry, page_align, put, vmm_map_page, vmm_unmap_page,
  vmm_get_physical_address,
}
use ace_os.Vmm.Walk.{IsTree}
use ace_os.Vmm.Mapping.{IsSpace, mapping_lem}
use ace_os.Vmm.Unmapping.{unmapping_lem}

abbrev to : ℕ → PageEntry
to n = record { present = true; writable = true; user = false; other = 0; address = n }

-- The directory at 0x1000 has one table, at 0x2000, which maps page 1029 to frame 9.
abbrev mapped : Vmm
mapped = record {
  pmm = pmm_init;
  entry = put (put (λ p i. empty_entry) 0x1000 1 (to 2)) 0x2000 5 (to 9);
  current_page_directory = 0;
  kernel_page_directory = 0;
}

frame-ne : (a : ℕ) → 0 < a → a < memory_start → (pmm_alloc_frame pmm_init).0 ≢ a
frame-ne a h k = elim ((Reach-alloc init).1) [
  | inl z ↦ omega (arith, z)
  | inr (lo, _, _) ↦ omega (arith, lo)
]

one_table : (i : ℕ) → (mapped.entry 0x1000 i).present ≡ true → i ≡ 1
one_table i h = ground arith

mapped-IsTree : IsTree mapped 0x1000
mapped-IsTree = record {
  own = λ i h. let e = one_table i h in rw e (omega arith);
  apart = λ i j h k e. one_table i h ∙ sym (one_table j k);
}

mapped-IsSpace : IsSpace mapped 0x1000
mapped-IsSpace = record {
  frames = pmm_init-IsValid;
  own = mapped-IsTree.own;
  apart = mapped-IsTree.apart;
  fresh_directory = frame-ne 0x1000 (omega arith) (omega arith);
  fresh_table = λ i h.
      let e = one_table i h in rw e (λ k. frame-ne 0x2000 (omega arith) (omega arith) (sym k));
}

-- Page 1031 gets frame 768: 0x407010 is 0x300010, and page 1029 is still frame 9.
mapping_lem_example :
    vmm_get_physical_address (vmm_map_page mapped 0x1000 0x407123 0x300123 3) 0x1000 0x407010 ≡ (
      if 0x407010 / 2 ^ 12 == 0x407123 / 2 ^ 12
      then page_align 0x300123 + 0x407010 % 2 ^ 12
      else vmm_get_physical_address mapped 0x1000 0x407010)
mapping_lem_example =
    mapping_lem mapped 0x1000 0x407123 0x300123 3 0x407010 mapped-IsSpace (inl refl) refl
      (omega arith)

unmapping_lem_example :
    vmm_get_physical_address (vmm_unmap_page mapped 0x1000 0x405123) 0x1000 0x405010 ≡ (
      if 0x405010 / 2 ^ 12 == 0x405123 / 2 ^ 12
      then 0
      else vmm_get_physical_address mapped 0x1000 0x405010)
unmapping_lem_example = unmapping_lem mapped 0x1000 0x405123 0x405010 mapped-IsTree
