-- ===== src/Vmm/Mapping.antt =====
-- What `vmm_map_page` of kernel/vmm.c maps, and what it leaves.
use ace_os.Base.{
  ℕ, ◌+◌, ◌*◌, ◌/◌, ◌%◌, ◌^◌, ◌<◌, ◌≡◌, ◌≢◌, ◌⊎◌, inl, inr, refl, sym, ◌∙◌, ap, true, false,
  if◌then◌else◌, ◌==◌, Bool-cases, arith,
}
use ace_os.Pmm.{Pmm, pmm_alloc_frame}
use ace_os.Pmm.Invariant.{IsValid}
use ace_os.Pmm.Alloc.{alloc_first_fit}
use ace_os.Vmm.{
  PageEntry, Vmm, get_pd_index, get_pt_index, page_align, target, has_flag, page_present, put,
  clear, empty_entry, ensure_table, set_entry, vmm_map_page, vmm_get_physical_address,
}
use ace_os.Vmm.Walk.{IsTree, set-translate, walk_absent, walk_empty, walk_same}

-- The tables of the directory are pages of their own, apart from each other, from the directory
-- and from the frame that the allocator gives next.
pub record IsSpace (v : Vmm) (dir : ℕ) : Type 0 where
  pub frames : IsValid v.pmm
  pub own : (i : ℕ) → (v.entry dir i).present ≡ true → target (v.entry dir i) ≢ dir
  pub apart :
      (i j : ℕ)
      → (v.entry dir i).present ≡ true
      → (v.entry dir j).present ≡ true
      → target (v.entry dir i) ≡ target (v.entry dir j)
      → i ≡ j
  pub fresh_directory : (pmm_alloc_frame v.pmm).0 ≢ dir
  pub fresh_table :
      (i : ℕ) → (v.entry dir i).present ≡ true → target (v.entry dir i) ≢ (pmm_alloc_frame v.pmm).0

-- With a directory entry present the call is the write of one table entry.
map-present :
    (v : Vmm) (dir virt phys flags : ℕ)
    → (v.entry dir (get_pd_index (page_align virt))).present ≡ true
    → vmm_map_page v dir virt phys flags ≡ set_entry v dir (page_align virt) (page_align phys) flags
unfolding vmm_map_page ensure_table
map-present v dir virt phys flags h = rw h

-- The frames that the allocator gives are aligned, and their numbers fit 20 bits.
alloc_aligned :
    (p : Pmm)
    → IsValid p
    → ((pmm_alloc_frame p).0 % 2 ^ 12 ≡ 0)
      × ((pmm_alloc_frame p).0 / 2 ^ 12 % 2 ^ 20 * 2 ^ 12 ≡ (pmm_alloc_frame p).0)
alloc_aligned p v = elim (alloc_first_fit p v) [
  | inl (z, _, _) ↦ (omega (arith, z), omega (arith, z))
  | inr (i, t) ↦ (omega (arith, t.at_address), omega (arith, t.at_address))
]

-- The state with a new table for directory entry `pd`.
abbrev with_table : Vmm → ℕ → ℕ → ℕ → Vmm
with_table v dir pd flags =
    let t = (pmm_alloc_frame v.pmm).0 in
    record v {
      pmm = (pmm_alloc_frame v.pmm).1;
      entry = put (clear v.entry t) dir pd (record (clear v.entry t dir pd) {
        present = true;
        writable = true;
        user = has_flag flags 0x004;
        address = t / 2 ^ 12 % 2 ^ 20;
      });
    }

module _ (v : Vmm) (dir pd flags : ℕ) (s : IsSpace v dir)
    (absent : (v.entry dir pd).present ≡ false) (frame : (pmm_alloc_frame v.pmm).0 ≢ 0) where
  abbrev t : ℕ
  t = (pmm_alloc_frame v.pmm).0

  abbrev v' : Vmm
  v' = with_table v dir pd flags

  ensure-with_table : ensure_table v dir pd flags ≡ (true, v')
  unfolding ensure_table
  ensure-with_table =
      let nz : ((pmm_alloc_frame v.pmm).0 == 0) ≡ false = ground arith in rw (absent, nz) refl

  new_entry : ((v'.entry dir pd).present ≡ true) × (target (v'.entry dir pd) ≡ t)
  new_entry =
      let d : (dir == dir) ≡ true = ground arith in
      let i : (pd == pd) ≡ true = ground arith in
      (rw (d, i) refl, rw (d, i) ((alloc_aligned v.pmm s.frames).1))

  other_entry : (i : ℕ) → i ≢ pd → v'.entry dir i ≡ v.entry dir i
  other_entry i ne =
      let d : (dir == t) ≡ false = ground (arith, s.fresh_directory) in
      let j : (i == pd) ≡ false = ground arith in
      let self : (dir == dir) ≡ true = ground arith in rw (self, j, d) refl

  new_page : (i : ℕ) → v'.entry t i ≡ empty_entry
  new_page i =
      let d : (t == dir) ≡ false = ground (arith, s.fresh_directory) in
      let self : (t == t) ≡ true = ground arith in rw (d, self) refl

  other_page : (x i : ℕ) → x ≢ t → x ≢ dir → v'.entry x i ≡ v.entry x i
  other_page x i a b =
      let d : (x == dir) ≡ false = ground arith in
      let j : (x == t) ≡ false = ground arith in rw (d, j) refl

  present_other :
      (i : ℕ) → i ≢ pd → (v'.entry dir i).present ≡ true → (v.entry dir i).present ≡ true
  present_other i ne h = sym (ap (λ (e : PageEntry). e.present) (other_entry i ne)) ∙ h

  target_other : (i : ℕ) → i ≢ pd → target (v'.entry dir i) ≡ target (v.entry dir i)
  target_other i ne = ap (λ (e : PageEntry). target e) (other_entry i ne)

  new_target : (i : ℕ) → (i == pd) ≡ true → target (v'.entry dir i) ≡ t
  new_target i h =
      let e : i ≡ pd = ground arith in ap (λ k. target (v'.entry dir k)) e ∙ new_entry.1

  with_table-IsTree : IsTree v' dir
  with_table-IsTree = record {
    own = λ i h. elim (Bool-cases (i == pd)) [
      | inl e ↦ λ d. s.fresh_directory (sym (new_target i e) ∙ d)
      | inr ne ↦
          let k : i ≢ pd = ground arith in
          λ d. s.own i (present_other i k h) (sym (target_other i k) ∙ d)
    ];
    apart = λ i j h k e. elim (Bool-cases (i == pd)) [
      | inl a ↦ elim (Bool-cases (j == pd)) [
        | inl b ↦ ground arith
        | inr b ↦
            let n : j ≢ pd = ground arith in
            absurd (
              s.fresh_table j (present_other j n k)
                (sym (target_other j n) ∙ sym e ∙ new_target i a))
      ]
      | inr a ↦
          let m : i ≢ pd = ground arith in
          elim (Bool-cases (j == pd)) [
            | inl b ↦ absurd (
                s.fresh_table i (present_other i m h) (sym (target_other i m) ∙ e ∙ new_target j b))
            | inr b ↦
                let n : j ≢ pd = ground arith in
                s.apart i j (present_other i m h) (present_other j n k)
                  (sym (target_other i m) ∙ e ∙ target_other j n)
          ]
    ];
  }

  -- The new table maps nothing.
  with_table-translate :
      (q : ℕ) → vmm_get_physical_address v' dir q ≡ vmm_get_physical_address v dir q
  with_table-translate q = elim (Bool-cases (get_pd_index q == pd)) [
    | inl e ↦
        let e' : get_pd_index q ≡ pd = ground arith in
        walk_empty v' dir q t (new_target (get_pd_index q) e)
          (ap (λ (k : PageEntry). k.present) (new_page (get_pt_index q)))
        ∙ sym (walk_absent v dir q (ap (λ k. (v.entry dir k).present) e' ∙ absent))
    | inr ne ↦ walk_same v' dir q v (other_entry (get_pd_index q) (ground arith)) (λ there.
        other_page _ _ (s.fresh_table (get_pd_index q) there) (s.own (get_pd_index q) there))
  ]

map-absent :
    (v : Vmm) (dir virt phys flags : ℕ)
    → IsSpace v dir
    → (v.entry dir (get_pd_index (page_align virt))).present ≡ false
    → (pmm_alloc_frame v.pmm).0 ≢ 0
    → vmm_map_page v dir virt phys flags
      ≡ set_entry
          (with_table v dir (get_pd_index (page_align virt)) flags)
          dir
          (page_align virt)
          (page_align phys)
          flags
unfolding vmm_map_page
map-absent v dir virt phys flags s h frame =
    rw (ensure-with_table v dir (get_pd_index (page_align virt)) flags s h frame) refl

-- `vmm_map_page` maps exactly one page: every address of the page of `virt` translates to the same
-- offset in the frame of `phys`, and every other address to what it did before, mapped or not. It
-- needs a page table of its own for the page, or a frame for a new one.
pub mapping_lem :
    (v : Vmm) (dir virt phys flags q : ℕ)
    → IsSpace v dir
    → ((v.entry dir (get_pd_index virt)).present ≡ true) ⊎ ((pmm_alloc_frame v.pmm).0 ≢ 0)
    → has_flag flags page_present ≡ true
    → phys < 2 ^ 32
    → vmm_get_physical_address (vmm_map_page v dir virt phys flags) dir q ≡ (
        if q / 2 ^ 12 == virt / 2 ^ 12
        then page_align phys + q % 2 ^ 12
        else vmm_get_physical_address v dir q)
mapping_lem v dir virt phys flags q s room p small =
    let pd = get_pd_index (page_align virt) in
    let index : pd ≡ get_pd_index virt = omega arith in
    let page : page_align virt / 2 ^ 12 ≡ virt / 2 ^ 12 = omega arith in
    elim (Bool-cases ((v.entry dir pd).present)) [
      | inl there ↦
          ap (λ w. vmm_get_physical_address w dir q) (map-present v dir virt phys flags there)
          ∙ set-translate v dir (page_align virt) (page_align phys) flags q
              (record { own = s.own; apart = s.apart }) there p (omega arith) (omega arith)
          ∙ rw page refl
      | inr absent ↦
          let frame : (pmm_alloc_frame v.pmm).0 ≢ 0 = elim room [
            | inl h ↦ absurd (ground (arith, ap (λ i. (v.entry dir i).present) index))
            | inr h ↦ h
          ] in
          ap (λ w. vmm_get_physical_address w dir q)
            (map-absent v dir virt phys flags s absent frame)
          ∙ set-translate (with_table v dir pd flags) dir (page_align virt) (page_align phys) flags
              q (with_table-IsTree v dir pd flags s absent frame)
              ((new_entry v dir pd flags s absent frame).0) p (omega arith) (omega arith)
          ∙ rw (page, with_table-translate v dir pd flags s absent frame q) refl
    ]
