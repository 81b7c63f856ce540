-- ===== src/Vmm/Unmapping.antt =====
-- What `vmm_unmap_page` of kernel/vmm.c unmaps, and what it leaves.
use ace_os.Vmm.Walk.{IsTree, walk_absent, walk_empty, walk_same}
use ace_os.Base.{
  ℕ, ◌/◌, ◌^◌, ◌≡◌, ◌≢◌, inl, inr, refl, sym, ◌∙◌, ap, true, false, if◌then◌else◌, ◌==◌, Bool-cases,
  arith,
}
use ace_os.Pmm.{pmm_free_frame}
use ace_os.Vmm.{
  PageEntry, Vmm, get_pd_index, get_pt_index, page_align, target, put, empty_entry, vmm_unmap_page,
  vmm_get_physical_address,
}

-- The state without the entry.
abbrev without : Vmm → ℕ → ℕ → Vmm
without v page_table i = record v {
  entry = put v.entry page_table i empty_entry;
  pmm =
      if target (v.entry page_table i) == 0
      then v.pmm
      else pmm_free_frame v.pmm (target (v.entry page_table i));
}

module _ (v : Vmm) (dir t i q : ℕ) where
  entry_gone : (without v t i).entry t i ≡ empty_entry
  entry_gone =
      let a : (t == t) ≡ true = ground arith in
      let b : (i == i) ≡ true = ground arith in rw (a, b) refl

  other_page : (x j : ℕ) → x ≢ t → (without v t i).entry x j ≡ v.entry x j
  other_page x j ne = let a : (x == t) ≡ false = ground arith in rw a refl

  other_entry : (j : ℕ) → j ≢ i → (without v t i).entry t j ≡ v.entry t j
  other_entry j ne =
      let a : (t == t) ≡ true = ground arith in
      let b : (j == i) ≡ false = ground arith in rw (a, b) refl

module _ (v : Vmm) (dir va q : ℕ) (tree : IsTree v dir)
    (there : (v.entry dir (get_pd_index va)).present ≡ true) where
  abbrev t : ℕ
  t = target (v.entry dir (get_pd_index va))

  without-translate :
      vmm_get_physical_address (without v t (get_pt_index va)) dir q
      ≡ (if q / 2 ^ 12 == va / 2 ^ 12 then 0 else vmm_get_physical_address v dir q)
  without-translate =
      let w = without v t (get_pt_index va) in
      let off : dir ≢ t = λ e. tree.own (get_pd_index va) there (sym e) in
      let same_directory = other_page v dir t (get_pt_index va) q dir (get_pd_index q) off in
      elim (Bool-cases (get_pd_index q == get_pd_index va)) [
        | inl e ↦
            let e' : get_pd_index q ≡ get_pd_index va = ground arith in
            let at : target (v.entry dir (get_pd_index q)) ≡ t =
              ap (λ k. target (v.entry dir k)) e' in
            elim (Bool-cases (get_pt_index q == get_pt_index va)) [
              | inl f ↦
                  let f' : get_pt_index q ≡ get_pt_index va = ground arith in
                  let page : (q / 2 ^ 12 == va / 2 ^ 12) ≡ true = ground arith in
                  rw page (
                    walk_empty w dir q t (ap (λ (k : PageEntry). target k) same_directory ∙ at) (
                      ap (λ k. (w.entry t k).present) f'
                      ∙ ap (λ (k : PageEntry). k.present) (entry_gone v dir t (get_pt_index va) q)))
              | inr f ↦
                  let page : (q / 2 ^ 12 == va / 2 ^ 12) ≡ false = ground arith in
                  rw page (
                    walk_same w dir q v same_directory (λ _.
                      ap (λ x. w.entry x (get_pt_index q)) at
                      ∙ other_entry v dir t (get_pt_index va) q (get_pt_index q) (ground arith)
                      ∙ ap (λ x. v.entry x (get_pt_index q)) (sym at)))
            ]
        | inr ne ↦
            let page : (q / 2 ^ 12 == va / 2 ^ 12) ≡ false = ground arith in
            rw page (
              walk_same w dir q v same_directory (λ h.
                other_page v dir t (get_pt_index va) q _ (get_pt_index q) (λ e.
                  absurd
                    (ground (arith, tree.apart (get_pd_index q) (get_pd_index va) h there e)))))
      ]

-- `vmm_unmap_page` unmaps exactly one page: no address of the page of `virt` translates any more,
-- and every other address translates to what it did before.
pub unmapping_lem :
    (v : Vmm) (dir virt q : ℕ)
    → IsTree v dir
    → vmm_get_physical_address (vmm_unmap_page v dir virt) dir q
      ≡ (if q / 2 ^ 12 == virt / 2 ^ 12 then 0 else vmm_get_physical_address v dir q)
unfolding vmm_unmap_page
unmapping_lem v dir virt q tree =
    let pd = get_pd_index (page_align virt) in
    let pt = get_pt_index (page_align virt) in
    let page : page_align virt / 2 ^ 12 ≡ virt / 2 ^ 12 = omega arith in
    elim (Bool-cases ((v.entry dir pd).present)) [
      | inr absent ↦ rw absent (elim (Bool-cases (q / 2 ^ 12 == virt / 2 ^ 12)) [
        | inl e ↦
            let at : get_pd_index q ≡ pd = ground arith in
            rw e (walk_absent v dir q (ap (λ k. (v.entry dir k).present) at ∙ absent))
        | inr e ↦ rw e refl
      ])
      | inl there ↦
          let gone : vmm_unmap_page v dir virt ≡ without v (target (v.entry dir pd)) pt =
            rw there refl in
          ap (λ w. vmm_get_physical_address w dir q) gone
          ∙ without-translate v dir (page_align virt) q tree there
          ∙ rw page refl
    ]
