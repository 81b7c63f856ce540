-- ===== src/Vmm/Walk.antt =====
-- The translation of addresses in kernel/vmm.c, and what the write of one entry does to it.
use ace_os.Base.{
  ℕ, ◌+◌, ◌/◌, ◌%◌, ◌^◌, ◌<◌, ◌≡◌, ◌≢◌, inl, inr, refl, ap, true, false, if◌then◌else◌, ◌==◌,
  Bool-cases, arith,
}
use ace_os.Vmm.{
  Vmm, get_pd_index, get_pt_index, target, has_flag, page_present, set_entry,
  vmm_get_physical_address,
}

-- The tables of the directory are pages of their own, apart from each other and from the directory.
pub record IsTree (v : Vmm) (dir : ℕ) : Type 0 where
  pub own : (i : ℕ) → (v.entry dir i).present ≡ true → target (v.entry dir i) ≢ dir
  pub apart :
      (i j : ℕ)
      → (v.entry dir i).present ≡ true
      → (v.entry dir j).present ≡ true
      → target (v.entry dir i) ≡ target (v.entry dir j)
      → i ≡ j

module _ (v : Vmm) (dir va pa flags q : ℕ) (tree : IsTree v dir)
    (mapped : (v.entry dir (get_pd_index va)).present ≡ true)
    (p : has_flag flags page_present ≡ true) (small : pa < 2 ^ 32) (aligned : pa % 2 ^ 12 ≡ 0) where
  pub set-translate :
      vmm_get_physical_address (set_entry v dir va pa flags) dir q
      ≡ (if q / 2 ^ 12 == va / 2 ^ 12 then pa + q % 2 ^ 12 else vmm_get_physical_address v dir q)
  unfolding vmm_get_physical_address set_entry
  set-translate =
      let t = target (v.entry dir (get_pd_index va)) in
      let off : t ≢ dir = tree.own (get_pd_index va) mapped in
      let keep : (dir == t) ≡ false = ground arith in
      elim (Bool-cases ((v.entry dir (get_pd_index q)).present)) [
        | inr absent ↦ elim (Bool-cases (q / 2 ^ 12 == va / 2 ^ 12)) [
          | inl same ↦
              let e : get_pd_index q ≡ get_pd_index va = ground arith in
              absurd (ground (arith, ap (λ i. (v.entry dir i).present) e))
          | inr other ↦ rw (keep, absent, other) refl
        ]
        | inl there ↦ elim (Bool-cases (get_pd_index q == get_pd_index va)) [
          | inl e ↦
              let e' : get_pd_index q ≡ get_pd_index va = ground arith in
              let self : (t == t) ≡ true = ground arith in
              rw (keep, e', mapped, self)
                (elim (Bool-cases (get_pt_index q == get_pt_index va)) [
                  | inl hit ↦
                      let page : (q / 2 ^ 12 == va / 2 ^ 12) ≡ true = ground arith in
                      rw (hit, page, p) (omega arith)
                  | inr miss ↦
                      let page : (q / 2 ^ 12 == va / 2 ^ 12) ≡ false = ground arith in
                      rw (miss, page) refl
                ])
          | inr ne ↦
              let away : (target (v.entry dir (get_pd_index q)) == t) ≡ false =
                ground (arith, tree.apart (get_pd_index q) (get_pd_index va) there mapped) in
              let other : (q / 2 ^ 12 == va / 2 ^ 12) ≡ false = ground arith in
              rw (keep, there, away, other) refl
        ]
      ]

module _ (w : Vmm) (dir q : ℕ) where
  pub walk_absent :
      (w.entry dir (get_pd_index q)).present ≡ false → vmm_get_physical_address w dir q ≡ 0
  unfolding vmm_get_physical_address
  walk_absent h = rw h refl

  pub walk_empty :
      (x : ℕ)
      → target (w.entry dir (get_pd_index q)) ≡ x
      → (w.entry x (get_pt_index q)).present ≡ false
      → vmm_get_physical_address w dir q ≡ 0
  unfolding vmm_get_physical_address
  walk_empty x e h = rw (e, h) (ground arith)

  -- The result depends on the two entries alone.
  pub walk_same :
      (v : Vmm)
      → w.entry dir (get_pd_index q) ≡ v.entry dir (get_pd_index q)
      → ((v.entry dir (get_pd_index q)).present ≡ true
          → w.entry (target (v.entry dir (get_pd_index q))) (get_pt_index q)
            ≡ v.entry (target (v.entry dir (get_pd_index q))) (get_pt_index q))
      → vmm_get_physical_address w dir q ≡ vmm_get_physical_address v dir q
  unfolding vmm_get_physical_address
  walk_same v e f = elim (Bool-cases ((v.entry dir (get_pd_index q)).present)) [
    | inl there ↦ rw (e, there, f there) refl
    | inr absent ↦ rw (e, absent) refl
  ]
