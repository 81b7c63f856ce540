-- ===== src/Memory/Pages.antt =====
-- The functions of kernel/memory_utils.c on whole pages.
use ace_os.Base.{
  ℕ, ◌+◌, ◌-◌, ◌*◌, ◌/◌, ◌%◌, ◌≤◌, ◌≡◌, refl, true, false, ◌⊎◌, inl, inr, ◌∙◌, ◌&&◌, Bool-cases,
  arith, if◌then◌else◌, ◌==◌, ltb, leb,
}
use ace_os.Libc.{Memory}
use ace_os.Libc.Copy.{memmove_lem, memcpy-memmove, memset_lem}
use ace_os.Pmm.{page_size}
use ace_os.Memory.{memory_align_down, memory_copy_page, memory_zero_page}

start_lem : (a : ℕ) → memory_align_down a page_size ≡ a / page_size * page_size
unfolding memory_align_down
start_lem a = omega arith

-- `memory_copy_page` makes the page of the target a copy of the page of the source, byte by byte, and
-- changes no other page; the two addresses need not be aligned.
pub copy_page_lem :
    (dest src : ℕ) (m : Memory) (x : ℕ)
    → memory_copy_page dest src m x ≡ (
        if x / page_size == dest / page_size
        then m (src / page_size * page_size + x % page_size)
        else m x)
unfolding memory_copy_page
copy_page_lem dest src m x =
    let d : ℕ = memory_align_down dest page_size in
    let s : ℕ = memory_align_down src page_size in
    let at_d = start_lem dest in
    let at_s = start_lem src in
    let apart : (d ≤ s) ⊎ (s + page_size ≤ d) = ground (arith, at_d, at_s) in
    memcpy-memmove d s page_size m x apart
    ∙ memmove_lem d s page_size m x
    ∙ elim (Bool-cases (x / page_size == dest / page_size)) [
      | inl e ↦
          let inside : (leb d x && ltb x (d + page_size)) ≡ true = ground (arith, at_d) in
          let byte : s + (x - d) ≡ src / page_size * page_size + x % page_size =
            ground (arith, at_d, at_s) in
          rw (e, inside, byte) refl
      | inr e ↦
          let outside : (leb d x && ltb x (d + page_size)) ≡ false = ground (arith, at_d) in
          rw (e, outside) refl
    ]

-- `memory_zero_page` clears exactly the page that the address lies in.
pub zero_page_lem :
    (addr : ℕ) (m : Memory) (x : ℕ)
    → memory_zero_page addr m x ≡ (if x / page_size == addr / page_size then 0 else m x)
unfolding memory_zero_page
zero_page_lem addr m x =
    let e = start_lem addr in
    memset_lem (memory_align_down addr page_size) 0 page_size m x ∙ ground (arith, e)
