-- ===== src/Vmm.antt =====
-- kernel/vmm.c: page directories and page tables in frames of the physical allocator.
-- A directory or table is the address of its page; `entry p i` is entry `i` of the page at `p`.
-- `page_directory_entry_t` and `page_table_entry_t` have the same layout: `other` stands for the
-- fields that no code here writes alone. Flushing and loading the hardware registers is left out.
pub mod Walk
pub mod Mapping
pub mod Unmapping
mod Tests
use ace_os.Base.{
  ℕ, zero, suc, ◌+◌, ◌-◌, ◌*◌, ◌/◌, ◌%◌, ◌^◌, Bool, true, false, not, ◌&&◌, if◌then◌else◌, ◌==◌,
  leb, bit_and,
}
use ace_os.Pmm.{Pmm, page_size, pmm_alloc_frame, pmm_free_frame}

abbrev pub kernel_virtual_base : ℕ
kernel_virtual_base = 0xc0000000

abbrev pub page_present : ℕ
page_present = 0x001

abbrev pub page_writable : ℕ
page_writable = 0x002

abbrev pub page_user : ℕ
page_user = 0x004

-- `page_directory_entry_t` and `page_table_entry_t`.
pub record PageEntry : Type 0 where
  pub present : Bool
  pub writable : Bool
  pub user : Bool
  pub other : ℕ
  pub address : ℕ

-- An entry of zeros.
abbrev pub empty_entry : PageEntry
empty_entry = record { present = false; writable = false; user = false; other = 0; address = 0 }

pub record Vmm : Type 0 where
  pub pmm : Pmm
  pub entry : ℕ → ℕ → PageEntry
  pub current_page_directory : ℕ
  pub kernel_page_directory : ℕ

abbrev pub get_pd_index : ℕ → ℕ
get_pd_index addr = addr / 2 ^ 22

-- `(addr >> 12) & 0x3FF`.
abbrev pub get_pt_index : ℕ → ℕ
get_pt_index addr = addr / 2 ^ 12 % 2 ^ 10

-- `addr & ~(PAGE_SIZE - 1)`.
abbrev pub page_align : ℕ → ℕ
page_align addr = addr - addr % page_size

-- `address << 12` of an entry.
abbrev pub target : PageEntry → ℕ
target e = e.address * 2 ^ 12

-- `(flags & f) ? 1 : 0`.
abbrev pub has_flag : ℕ → ℕ → Bool
has_flag flags f = not (bit_and flags f == 0)

-- A write of entry `i` of the page at `p`.
abbrev pub put : (ℕ → ℕ → PageEntry) → ℕ → ℕ → PageEntry → ℕ → ℕ → PageEntry
put entry p i e q j = if q == p && j == i then e else entry q j

-- `memset(page, 0, PAGE_SIZE)`.
abbrev pub clear : (ℕ → ℕ → PageEntry) → ℕ → ℕ → ℕ → PageEntry
clear entry p q j = if q == p then empty_entry else entry q j

-- The part of `vmm_map_page` up to the page table: it ends the call, by `false`, without a frame.
pub ensure_table : Vmm → ℕ → ℕ → ℕ → Bool × Vmm
ensure_table v dir pd_index flags =
    if (v.entry dir pd_index).present
    then (true, v)
    else let (page_table_phys, pmm') = pmm_alloc_frame v.pmm in
      if page_table_phys == 0
      then (false, record v { pmm = pmm' })
      else let cleared = clear v.entry page_table_phys in
        (
          true,
          record v {
            pmm = pmm';
            entry = put cleared dir pd_index (record (cleared dir pd_index) {
              present = true;
              writable = true;
              user = has_flag flags page_user;
              address = page_table_phys / 2 ^ 12 % 2 ^ 20;
            });
          },
        )

-- The part behind it.
pub set_entry : Vmm → ℕ → ℕ → ℕ → ℕ → Vmm
set_entry v dir virtual_addr physical_addr flags =
    let page_table = target (v.entry dir (get_pd_index virtual_addr)) in
    let i = get_pt_index virtual_addr in
    record v {
      entry = put v.entry page_table i (record (v.entry page_table i) {
        present = has_flag flags page_present;
        writable = has_flag flags page_writable;
        user = has_flag flags page_user;
        address = physical_addr / 2 ^ 12 % 2 ^ 20;
      });
    }

pub vmm_map_page : Vmm → ℕ → ℕ → ℕ → ℕ → Vmm
vmm_map_page v dir virtual_addr physical_addr flags =
    let (ready, v') = ensure_table v dir (get_pd_index (page_align virtual_addr)) flags in
    if ready
    then set_entry v' dir (page_align virtual_addr) (page_align physical_addr) flags
    else v'

pub vmm_unmap_page : Vmm → ℕ → ℕ → Vmm
vmm_unmap_page v dir virtual_addr =
    let pd_index = get_pd_index (page_align virtual_addr) in
    let i = get_pt_index (page_align virtual_addr) in
    let page_table = target (v.entry dir pd_index) in
    let physical_addr = target (v.entry page_table i) in
    if (v.entry dir pd_index).present
    then record v {
      entry = put v.entry page_table i empty_entry;
      pmm = if physical_addr == 0 then v.pmm else pmm_free_frame v.pmm physical_addr;
    }
    else v

-- The bits of `address << 12` and of the offset are apart, so `|` is a sum.
pub vmm_get_physical_address : Vmm → ℕ → ℕ → ℕ
vmm_get_physical_address v dir virtual_addr =
    let table = v.entry dir (get_pd_index virtual_addr) in
    let page = v.entry (target table) (get_pt_index virtual_addr) in
    if not table.present
    then 0
    else if not page.present
    then 0
    else target page + virtual_addr % 2 ^ 12

-- The address of the new directory, 0 for NULL.
unfoldable pub vmm_create_page_directory : Vmm → ℕ × Vmm
vmm_create_page_directory v =
    let (page_dir, pmm') = pmm_alloc_frame v.pmm in
    let cleared = clear v.entry page_dir in
    if page_dir == 0 then (0, record v { pmm = pmm' }) else (
      page_dir,
      record v {
        pmm = pmm';
        entry = λ q j.
            if q == page_dir && leb (get_pd_index kernel_virtual_base) j
            then cleared v.kernel_page_directory j
            else cleared q j;
      },
    )

pub vmm_switch_page_directory : Vmm → ℕ → Vmm
vmm_switch_page_directory v dir = record v { current_page_directory = dir }

-- `for (addr = k * PAGE_SIZE; ...; addr += PAGE_SIZE)`, `n` rounds: page `base + addr` to `addr`.
pub map_range : Vmm → ℕ → ℕ → ℕ → Vmm
map_range v base k zero = v
map_range v base k (suc n) =
    map_range (vmm_map_page v v.kernel_page_directory (base + k * page_size) (k * page_size) 0x003)
      base (k + 1) n

pub vmm_init : Vmm → Vmm
vmm_init v =
    let cleared : Vmm = record v { entry = clear v.entry v.kernel_page_directory } in
    let low = map_range cleared 0 0 1024 in
    let high = map_range low kernel_virtual_base 0 1024 in
    record high { current_page_directory = v.kernel_page_directory }
