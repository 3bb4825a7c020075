-- ===== src/Stage2.antt =====
-- vre/mmu/stage2.c: the stage-2 page tables of all VMs, in one pool of 4 KB tables.
-- A table is addressed as the code addresses it, by the number that the descriptors hold; `cell p i`
-- is entry `i` of the table at address `p`. `base` is where the linker puts `_pt_pool`.
-- A `none` stands for the endless `wfi` loop in which `pt_alloc` stops the machine.
-- The TLB maintenance instructions change none of this state.
pub mod Pages
pub mod Create
use hypervisor_base.Common.{
  ℕ, zero, suc, ◌+◌, ◌-◌, ◌*◌, ◌/◌, ◌%◌, Bool, true, false, ◌&&◌, Option, none, some, ◌==◌, leb,
  if◌then◌else◌, u8, u64, bit_or, Err, e_ok, e_inval,
}

pub record PageTables : Type 0 where
  pub base : ℕ
  pub used : ℕ  -- _pt_idx
  pub next_vmid : ℕ  -- _vmid
  pub cell : ℕ → ℕ → ℕ

abbrev pub pt_pool_pages : ℕ
pt_pool_pages = 1024

-- `l[i] = v` for the table at `p`
abbrev pub write_cell : (ℕ → ℕ → ℕ) → ℕ → ℕ → ℕ → ℕ → ℕ → ℕ
write_cell cell p i v = λ q j. if q == p && j == i then v else cell q j

-- The table handed out, zeroed.
unfoldable pub pt_alloc : PageTables → Option (ℕ × PageTables)
pt_alloc t =
    if leb pt_pool_pages t.used
    then none
    else some (p, record t { used = t.used + 1; cell = λ q j. if q == p then 0 else t.cell q j })
  where
    p : ℕ
    p = t.base + t.used * 4096

-- `x & ~0xFFF`
abbrev pub page_of : ℕ → ℕ
page_of x = x - x % 4096

abbrev pub is_aligned : ℕ → Bool
is_aligned x = x % 4096 == 0

-- `entry & 1`
abbrev pub is_valid : ℕ → Bool
is_valid e = e % 2 == 1

-- `entry & 2`
abbrev pub is_table : ℕ → Bool
is_table e = e / 2 % 2 == 1

abbrev pub index1 : ℕ → ℕ
index1 ipa = ipa / 1073741824 % 512

abbrev pub index2 : ℕ → ℕ
index2 ipa = ipa / 2097152 % 512

abbrev pub index3 : ℕ → ℕ
index3 ipa = ipa / 4096 % 512

-- The value of `vttbr`: the VMID above bit 48, and the table's address.
-- The address is below 2^48, so `|` is a sum.
pub s2_create : PageTables → Option ((ℕ × ℕ) × PageTables)
unfolding pt_alloc
s2_create t = elim (pt_alloc t) [
  | none ↦ none
  | some (pgd, t') ↦ some (
    (pgd, u64 (t'.next_vmid * 281474976710656) + page_of pgd),
    record t' { next_vmid = u8 (t'.next_vmid + 1) },
  )
]

-- `if (!(l[i] & 1)) l[i] = pt_alloc() | VALID | TABLE;`, then the table that `l[i]` points to.
-- A pool table is page-aligned, so `|` adds 3.
unfoldable pub descend : PageTables → ℕ → ℕ → Option (ℕ × PageTables)
unfolding pt_alloc
descend t l i =
    if is_valid (t.cell l i) then some (page_of (t.cell l i), t) else elim (pt_alloc t) [
      | none ↦ none
      | some (p, t') ↦
          some
            (page_of (page_of p + 3), record t' { cell = write_cell t'.cell l i (page_of p + 3) })
    ]

-- `(c_pa & ~0xFFF) | flags | S2_DESC_VALID | S2_DESC_PAGE`
abbrev pub descriptor : ℕ → ℕ → ℕ
descriptor pa flags = bit_or (bit_or (page_of pa) flags) 3

-- One round of the loop of `s2_map`.
unfoldable pub map_page : PageTables → ℕ → ℕ → ℕ → ℕ → Option PageTables
unfolding descend
map_page t l1 ipa pa flags = elim (descend t l1 (index1 ipa)) [
  | none ↦ none
  | some (l2, t₂) ↦ elim (descend t₂ l2 (index2 ipa)) [
    | none ↦ none
    | some (l3, t₃) ↦
        some (record t₃ { cell = write_cell t₃.cell l3 (index3 ipa) (descriptor pa flags) })
  ]
]

-- The loop: the number of pages left, and `ipa + off`, `pa + off`.
unfoldable pub map_pages : ℕ → PageTables → ℕ → ℕ → ℕ → ℕ → Option PageTables
unfolding map_page
map_pages zero t l1 ipa pa flags = some t
map_pages (suc n) t l1 ipa pa flags = elim (map_page t l1 ipa pa flags) [
  | none ↦ none
  | some t' ↦ map_pages n t' l1 (u64 (ipa + 4096)) (u64 (pa + 4096)) flags
]

-- `s2_map` of the VM whose tables start at `pgd`
unfoldable pub s2_map : PageTables → ℕ → ℕ → ℕ → ℕ → ℕ → Option (Err × PageTables)
unfolding map_pages
s2_map t pgd ipa pa sz flags =
    if is_aligned ipa && is_aligned pa && is_aligned sz
    then elim (map_pages (sz / 4096) t pgd ipa pa flags) [ none ↦ none | some t' ↦ some (e_ok, t') ]
    else some (e_inval, t)

-- One round of the loop of `s2_unmap`.
pub unmap_page : PageTables → ℕ → ℕ → PageTables
unmap_page t l1 ipa =
    if is_valid (t.cell l1 (index1 ipa))
    then if is_valid (t.cell l2 (index2 ipa))
      then if is_valid (t.cell l3 (index3 ipa))
        then record t { cell = write_cell t.cell l3 (index3 ipa) 0 }
        else t
      else t
    else t
  where
    l2 : ℕ
    l2 = page_of (t.cell l1 (index1 ipa))

    l3 : ℕ
    l3 = page_of (t.cell l2 (index2 ipa))

pub unmap_pages : ℕ → PageTables → ℕ → ℕ → PageTables
unfolding unmap_page
unmap_pages zero t l1 ipa = t
unmap_pages (suc n) t l1 ipa = unmap_pages n (unmap_page t l1 ipa) l1 (u64 (ipa + 4096))

pub s2_unmap : PageTables → ℕ → ℕ → ℕ → Err × PageTables
unfolding unmap_pages
s2_unmap t pgd ipa sz =
    if is_aligned ipa && is_aligned sz
    then (e_ok, unmap_pages (sz / 4096) t pgd ipa)
    else (e_inval, t)

-- One round of the loop of `s2_ipa_is_mapped`: is the page of `ipa` mapped?
unfoldable pub page_is_mapped : PageTables → ℕ → ℕ → Bool
page_is_mapped t l1 ipa =
    if is_valid (t.cell l1 (index1 ipa))
    then if is_valid (t.cell l2 (index2 ipa))
      then if is_table (t.cell l2 (index2 ipa))
        then is_valid (t.cell (page_of (t.cell l2 (index2 ipa))) (index3 ipa))
        else true
      else false
    else false
  where
    l2 : ℕ
    l2 = page_of (t.cell l1 (index1 ipa))

-- The loop runs at `off = 0, 4096, …` below `sz`, and stops at the first mapped page. Above 2^64 - 4096
-- bytes the code's `off` wraps around and its loop need not end, where the model's ends; the DMA
-- guard, which rounds the size to pages on 64 bits, never asks for that many.
unfoldable pub any_mapped : ℕ → PageTables → ℕ → ℕ → Bool
unfolding page_is_mapped
any_mapped zero t l1 ipa = false
any_mapped (suc n) t l1 ipa =
    let rest = any_mapped n t l1 (u64 (ipa + 4096)) in
    if page_is_mapped t l1 ipa then true else rest

unfoldable pub s2_ipa_is_mapped : PageTables → ℕ → ℕ → ℕ → Bool
unfolding any_mapped
s2_ipa_is_mapped t pgd ipa sz = any_mapped ((sz + 4095) / 4096) t pgd ipa
