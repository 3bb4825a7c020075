-- ===== src/Shmem.antt =====
-- guest/shmem/shmem.c: pages of one pool mapped into two VMs. `none` is the halt of `pt_alloc`.
pub mod Tests
pub mod Disjoint
use hypervisor_base.Common.{
  ℕ, ◌+◌, ◌%◌, Bool, true, false, ◌&&◌, ◌||◌, not, List, [], ◌∷◌, ◌++◌, Option, none, some, ◌==◌,
  ltb, leb, if◌then◌else◌, length, u64, Err, e_ok, e_nomem, e_inval, e_notfound, failed,
}
use hypervisor_base.Stage2.{PageTables, is_aligned, s2_map, s2_unmap}
use hypervisor_base.State.{Core, vm_at}
use hypervisor_base.Vm.{vm_by_id}

abbrev pub pool_pa : ℕ
pool_pa = 0xa0000000

abbrev pub pool_sz : ℕ
pool_sz = 0x20000000

abbrev pub max_shmem_regions : ℕ
max_shmem_regions = 16

-- `S2_AF | S2_SH_INNER | S2_S2AP_RW | S2_MEMATTR_WB`
abbrev pub shmem_flags : ℕ
shmem_flags = 0x7fc

-- `shm_t`
pub record Shm : Type 0 where
  pub pa : ℕ
  pub sz : ℕ
  pub src : ℕ
  pub dst : ℕ
  pub ipa : ℕ
  pub active : Bool

pub record Shmem : Type 0 where
  pub regions : List Shm  -- _regions, its first _nr entries
  pub cursor : ℕ  -- _cursor
  pub core : Core

abbrev pub set_tables : Shmem → PageTables → Shmem
set_tables s t = record s { core = record s.core { tables = t } }

pub shmem_init : Core → Shmem
shmem_init c = record { regions = []; cursor = pool_pa; core = c }

-- the second of the two mappings, of the VM at index `j`
pub map_second : Shmem → Shm → ℕ → ℕ → Option (Err × Shmem)
map_second s r i j =
    elim (s2_map s.core.tables (vm_at s.core j).s2_pgd r.ipa r.pa r.sz shmem_flags) [
      | none ↦ none
      | some (e, t) ↦
          if failed e
          then some (e, set_tables s (s2_unmap t (vm_at s.core i).s2_pgd r.ipa r.sz).1)
          else some (e_ok, record (set_tables s t) { regions = s.regions ++ r ∷ [] })
    ]

-- the two mappings, once the pages are taken from the pool
pub map_both : Shmem → Shm → ℕ → ℕ → Option (Err × Shmem)
unfolding map_second
map_both s r i j = elim (s2_map s.core.tables (vm_at s.core i).s2_pgd r.ipa r.pa r.sz shmem_flags) [
  | none ↦ none
  | some (e, t) ↦ if failed e then some (e, set_tables s t) else map_second (set_tables s t) r i j
]

pub shmem_map : Shmem → ℕ → ℕ → ℕ → ℕ → Option (Err × Shmem)
unfolding map_both
shmem_map s src dst ipa sz =
    if leb max_shmem_regions (length s.regions)
    then some (e_nomem, s)
    else if not (is_aligned sz)
    then some (e_inval, s)
    else if ltb (pool_pa + pool_sz) (u64 (s.cursor + sz))
    then some (e_nomem, s)
    else elim (vm_by_id s.core src) [
      | none ↦ some (e_notfound, s)
      | some i ↦ elim (vm_by_id s.core dst) [
        | none ↦ some (e_notfound, s)
        | some j ↦
            map_both (record s { cursor = u64 (s.cursor + sz) })
              (record { pa = s.cursor; sz = sz; src = src; dst = dst; ipa = ipa; active = true }) i
              j
      ]
    ]

-- the pages taken from a VM, if it exists
pub unmap_from : Core → ℕ → ℕ → ℕ → Core
unmap_from c id ipa sz = elim (vm_by_id c id) [
  | none ↦ c
  | some i ↦ record c { tables = (s2_unmap c.tables (vm_at c i).s2_pgd ipa sz).1 }
]

-- the loop over the regions: its result, and whether one was found
pub unmap_first : Core → List Shm → ℕ → ℕ → Bool × (List Shm × Core)
unfolding unmap_from
unmap_first c [] ipa sz = (false, ([], c))
unmap_first c (r ∷ rs) ipa sz =
    let (found, (rs', c')) = unmap_first c rs ipa sz in
    if not r.active || not (r.ipa == ipa) then (found, (r ∷ rs', c')) else (
      true,
      (record r { active = false } ∷ rs, unmap_from (unmap_from c r.src ipa sz) r.dst ipa sz),
    )

pub shmem_unmap : Shmem → ℕ → ℕ → Err × Shmem
unfolding unmap_first
shmem_unmap s ipa sz =
    let (found, (rs, c)) = unmap_first s.core s.regions ipa sz in
    if found then (e_ok, record s { regions = rs; core = c }) else (e_notfound, s)
