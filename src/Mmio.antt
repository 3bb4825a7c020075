-- ===== src/Mmio.antt =====
-- vre/device/mmio_trap.c: emulated devices and the VMs that own them. The devices' handlers and
-- their state are parameters.
pub mod Ownership
pub mod Registers
mod Tests
use hypervisor_base.Common.{
  ℕ, ◌+◌, ◌*◌, ◌/◌, ◌%◌, Bool, true, false, ◌&&◌, ◌||◌, not, List, [], ◌∷◌, ◌++◌, Option, none,
  some, ◌==◌, ltb, leb, if◌then◌else◌, length, set, u32, u64, Err, e_ok, e_nomem,
}
use hypervisor_base.State.{Core, vcpu_at, set_vcpu}

abbrev pub max_mmio_regions : ℕ
max_mmio_regions = 32

-- `mmio_reg_t`; a handler and its `priv` are a number, `none` is NULL
pub record Region : Type 0 where
  pub base : ℕ
  pub sz : ℕ
  pub fn : Option ℕ
  pub active : Bool
  pub owner_vm_id : ℕ
  pub violation_cnt : ℕ

pub record Mmio : Type 0 where
  pub regs : List Region  -- _regs, its first _nr entries
  pub current_vm_id : ℕ  -- _current_vm_id

pub mmio_register_vm_device : Mmio → ℕ → ℕ → ℕ → Option ℕ → Err × Mmio
mmio_register_vm_device m vm_id base sz fn =
    if leb max_mmio_regions (length m.regs) then (e_nomem, m) else (
      e_ok,
      record m {
        regs =
            m.regs
            ++ record {
              base = base;
              sz = sz;
              fn = fn;
              active = true;
              owner_vm_id = vm_id;
              violation_cnt = 0;
            }
              ∷ [];
      },
    )

-- a region that is shared
pub mmio_register : Mmio → ℕ → ℕ → Option ℕ → Err × Mmio
unfolding mmio_register_vm_device
mmio_register m base sz fn = mmio_register_vm_device m 0 base sz fn

pub mmio_set_current_vm : Mmio → ℕ → Mmio
mmio_set_current_vm m vm_id = record m { current_vm_id = vm_id }

pub mmio_get_current_vm : Mmio → ℕ
mmio_get_current_vm m = m.current_vm_id

-- the tests that pass over a region
pub covers : Region → ℕ → Bool
covers r fa = r.active && leb r.base fa && ltb fa (u64 (r.base + r.sz))

-- `owner_vm_id != 0 && owner_vm_id != _current_vm_id`
pub is_foreign : Region → ℕ → Bool
is_foreign r cur = not (r.owner_vm_id == 0) && not (r.owner_vm_id == cur)

-- "write result back to destination register", of the current vCPU
pub write_back : Core → ℕ → ℕ → Core
write_back c srt val =
    if ltb srt 31
    then elim c.current [
      | none ↦ c
      | some k ↦ set_vcpu c k (record (vcpu_at c k) { x = set (vcpu_at c k).x srt val })
    ]
    else c

abbrev pub srt_of : ℕ → ℕ
srt_of esr = esr / 65536 % 32

abbrev pub is_write : ℕ → Bool
is_write esr = esr / 64 % 2 == 1

module _ {D : Type 0} (device : ℕ → D → ℕ → Bool → ℕ → Err × ℕ × D) where
  -- An access to the region: the region, the devices and the registers. The handler is given the
  -- value 0 and leaves one there; its result is only logged.
  pub access_region : Region → ℕ → Core → D → ℕ → ℕ → Region × D × Core
  unfolding is_foreign write_back
  access_region r cur c d fa esr =
      if is_foreign r cur
      then (
        record r { violation_cnt = u32 (r.violation_cnt + 1) },
        d,
        if is_write esr then c else write_back c (srt_of esr) 0,
      )
      else elim r.fn [
        | none ↦ (r, d, c)
        | some f ↦
            let (_, val, d') = device f d fa (is_write esr) 0 in
            (r, d', if is_write esr then c else write_back c (srt_of esr) val)
      ]

  -- the loop over the regions
  pub handle_in : List Region → ℕ → Core → D → ℕ → ℕ → List Region × D × Core
  unfolding covers access_region
  handle_in [] cur c d fa esr = ([], d, c)
  handle_in (r ∷ rs) cur c d fa esr =
      let (rs', d', c') = handle_in rs cur c d fa esr in
      let (r2, d2, c2) = access_region r cur c d fa esr in
      if covers r fa then (r2 ∷ rs, d2, c2) else (r ∷ rs', d', c')

  pub mmio_handle : Mmio → Core → D → ℕ → ℕ → Mmio × D × Core
  unfolding handle_in
  mmio_handle m c d fa esr =
      let (rs, d', c') = handle_in m.regs m.current_vm_id c d fa esr in
      (record m { regs = rs }, d', c')
