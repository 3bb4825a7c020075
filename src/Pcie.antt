-- ===== src/Pcie.antt =====
-- vre/bus/pcie.c and the decoder of vre/bus/pcie.h: which VM may reach which PCIe function.
-- The hardware behind the ECAM window is outside of the model: `read` is what a read of a register
-- answers, and the writes that reach it are kept in order.
pub mod Tests
pub mod Access
pub mod Decode
use hypervisor_base.Common.{
  ℕ, ◌+◌, ◌-◌, ◌/◌, ◌%◌, Bool, true, false, ◌&&◌, ◌||◌, List, [], ◌∷◌, ◌++◌, Option, none, some,
  ◌==◌, ltb, leb, if◌then◌else◌, length, u32, Err, e_ok, e_inval, failed,
}

abbrev pub ecam_base : ℕ
ecam_base = 0x3f000000

abbrev pub ecam_size : ℕ
ecam_size = 0x1000000

abbrev pub max_assignments : ℕ
max_assignments = 64

abbrev pub vendor_invalid : ℕ
vendor_invalid = 0xffffffff

-- `pcie_bdf_t`
pub record Assignment : Type 0 where
  pub bus : ℕ
  pub dev : ℕ
  pub fn : ℕ
  pub vm_id : ℕ

-- A write that is forwarded: the VM that runs, the offset in the ECAM window, the value.
pub record Write : Type 0 where
  pub by : ℕ
  pub offset : ℕ
  pub value : ℕ

pub record Pcie : Type 0 where
  pub assignments : List Assignment  -- _assignments, its first _num_assignments entries
  pub written : List Write

-- `mmio_register` gives `code`
pub pcie_init : Pcie → Err → Err × Pcie
pcie_init p code =
    if failed code
    then (code, record p { assignments = [] })
    else (e_ok, record p { assignments = [] })

pub pcie_assign_vm : Pcie → ℕ → ℕ → ℕ → ℕ → Err × Pcie
pcie_assign_vm p id bus dev fn =
    if leb max_assignments (length p.assignments) then (e_inval, p) else (
      e_ok,
      record p {
        assignments = p.assignments ++ record { bus = bus; dev = dev; fn = fn; vm_id = id } ∷ [];
      },
    )

-- does the entry let the VM reach the function?
abbrev pub grants : Assignment → ℕ → ℕ → ℕ → ℕ → Bool
grants a id bus dev fn =
    a.vm_id == id && (a.bus == 255 || a.bus == bus && a.dev == dev && a.fn == fn)

pub pcie_vm_owns_bdf : List Assignment → ℕ → ℕ → ℕ → ℕ → Bool
pcie_vm_owns_bdf [] id bus dev fn = false
pcie_vm_owns_bdf (a ∷ xs) id bus dev fn =
    let rest = pcie_vm_owns_bdf xs id bus dev fn in if grants a id bus dev fn then true else rest

-- `pcie_decode_addr` of the offset in the window: bus, device, function, register
abbrev pub bus_of : ℕ → ℕ
bus_of off = off / 1048576 % 256

abbrev pub dev_of : ℕ → ℕ
dev_of off = off / 32768 % 32

abbrev pub fn_of : ℕ → ℕ
fn_of off = off / 4096 % 8

abbrev pub reg_of : ℕ → ℕ
reg_of off = off % 4096

-- may the VM reach the function at this offset?
abbrev pub owns_offset : List Assignment → ℕ → ℕ → Bool
owns_offset xs id off = pcie_vm_owns_bdf xs id (bus_of off) (dev_of off) (fn_of off)

-- An owned access: `val` is what the pointer points to, `none` for the null pointer.
pub forward : (ℕ → ℕ) → Pcie → ℕ → ℕ → Bool → Option ℕ → Option ℕ × Pcie
forward read p cur_vm off is_write none = (none, p)
forward read p cur_vm off true (some v) = (
  some v,
  record p { written = p.written ++ record { by = cur_vm; offset = off; value = u32 v } ∷ [] },
)
forward read p cur_vm off false (some v) = (some (u32 (read off)), p)

-- An access that is refused: "device not present" for reads, writes ignored.
pub refuse : Bool → Option ℕ → Option ℕ
refuse false (some v) = some vendor_invalid
refuse is_write val = val

-- The result of `pcie_ecam_emulate` is always `E_OK`; here, what `*val` is and the state.
-- `cur_vm` is the answer of `mmio_get_current_vm`.
pub pcie_ecam_emulate : (ℕ → ℕ) → Pcie → ℕ → ℕ → Bool → Option ℕ → Option ℕ × Pcie
unfolding forward refuse
pcie_ecam_emulate read p cur_vm addr is_write val =
    if ltb addr ecam_base || leb (ecam_base + ecam_size) addr
    then (refuse is_write val, p)
    else if owns_offset p.assignments cur_vm (addr - ecam_base)
    then forward read p cur_vm (addr - ecam_base) is_write val
    else (refuse is_write val, p)
