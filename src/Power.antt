-- ===== src/Power.antt =====
-- vre/power/power.c: the devices of a suspended VM are gated. `gic_enable_irq` and `gic_disable_irq`
-- of drivers/gic/gicv3.c are writes of one bit of the distributor's enable registers.
pub mod Tests
pub mod Frame
pub mod Gating
pub mod Leak
use hypervisor_base.Common.{
  ℕ, ◌-◌, Bool, true, false, ◌&&◌, ◌||◌, List, [], ◌∷◌, ◌++◌, ◌==◌, ltb, if◌then◌else◌, length,
  get_or, set, replicate, max_vms, Err, e_ok, e_inval,
}
use hypervisor_base.State.{Core, Vm, DevAssign, GatedDev, PowerState, on, gated}

abbrev pub max_gated_devs : ℕ
max_gated_devs = 64

-- `vm->id == 0 || vm->id > MAX_VMS`
abbrev pub bad_id : ℕ → Bool
bad_id id = id == 0 || ltb max_vms id

pub set_irq : (ℕ → Bool) → ℕ → Bool → ℕ → Bool
set_irq en irq b = λ i. if i == irq then b else en i

pub power_init : Core → Core
power_init c = record c { power = replicate max_vms on; gated_devs = [] }

pub gate_dev : Core → DevAssign → Core
unfolding set_irq
gate_dev c d = record c {
  irq_on = if d.irq == 0 then c.irq_on else set_irq c.irq_on d.irq false;
  gated_devs =
      if ltb (length c.gated_devs) max_gated_devs
      then c.gated_devs ++ record { mmio_base = d.mmio_base; gated = true } ∷ []
      else c.gated_devs;
}

-- the loop of `power_gate_vm`
pub gate_devs : Core → List DevAssign → Core
gate_devs c [] = c
gate_devs c (d ∷ ds) = gate_devs (gate_dev c d) ds

pub power_gate_vm : Core → Vm → Err × Core
power_gate_vm c vm =
    if bad_id vm.id
    then (e_inval, c)
    else (e_ok, record (gate_devs c vm.dev) { power = set c.power (vm.id - 1) gated })

-- the inner loop of `power_ungate_vm`
pub clear_gated : ℕ → List GatedDev → List GatedDev
clear_gated base [] = []
clear_gated base (g ∷ gs) =
    (if g.mmio_base == base then record g { gated = false } else g) ∷ clear_gated base gs

pub ungate_dev : Core → DevAssign → Core
unfolding set_irq clear_gated
ungate_dev c d = record c {
  irq_on = if d.irq == 0 then c.irq_on else set_irq c.irq_on d.irq true;
  gated_devs = clear_gated d.mmio_base c.gated_devs;
}

pub ungate_devs : Core → List DevAssign → Core
ungate_devs c [] = c
ungate_devs c (d ∷ ds) = ungate_devs (ungate_dev c d) ds

pub power_ungate_vm : Core → Vm → Err × Core
power_ungate_vm c vm =
    if bad_id vm.id
    then (e_inval, c)
    else (e_ok, record (ungate_devs c vm.dev) { power = set c.power (vm.id - 1) on })

pub power_get_state : Core → ℕ → PowerState
power_get_state c id = if bad_id id then on else get_or c.power (id - 1) on

-- the loop of `power_is_device_gated`
pub any_gated : ℕ → List GatedDev → Bool
any_gated base [] = false
any_gated base (g ∷ gs) = (g.mmio_base == base && g.gated) || any_gated base gs

pub power_is_device_gated : Core → ℕ → Bool
unfolding any_gated
power_is_device_gated c base = any_gated base c.gated_devs
