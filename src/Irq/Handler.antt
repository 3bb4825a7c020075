-- ===== src/Irq/Handler.antt =====
-- drivers/gic/gicv3.c, `gic_handle_irq`: what an interrupt that reaches the hypervisor does. The
-- virtual timer's control register and the end-of-interrupt register are not modelled.
mod Tests
pub mod Preemption
use hypervisor_base.Common.{
  ℕ, ◌+◌, ◌*◌, ◌/◌, ◌%◌, Bool, true, false, ◌&&◌, ◌||◌, not, List, [], ◌∷◌, ◌==◌, leb,
  if◌then◌else◌, set,
}
use hypervisor_base.State.{Core}
use hypervisor_base.Vse.State.{Machine}
use hypervisor_base.Sched.Switch.{Sched, sched_on_timer, set_core}
use hypervisor_base.Irq.Vgic.{Dist, CpuIf}
use hypervisor_base.Irq.Inject.{Gic, gic_inject_virq_lr, lr_value}
use hypervisor_base.Irq.Router.{Route, irq_route_to_vm}

abbrev pub cnthp_enable : ℕ
cnthp_enable = 1

abbrev pub cnthp_imask : ℕ
cnthp_imask = 2

abbrev pub cnthp_ppi : ℕ
cnthp_ppi = 26

abbrev pub uart_spi : ℕ
uart_spi = 33

pub record Irqs : Type 0 where
  pub sched : Sched
  pub dists : List Dist
  pub cpus : List CpuIf
  pub lrs : List ℕ
  pub routes : List Route
  pub ctl : ℕ  -- cnthp_ctl_el2, but for ISTATUS
  pub stopped : Bool  -- g_sched_stopped

abbrev gic_of : Irqs → Gic
gic_of q = record { machine = q.sched.machine; dists = q.dists; cpus = q.cpus; lrs = q.lrs }

abbrev with_gic : Irqs → Gic → Irqs
with_gic q g = record q { sched = record q.sched { machine = g.machine }; lrs = g.lrs }

-- `gic_inject_virq`: always the first list register
pub gic_inject_virq : List ℕ → ℕ → ℕ → List ℕ
gic_inject_virq lrs virq prio = set lrs 0 (lr_value virq prio)

pub gic_disable_irq : Core → ℕ → Core
gic_disable_irq c irq = record c { irq_on = λ i. if i == irq then false else c.irq_on i }

-- `timer_set_us`, which `sched_on_timer` ends with, leaves `CNTHP_ENABLE`
pub run_tick : Irqs → Irqs
run_tick q =
    if q.stopped then q else record q { sched = sched_on_timer q.sched; ctl = cnthp_enable }

-- the timer, which has expired where `istatus` is set
pub handle_timer : Irqs → Bool → Irqs
unfolding run_tick
handle_timer q istatus =
    if q.ctl % 2 == 1 && istatus then record (run_tick q) { ctl = cnthp_imask } else q

-- the UART is masked at the distributor until its guest is switched in
pub mask_uart : Irqs → Irqs
unfolding gic_disable_irq
mask_uart q = record q { sched = set_core q.sched (gic_disable_irq q.sched.machine.core uart_spi) }

-- the interrupt that the GIC signals
pub handle_id : Irqs → ℕ → Irqs
unfolding gic_inject_virq mask_uart
handle_id q id =
    if leb 1020 id || id == cnthp_ppi
    then q
    else if id == 27 || id == 30
    then record q { lrs = gic_inject_virq q.lrs id 0x80 }
    else if id == uart_spi
    then mask_uart (with_gic q (gic_inject_virq_lr (gic_of q) uart_spi 0x80))
    else with_gic q (irq_route_to_vm (gic_of q) q.routes id)

unfoldable pub gic_handle_irq : Irqs → Bool → ℕ → Irqs
unfolding handle_timer handle_id
gic_handle_irq q istatus id = handle_id (handle_timer q istatus) id
