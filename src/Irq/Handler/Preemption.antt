-- ===== src/Irq/Handler/Preemption.antt =====
-- When drivers/gic/gicv3.c lets the scheduler take the processor from a guest.
use hypervisor_base.Common.{
  ℕ, ◌%◌, Bool, true, false, ◌||◌, not, List, [], ◌∷◌, Option, ◌==◌, leb, get_or, ◌≡◌, refl, ap,
  ◌∙◌, if_split, option_split, Option-cases, inl, inr, arith,
}
use hypervisor_base.State.{vcpu_at}
use hypervisor_base.Vse.State.{Machine}
use hypervisor_base.Vse.FaultDetect.{fdetect_irq_unrouted}
use hypervisor_base.Irq.Inject.{Gic, gic_inject_virq_lr, zero_dist, zero_cpu}
use hypervisor_base.Irq.Vgic.{vgic_is_enabled, vgic_is_masked, vgic_get_priority}
use hypervisor_base.Irq.Router.{Route, irq_route_to_vm, find_route}
use hypervisor_base.Irq.Handler.{
  Irqs, gic_handle_irq, handle_timer, handle_id, run_tick, mask_uart, gic_disable_irq, cnthp_ppi,
  uart_spi,
}

-- the vCPU that runs
abbrev pub current_of : Irqs → Option ℕ
current_of q = q.sched.machine.core.current

-- a sequence of interrupts: whether the timer's condition holds at each, and its number
pub handle_all : Irqs → List (Bool × ℕ) → Irqs
handle_all q [] = q
handle_all q ((istatus, id) ∷ is) = handle_all (gic_handle_irq q istatus id) is

Kept : Gic → Gic → Type 0
Kept g g' = g'.machine ≡ g.machine

lrs-Kept : (g : Gic) (lrs : List ℕ) → Kept g (record g { lrs = lrs })
unfolding Kept
lrs-Kept g lrs = refl

inject-Kept : (g : Gic) (virq prio : ℕ) → Kept g (gic_inject_virq_lr g virq prio)
unfolding gic_inject_virq_lr
inject-Kept g virq prio = option_split (Kept g) g.machine.core.current _ _ (lrs-Kept g _) λ k.
    option_split (Kept g) (vcpu_at g.machine.core k).vm _ _ (lrs-Kept g _) λ i.
      if_split (Kept g) (not (vgic_is_enabled (get_or g.dists i zero_dist) virq))
        (λ _. lrs-Kept g g.lrs)
        λ _.
          if_split (Kept g)
            (vgic_is_masked (get_or g.cpus k zero_cpu)
              (vgic_get_priority (get_or g.dists i zero_dist) virq))
            (λ _. lrs-Kept g g.lrs) λ _. lrs-Kept g _

-- An injection leaves the machine.
inject_machine : (g : Gic) (virq prio : ℕ) → (gic_inject_virq_lr g virq prio).machine ≡ g.machine
unfolding Kept
inject_machine g virq prio = inject-Kept g virq prio

unrouted_current : (m : Machine) → (fdetect_irq_unrouted m).core.current ≡ m.core.current
unfolding fdetect_irq_unrouted
unrouted_current m =
    if_split (λ (m' : Machine). m'.core.current ≡ m.core.current) m.fdetect_ready (λ _. refl)
      λ _. refl

route_current :
    (g : Gic) (rs : List Route) (id : ℕ)
    → (irq_route_to_vm g rs id).machine.core.current ≡ g.machine.core.current
unfolding irq_route_to_vm
route_current g rs id = elim (Option-cases (find_route rs id)) [
  | inl e ↦ rw (e, irq_route_to_vm) (unrouted_current g.machine)
  | inr (r, e) ↦
      rw (e, irq_route_to_vm) (ap (λ (m : Machine). m.core.current) (inject_machine g r.virq 0x80))
]

-- what a signalled interrupt keeps: the vCPU that runs, and the timer's control
Same : Irqs → Irqs → Type 0
Same q q' = (current_of q' ≡ current_of q) × (q'.ctl ≡ q.ctl)

handle_id-Same : (q : Irqs) (id : ℕ) → Same q (handle_id q id)
unfolding Same handle_id mask_uart gic_disable_irq
handle_id-Same q id =
    if_split (Same q) (leb 1020 id || id == cnthp_ppi) (λ _. (refl, refl))
      λ _.
        if_split (Same q) (id == 27 || id == 30) (λ _. (refl, refl))
          λ _.
            if_split (Same q) (id == uart_spi)
              (λ _. (ap (λ (m : Machine). m.core.current) (inject_machine _ uart_spi 0x80), refl))
              λ _. (route_current _ q.routes id, refl)

handle_off : (q : Irqs) (s : Bool) (id : ℕ) → q.ctl % 2 ≡ 0 → Same q (gic_handle_irq q s id)
unfolding gic_handle_irq handle_timer Same
handle_off q s id h =
    let off : (q.ctl % 2 == 1) ≡ false = ground arith in
    rw (off, gic_handle_irq) (handle_id-Same q id)

-- With the timer off, no sequence of interrupts takes the processor from the vCPU that runs.
pub off_keeps_current :
    (q : Irqs) (is : List (Bool × ℕ)) → q.ctl % 2 ≡ 0 → current_of (handle_all q is) ≡ current_of q
unfolding handle_all Same
off_keeps_current q [] h = refl
off_keeps_current q ((s, id) ∷ is) h =
    let (e, f) = handle_off q s id h in
    off_keeps_current (gic_handle_irq q s id) is (ap (λ c. c % 2) f ∙ h) ∙ e

ticked_ctl : (q : Irqs) (id : ℕ) → q.ctl % 2 ≡ 1 → (gic_handle_irq q true id).ctl ≡ 2
unfolding gic_handle_irq handle_timer Same
ticked_ctl q id h =
    let on : (q.ctl % 2 == 1) ≡ true = ground arith in
    rw (on, gic_handle_irq) ((handle_id-Same (record (run_tick q) { ctl = 2 }) id).1)

-- The handling of the scheduler's tick switches the timer off: whatever interrupts gic_handle_irq
-- handles next, with nothing else between them that sets the timer again, as the yield of a guest
-- does, the vCPU that the tick gave the processor to keeps it.
pub tick_ends_preemption :
    (q : Irqs) (id : ℕ) (is : List (Bool × ℕ))
    → q.ctl % 2 ≡ 1
    → current_of (handle_all (gic_handle_irq q true id) is) ≡ current_of (gic_handle_irq q true id)
tick_ends_preemption q id is h =
    off_keeps_current (gic_handle_irq q true id) is (omega (arith, ticked_ctl q id h))
