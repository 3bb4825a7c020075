-- ===== src/Irq/Handler/Tests.antt =====
-- A tick of the scheduler, and the interrupts after it.
use hypervisor_base.Common.{true, false, [], ◌∷◌, ◌≡◌, refl}
use hypervisor_base.Sched.Samples.{sched}
use hypervisor_base.Irq.Handler.{Irqs, gic_handle_irq}
use hypervisor_base.Irq.Handler.Preemption.{current_of, handle_all, tick_ends_preemption}

-- the timer runs
abbrev irqs : Irqs
irqs = record {
  sched = sched;
  dists = [];
  cpus = [];
  lrs = 0 ∷ 0 ∷ [];
  routes = [];
  ctl = 1;
  stopped = false;
}

tick_ends_preemption_example :
    current_of
      (handle_all (gic_handle_irq irqs true 26) ((true, 26) ∷ (true, 33) ∷ (false, 48) ∷ []))
    ≡ current_of (gic_handle_irq irqs true 26)
tick_ends_preemption_example =
    tick_ends_preemption irqs 26 ((true, 26) ∷ (true, 33) ∷ (false, 48) ∷ []) refl
