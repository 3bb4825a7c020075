-- ===== src/Irq/Tests.antt =====
-- Runs of the virtual interrupts.
use hypervisor_base.Common.{
  ◌+◌, ◌*◌, ◌/◌, ◌%◌, ◌^◌, ◌≡◌, refl, List, [], ◌∷◌, map, get_or, replicate, true, false, Err, e_ok,
  arith,
}
use hypervisor_base.Vse.Samples.{machine}
use hypervisor_base.Irq.Vgic.{Dist, vgic_dist_write, vgic_get_priority, rt_of}
use hypervisor_base.Irq.Vgic.Registers.{priority_written, pmr_register}
use hypervisor_base.Irq.Inject.{Gic, gic_inject_virq_lr}
use hypervisor_base.Irq.Inject.Lists.{busy_stay}
use hypervisor_base.Irq.Router.{Route, irq_route_remove, irq_route_to_vm}
use hypervisor_base.Irq.Router.Routing.{retarget, target_ignored, removed_stays}

-- a distributor after reset, its list of priorities written out
abbrev reset : Dist
reset = record {
  priority = replicate 256 0xa0;
  enable = 0xffff ∷ [];
  pending = [];
  initialised = true;
}

priority_written_example :
    vgic_get_priority (vgic_dist_write reset (0x400 + 32) 0x40302010).1 (32 + 1)
    ≡ 0x40302010 / 2 ^ (1 * 8) % 256
priority_written_example =
    priority_written reset 32 1 0x40302010 refl refl (omega arith) (omega arith)

-- Op0 = 3, CRn = 4, CRm = 6 and the register x16
pmr_register_example : rt_of 0x304600 ≡ 16
pmr_register_example = pmr_register 0x304600 refl

abbrev gic : Gic
gic = record { machine = machine; dists = []; cpus = []; lrs = 0 ∷ 0 ∷ [] }

-- the first register is pending, the second is free
abbrev half_full : Gic
half_full = record gic { lrs = 4611686018427387937 ∷ 0 ∷ [] }

busy_stay_example : get_or (gic_inject_virq_lr half_full 5 0x80).lrs 0 0 ≡ 4611686018427387937
busy_stay_example = busy_stay half_full 5 0x80 0 refl (omega arith) refl

abbrev route : Route
route = record { phys = 48; vm_id = 1; virq = 48; active = true }

target_ignored_example :
    irq_route_to_vm gic (map (retarget (λ id. 2)) (route ∷ [])) 48
    ≡ irq_route_to_vm gic (route ∷ []) 48
target_ignored_example = target_ignored (λ id. 2) gic (route ∷ []) 48

removed_stays_example :
    ◌≡◌ {A = Err × List Route}
      (irq_route_remove (record route { active = false } ∷ route ∷ []) 48)
      (e_ok, record route { active = false } ∷ route ∷ [])
removed_stays_example = removed_stays (record route { active = false }) (route ∷ []) 48 refl refl
