-- ===== src/Irq/Router.antt =====
-- vre/irq/irq_router.c: from physical interrupts to virtual ones.
pub mod Routing
use hypervisor_base.Common.{
  ℕ, ◌+◌, Bool, true, false, ◌&&◌, List, [], ◌∷◌, ◌++◌, Option, none, some, ◌==◌, leb,
  if◌then◌else◌, length, Err, e_ok, e_nomem, e_notfound,
}
use hypervisor_base.Vse.State.{Machine}
use hypervisor_base.Vse.FaultDetect.{fdetect_irq_unrouted}
use hypervisor_base.Irq.Inject.{Gic, gic_inject_virq_lr}

abbrev pub max_routes : ℕ
max_routes = 256

-- `route_t`
pub record Route : Type 0 where
  pub phys : ℕ
  pub vm_id : ℕ
  pub virq : ℕ
  pub active : Bool

pub irq_router_init : List Route
irq_router_init = []

pub irq_route_add : List Route → ℕ → ℕ → ℕ → Err × List Route
irq_route_add rs phys id virq =
    if leb max_routes (length rs)
    then (e_nomem, rs)
    else (e_ok, rs ++ record { phys = phys; vm_id = id; virq = virq; active = true } ∷ [])

pub irq_route_remove : List Route → ℕ → Err × List Route
irq_route_remove [] phys = (e_notfound, [])
irq_route_remove (r ∷ rs) phys =
    let (e, rs') = irq_route_remove rs phys in
    if r.phys == phys then (e_ok, record r { active = false } ∷ rs) else (e, r ∷ rs')

-- the search of `irq_route_to_vm`
pub find_route : List Route → ℕ → Option Route
find_route [] phys = none
find_route (r ∷ rs) phys =
    let rest = find_route rs phys in if r.active && r.phys == phys then some r else rest

unfoldable pub irq_route_to_vm : Gic → List Route → ℕ → Gic
unfolding find_route
irq_route_to_vm g rs phys = elim (find_route rs phys) [
  | none ↦ record g { machine = fdetect_irq_unrouted g.machine }
  | some r ↦ gic_inject_virq_lr g r.virq 0x80
]
