-- ===== src/Irq/Router/Routing.antt =====
-- Which virtual interrupt a physical one becomes (vre/irq/irq_router.c).
use hypervisor_base.Common.{
  ℕ, ◌≡◌, refl, true, false, List, [], ◌∷◌, ◌++◌, map, Option, none, some, Err, e_ok, arith,
}
use hypervisor_base.Irq.Inject.{Gic, gic_inject_virq_lr}
use hypervisor_base.Irq.Router.{Route, irq_route_add, irq_route_remove, find_route, irq_route_to_vm}

-- the virtual interrupt of a route that was found
abbrev pub virq_of : Option Route → Option ℕ
virq_of none = none
virq_of (some r) = some r.virq

find-append :
    (rs : List Route) (r : Route) (phys : ℕ)
    → find_route rs phys ≡ none
    → find_route (rs ++ r ∷ []) phys ≡ find_route (r ∷ []) phys
unfolding find_route
find-append [] r phys h = refl
find-append (q ∷ rs) r phys h = ground (arith, find-append rs r phys)

-- An interrupt that had no active route, and for which one is added, is injected as its virtual
-- interrupt.
added_routed :
    (g : Gic) (rs rs' : List Route) (phys id virq : ℕ)
    → find_route rs phys ≡ none
    → irq_route_add rs phys id virq ≡ (e_ok, rs')
    → irq_route_to_vm g rs' phys ≡ gic_inject_virq_lr g virq 0x80
unfolding irq_route_add irq_route_to_vm find_route
added_routed g rs rs' phys id virq h e =
    ground (
      arith,
      find-append rs (record { phys = phys; vm_id = id; virq = virq; active = true }) phys h,
    )

-- another VM for a route
abbrev pub retarget : (ℕ → ℕ) → Route → Route
retarget f r = record r { vm_id = f r.vm_id }

find-retarget :
    (f : ℕ → ℕ) (rs : List Route) (phys : ℕ)
    → virq_of (find_route (map (retarget f) rs) phys) ≡ virq_of (find_route rs phys)
unfolding find_route
find-retarget f [] phys = refl
find-retarget f (r ∷ rs) phys = ground (arith, find-retarget f rs phys)

-- The VM that a route names has no effect: with the VMs of all routes replaced, an interrupt has
-- the same effect.
pub target_ignored :
    (f : ℕ → ℕ) (g : Gic) (rs : List Route) (phys : ℕ)
    → irq_route_to_vm g (map (retarget f) rs) phys ≡ irq_route_to_vm g rs phys
unfolding irq_route_to_vm
target_ignored f g rs phys = ground (arith, find-retarget f rs phys)

-- A route that is removed while an older route of the same interrupt is inactive stays active: the
-- call succeeds and changes nothing.
pub removed_stays :
    (r : Route) (rs : List Route) (phys : ℕ)
    → r.phys ≡ phys
    → r.active ≡ false
    → ◌≡◌ {A = Err × List Route} (irq_route_remove (r ∷ rs) phys) (e_ok, r ∷ rs)
unfolding irq_route_remove
removed_stays r rs phys h a = ground arith
