-- ===== src/Vse/Failover/Budget.antt =====
-- The budget of attempts of vse/failover.c.
use hypervisor_base.Common.{
  ℕ, ◌<◌, ◌≤◌, ◌≡◌, refl, Bool, true, ◌||◌, not, Option, none, some, leb, if◌then◌else◌, Err,
  e_busy, e_notfound, length, arith,
}
use hypervisor_base.Vm.{vm_by_id}
use hypervisor_base.Vse.State.{Machine}
use hypervisor_base.Vse.Level.{trust_revoke}
use hypervisor_base.Vse.Level.Frame.{IsIndex}
use hypervisor_base.Vse.Level.Standing.{IsOut, trust_revoke-IsOut}
use hypervisor_base.Vse.Failover.{backup_at, do_failover, failover_on_quarantine}

-- The call comes back with the code `code`, and leaves a machine with the property.
abbrev pub Ends : Err → (Machine → Type 0) → Option (Err × Machine) → Type 0
Ends code P none = ⊥
Ends code P (some (e, m)) = (e ≡ code) × P m

module _ (m : Machine) (id ix i : ℕ) (k : IsIndex id ix) (e : vm_by_id m.core id ≡ some i) where
  do_failover-spent :
      3 ≤ (backup_at m ix).failover_count
      → do_failover m id ix ≡ some (e_busy, (trust_revoke m id).1)
  unfolding do_failover
  do_failover-spent h =
      rw (e, do_failover) (spent (leb 3 (backup_at m ix).failover_count) _ (ground arith))
    where
      spent :
          (b : Bool) (x : Option (Err × Machine))
          → b ≡ true
          → ◌≡◌ {A = Option (Err × Machine)}
              (if b then some (e_busy, (trust_revoke m id).1) else x)
              (some (e_busy, (trust_revoke m id).1))
      spent b x p = rw (p) refl

-- failover_on_quarantine, called for a VM with a critical backup whose three restarts are spent, with
-- both services initialised, returns E_BUSY and leaves the VM revoked and stopped.
pub failover_spent :
    (m : Machine) (id ix i : ℕ)
    → IsIndex id ix
    → vm_by_id m.core id ≡ some i
    → m.failover_ready ≡ true
    → (backup_at m ix).registered ≡ true
    → (backup_at m ix).critical ≡ true
    → 3 ≤ (backup_at m ix).failover_count
    → m.trust.initialized ≡ true
    → ix < length m.trust.per_vm
    → i < length m.core.vms
    → Ends e_busy (IsOut ix i) (failover_on_quarantine m id)
unfolding failover_on_quarantine
failover_spent m id ix i k e r g c h t l v =
    rw (k, failover_on_quarantine) (go _ _ _ r g c _ (do_failover-spent m id ix i k e h))
  where
    go :
        (p q s : Bool)
        → p ≡ true
        → q ≡ true
        → s ≡ true
        → (x : Option (Err × Machine)) → x ≡ some (e_busy, (trust_revoke m id).1)
        → Ends e_busy (IsOut ix i) (
            if not p
            then some (e_notfound, m)
            else if not q || not s
            then some (e_notfound, m)
            else x)
    go p q s a b d x f = rw (a, b, d, f) (refl, trust_revoke-IsOut m id ix i k e t l v)
