-- ===== src/Vse/Trust/Tests.antt =====
-- Runs of vse/trust.c on a machine with four records.
use hypervisor_base.Common.{
  ◌⊎◌, ℕ, List, take, ◌==◌, if◌then◌else◌, ◌+◌, ◌≡◌, refl, [], ◌∷◌, arith, e_ok,
}
use hypervisor_base.Vm.{vm_by_id, find_vm}
use hypervisor_base.Vse.State.{revoked, trusted}
use hypervisor_base.Vse.Level.{record_at}
use hypervisor_base.Vse.Level.Standing.{standing}
use hypervisor_base.Vse.Failover.{backup_at}
use hypervisor_base.Vse.Samples.{machine}
use hypervisor_base.Vse.Trust.{
  trust_report_fault, note_fault, escalate, trust_auto_promote_tick, Measured, mismatch, skip,
  mark_vms, trust_init,
}
use hypervisor_base.Vse.Trust.Boot.{SomePasses, trust_init-SomePasses}
use hypervisor_base.Vse.Trust.Isolation.{fault_isolated}
use hypervisor_base.Vse.Trust.Quarantine.{Succeeds, IsQuarantined, fault_quarantines}
use hypervisor_base.Vse.Trust.Promote.{IsDue, tick_promotes}
use hypervisor_base.Vse.Trust.Revoked.{call_fault, revoked_stays}

fault_quarantines_example :
    Succeeds (IsQuarantined 0 0 (14 + 1) machine.core) (trust_report_fault machine 1 1 0x1000)
unfolding vm_by_id find_vm
fault_quarantines_example =
    fault_quarantines machine 1 0 0 1 0x1000 refl refl refl refl (omega arith) (omega arith)
      (omega arith) (omega arith) (omega arith)

fault_isolated_example :
    (record_at (note_fault machine 1 1 0x1000) 0 ≡ record_at machine 0)
    × (backup_at (note_fault machine 1 1 0x1000) 0 ≡ backup_at machine 0)
unfolding trust_report_fault escalate note_fault
fault_isolated_example =
    fault_isolated machine (note_fault machine 1 1 0x1000) 2 1 0 1 0x1000 e_ok refl (omega arith)
      refl

tick_promotes_example :
    (IsDue (record_at machine 1) 40000000
      × (standing (record_at (trust_auto_promote_tick machine 40000000).1 1) ≡ (trusted, 0)))
    ⊎ ((¬ IsDue (record_at machine 1) 40000000)
        × (standing (record_at (trust_auto_promote_tick machine 40000000).1 1)
            ≡ standing (record_at machine 1)))
tick_promotes_example = tick_promotes machine 40000000 1 refl refl (omega arith)

revoked_stays_example : (record_at machine 2).level ≡ revoked
unfolding trust_report_fault
revoked_stays_example =
    revoked_stays machine machine (call_fault 3 1 0x1000 ∷ []) 2 (omega arith) (refl, refl, refl)
      refl

-- the image of the VM with number 2 is refused
abbrev second_refused : ℕ → List ℕ → Measured
second_refused id name = if id == 2 then mismatch else skip

trust_init-SomePasses_example : SomePasses second_refused 0 (take machine.core.nvm machine.core.vms)
unfolding trust_init mark_vms
trust_init-SomePasses_example = trust_init-SomePasses second_refused machine 0 refl
