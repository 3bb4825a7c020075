-- ===== src/Vse/Failover/Tests.antt =====
-- A quarantine with no attempt left (vse/failover.c).
use hypervisor_base.Common.{◌∷◌, [], refl, true, e_busy, arith}
use hypervisor_base.Vm.{vm_by_id, find_vm}
use hypervisor_base.Vse.State.{Machine}
use hypervisor_base.Vse.Level.Standing.{IsOut}
use hypervisor_base.Vse.Samples.{machine}
use hypervisor_base.Vse.Failover.{failover_on_quarantine}
use hypervisor_base.Vse.Failover.Budget.{Ends, failover_spent}

-- VM 1 has been restarted three times.
abbrev worn_out : Machine
worn_out = record machine {
  backups =
      record {
        registered = true;
        backup_pa = 0x90000000;
        live_pa = 0x41000000;
        backup_size = 0x1000;
        entry_ipa = 0x80000;
        critical = true;
        failover_count = 3;
      }
      ∷ [];
}

failover_spent_example : Ends e_busy (IsOut 0 0) (failover_on_quarantine worn_out 1)
unfolding vm_by_id find_vm
failover_spent_example =
    failover_spent worn_out 1 0 0 refl refl refl refl refl (omega arith) refl (omega arith)
      (omega arith)
