-- ===== src/Sched/Samples.antt =====
-- A scheduler of the test machine: a slot for each of its two VMs.
use hypervisor_base.Common.{[], ◌∷◌}
use hypervisor_base.State.{zero_el1}
use hypervisor_base.Vse.Samples.{machine}
use hypervisor_base.Sched.Switch.{Sched, Cpu}

abbrev pub cpu : Cpu
cpu = record {
  sysregs = record zero_el1 {
    sctlr_el1 = 0x30d00801;
    cpacr_el1 = 0x300000;
    mair_el1 = 0xff;
    esr_el1 = 0x56000000;
  };
  vttbr_el2 = 0x1000000100000;
}

abbrev pub sched : Sched
sched = record {
  machine = machine;
  slots =
      record { vm_id = 1; vcpu_id = 0; duration_us = 2000000 }
      ∷ record { vm_id = 2; vcpu_id = 0; duration_us = 500000 }
      ∷ [];
  cur = 0;
  stats = [];
  switches = 0;
  poll_ctr = 0;
  timer_us = 0;
  cpu = cpu;
}
