-- ===== src/Sched/Tests.antt =====
-- Runs of core/sched/sched.c on a machine with two VMs.
use hypervisor_base.Common.{◌≡◌, refl, some, arith}
use hypervisor_base.State.{zero_el1}
use hypervisor_base.Sched.Switch.{Cpu, vcpu_do_switch, sched_on_timer}
use hypervisor_base.Sched.Switch.Timer.{Switched, timer_round_robin}
use hypervisor_base.Sched.Switch.Registers.{registers_return}
use hypervisor_base.Sched.Samples.{sched, cpu}

timer_round_robin_example : Switched sched (sched_on_timer sched)
timer_round_robin_example = timer_round_robin sched (omega arith)

-- what the guest of the second vCPU leaves
abbrev other_cpu : Cpu
other_cpu = record { sysregs = record zero_el1 { cpacr_el1 = 1; far_el1 = 7 }; vttbr_el2 = 3 }

registers_return_example :
    (vcpu_do_switch (record (vcpu_do_switch sched (some 0) 1) { cpu = other_cpu }) (some 1) 0).cpu
    ≡ record cpu { sysregs = record cpu.sysregs { esr_el1 = 0; far_el1 = 7; par_el1 = 0 } }
registers_return_example = registers_return sched 0 1 other_cpu (omega arith) (omega arith) refl
