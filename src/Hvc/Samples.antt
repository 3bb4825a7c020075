-- ===== src/Hvc/Samples.antt =====
-- A hypervisor to test on: the test machine with empty mailboxes and an unused shared memory.
use hypervisor_base.Common.{List, [], ◌∷◌, false, some}
use hypervisor_base.Samples.{core}
use hypervisor_base.State.{Core}
use hypervisor_base.Ipc.{ipc_init}
use hypervisor_base.Shmem.{pool_pa}
use hypervisor_base.Sched.Samples.{sched}
use hypervisor_base.Sched.Stats.{VmStats, zero_stats}
use hypervisor_base.Drivers.{Drivers, Fuel, ObdShmem}
use hypervisor_base.Hvc.{Hyp}

abbrev pub no_fuel : Fuel
no_fuel = record {
  rpm = 0;
  injection_us = 0;
  coolant_c = 0;
  throttle_pct = 0;
  map_kpa = 0;
  lambda_x100 = 0;
  cyl_status = 0;
  inj_count = 0;
  fault_code = 0;
  seq = 0;
  valid = false;
}

abbrev pub no_obd : ObdShmem
no_obd = record {
  magic = 0;
  rpm = 0;
  speed_kmh = 0;
  coolant_c = 0;
  throttle_pct = 0;
  map_kpa = 0;
  dtc_count = 0;
  dtc_code = 0;
  seq = 0;
  cyl_status = 0;
  inj_count = 0;
}

abbrev pub drivers : Drivers
drivers = record {
  fuel = no_fuel;
  audio = record {
    frames_played = 0;
    frames_dropped = 0;
    latency_ms = 0;
    playing = false;
    valid = false;
  };
  obd = no_obd;
}

abbrev pub hyp : Hyp
hyp = record {
  sched = sched;
  queues = ipc_init;
  regions = [];
  cursor = pool_pa;
  drivers = drivers;
  dists = [];
  cpus = [];
  lrs = 0 ∷ 0 ∷ [];
}

-- the same machine when the RTOS has the processor
abbrev pub rtos_runs : Core
rtos_runs = record core { current = some 1 }

-- two VMs that ran for three and one time units
abbrev pub busy : List VmStats
busy = record zero_stats { total_us = 3000000 } ∷ record zero_stats { total_us = 1000000 } ∷ []
