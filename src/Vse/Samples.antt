-- ===== src/Vse/Samples.antt =====
-- A machine with the security engine ready and no backup image.
use hypervisor_base.Common.{◌*◌, List, [], ◌∷◌, true, replicate}
use hypervisor_base.Samples.{core}
use hypervisor_base.Vse.State.{
  TrustRecord, trusted, degraded, revoked, zero_trust, zero_backup, Machine, info, ev_none, unknown,
  IdsRecord,
}

abbrev blank : IdsRecord
blank = record {
  time_us = 0;
  vm_id = 0;
  type = ev_none;
  severity = info;
  fault_type = 0;
  detail = 0;
  trust_at = unknown;
}

abbrev pub machine_with : List TrustRecord → Machine
machine_with rs = record {
  core = core;
  trust = record { initialized = true; per_vm = rs; total_faults = 0; quarantine_count = 0 };
  backups = replicate 4 zero_backup;
  failover_ready = true;
  stats = record { mem_faults = 0; dma_violations = 0; irq_unrouted = 0; total = 0 };
  fdetect_ready = true;
  ids = record {
    initialized = true;
    log = replicate 128 blank;
    log_head = 0;
    log_count = 0;
    mon = [];
    anomalies = 0;
    alerts = 0;
    enforcements = 0;
    last_poll_us = 0;
  };
  clock = λ k. k * 1000;
  ticks = 7;
}

-- VM 1 has had 14 faults, VM 2 is degraded, VM 3 is revoked.
abbrev pub machine : Machine
machine = machine_with (
    record zero_trust { level = degraded; fault_count = 14; last_fault_us = 6000 }
    ∷ record zero_trust { level = degraded; fault_count = 6 }
    ∷ record zero_trust { level = revoked }
    ∷ record zero_trust { level = trusted }
    ∷ [])
