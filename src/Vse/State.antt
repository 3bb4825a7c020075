-- ===== src/Vse/State.antt =====
-- The state of vse/trust.h, vse/failover.h, vse/fault_detect.h and vse/ids.h, beside the VM layer's.
-- `clock` gives the readings of the hardware timer in the order in which the code takes them, and
-- `ticks` counts those taken.
use hypervisor_base.Common.{ℕ, ◌+◌, Bool, false, List}
use hypervisor_base.State.{Core}

-- `trust_level_t`
pub data TrustLevel : Type 0 where
  unknown trusted degraded quarantine revoked : TrustLevel

-- the value of the enumerator
abbrev pub rank : TrustLevel → ℕ
rank unknown = 0
rank trusted = 1
rank degraded = 2
rank quarantine = 3
rank revoked = 4

-- `trust_record_t`
pub record TrustRecord : Type 0 where
  pub level : TrustLevel
  pub fault_count : ℕ
  pub last_fault_type : ℕ
  pub last_fault_detail : ℕ
  pub downgrade_time : ℕ
  pub last_fault_us : ℕ

abbrev pub zero_trust : TrustRecord
zero_trust = record {
  level = unknown;
  fault_count = 0;
  last_fault_type = 0;
  last_fault_detail = 0;
  downgrade_time = 0;
  last_fault_us = 0;
}

-- `trust_state_t`; `per_vm` is its `vm`
pub record TrustState : Type 0 where
  pub initialized : Bool
  pub per_vm : List TrustRecord
  pub total_faults : ℕ
  pub quarantine_count : ℕ

-- `backup_desc_t`
pub record BackupDesc : Type 0 where
  pub registered : Bool
  pub backup_pa : ℕ
  pub live_pa : ℕ
  pub backup_size : ℕ
  pub entry_ipa : ℕ
  pub critical : Bool
  pub failover_count : ℕ

abbrev pub zero_backup : BackupDesc
zero_backup = record {
  registered = false;
  backup_pa = 0;
  live_pa = 0;
  backup_size = 0;
  entry_ipa = 0;
  critical = false;
  failover_count = 0;
}

-- `fdetect_stats_t`
pub record FaultStats : Type 0 where
  pub mem_faults : ℕ
  pub dma_violations : ℕ
  pub irq_unrouted : ℕ
  pub total : ℕ

pub data EventType : Type 0 where
  ev_none ev_fault ev_storm ev_rapid ev_repeat ev_trust_drop ev_poll ev_enforce : EventType

pub data Severity : Type 0 where
  info warn alert : Severity

-- `ids_record_t`
pub record IdsRecord : Type 0 where
  pub time_us : ℕ
  pub vm_id : ℕ
  pub type : EventType
  pub severity : Severity
  pub fault_type : ℕ
  pub detail : ℕ
  pub trust_at : TrustLevel

-- `ids_vm_mon_t`
pub record VmMonitor : Type 0 where
  pub window_start_us : ℕ
  pub window_faults : ℕ
  pub first_fault_us : ℕ
  pub last_fault_type : ℕ
  pub repeat_run : ℕ
  pub last_seen_level : TrustLevel

-- `ids_state_t`
pub record IdsState : Type 0 where
  pub initialized : Bool
  pub log : List IdsRecord
  pub log_head : ℕ
  pub log_count : ℕ
  pub mon : List VmMonitor
  pub anomalies : ℕ
  pub alerts : ℕ
  pub enforcements : ℕ
  pub last_poll_us : ℕ

pub record Machine : Type 0 where
  pub core : Core
  pub trust : TrustState
  pub backups : List BackupDesc  -- _backup
  pub failover_ready : Bool  -- _initialized of failover.c
  pub stats : FaultStats  -- _stats
  pub fdetect_ready : Bool  -- _initialized of fault_detect.c
  pub ids : IdsState
  pub clock : ℕ → ℕ
  pub ticks : ℕ

-- the reading that the next `timer_now_us` takes
abbrev pub now : Machine → ℕ
now m = m.clock m.ticks

-- the machine once that reading is taken
abbrev pub tick : Machine → Machine
tick m = record m { ticks = m.ticks + 1 }
