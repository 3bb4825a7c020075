-- ===== src/Vse/FaultDetect.antt =====
-- vse/fault_detect.c: the entry points by which faults reach the trust engine and the monitor.
use hypervisor_base.Common.{
  ℕ, ◌+◌, Bool, true, ◌||◌, Option, none, some, ◌==◌, ltb, if◌then◌else◌, u32, bit_or, max_vms,
}
use hypervisor_base.Vse.State.{FaultStats, Machine}
use hypervisor_base.Vse.Trust.{trust_report_fault}
use hypervisor_base.Vse.Ids.{ids_notify_fault}

abbrev pub fault_mem : ℕ
fault_mem = 1

abbrev pub fault_dma : ℕ
fault_dma = 2

pub fault_detect_init : Machine → Machine
fault_detect_init m = record m {
  stats = record { mem_faults = 0; dma_violations = 0; irq_unrouted = 0; total = 0 };
  fdetect_ready = true;
}

-- the two calls that end a report; their results are not looked at
pub report : Machine → ℕ → ℕ → ℕ → Option Machine
report m id fault_type detail =
    if id == 0 || ltb max_vms id then some m else elim (trust_report_fault m id fault_type detail) [
      | none ↦ none
      | some (e, m') ↦ ids_notify_fault m' id fault_type detail
    ]

pub fdetect_mem_fault : Machine → ℕ → ℕ → Bool → Option Machine
unfolding report
fdetect_mem_fault m id ipa is_write =
    if m.fdetect_ready
    then report
        (record m {
          stats = record m.stats {
            mem_faults = u32 (m.stats.mem_faults + 1);
            total = u32 (m.stats.total + 1);
          };
        })
        id fault_mem (bit_or ipa (if is_write then 9223372036854775808 else 0))
    else some m

pub fdetect_dma_violation : Machine → ℕ → ℕ → Option Machine
unfolding report
fdetect_dma_violation m id fault_pa =
    if m.fdetect_ready
    then report
        (record m {
          stats = record m.stats {
            dma_violations = u32 (m.stats.dma_violations + 1);
            total = u32 (m.stats.total + 1);
          };
        })
        id fault_dma fault_pa
    else some m

unfoldable pub fdetect_irq_unrouted : Machine → Machine
fdetect_irq_unrouted m =
    if m.fdetect_ready
    then record m {
      stats = record m.stats {
        irq_unrouted = u32 (m.stats.irq_unrouted + 1);
        total = u32 (m.stats.total + 1);
      };
    }
    else m

pub fdetect_get_stats : Machine → FaultStats
fdetect_get_stats m = m.stats
