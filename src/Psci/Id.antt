-- ===== src/Psci/Id.antt =====
-- The function numbers of arch/arm64/psci.c that it handles.
use hypervisor_base.Common.{ℕ}

abbrev pub version : ℕ
version = 0x84000000

abbrev pub cpu_suspend_32 : ℕ
cpu_suspend_32 = 0x84000001

abbrev pub cpu_off : ℕ
cpu_off = 0x84000002

abbrev pub cpu_on_32 : ℕ
cpu_on_32 = 0x84000003

abbrev pub affinity_info_32 : ℕ
affinity_info_32 = 0x84000004

abbrev pub migrate_info_type : ℕ
migrate_info_type = 0x84000006

abbrev pub system_off : ℕ
system_off = 0x84000008

abbrev pub system_reset : ℕ
system_reset = 0x84000009

abbrev pub psci_features : ℕ
psci_features = 0x8400000a

abbrev pub cpu_suspend_64 : ℕ
cpu_suspend_64 = 0xc4000001

abbrev pub cpu_on_64 : ℕ
cpu_on_64 = 0xc4000003

abbrev pub affinity_info_64 : ℕ
affinity_info_64 = 0xc4000004

abbrev pub smccc_version : ℕ
smccc_version = 0x80000000

abbrev pub smccc_arch_features : ℕ
smccc_arch_features = 0x80000001
