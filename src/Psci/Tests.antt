-- ===== src/Psci/Tests.antt =====
-- Queries of the guests.
use hypervisor_base.Common.{◌≡◌, ◌||◌, ◌==◌, ◌↔◌, some, true}
use hypervisor_base.Psci.Id
use hypervisor_base.Psci.{psci_is_supported, psci_result}
use hypervisor_base.Psci.Features.{features_supported}

features_supported_example : (psci_result Id.psci_features 0x84000006 ≡ some 0) ↔ (
    (psci_is_supported 0x84000006
      || 0x84000006 == Id.smccc_version
      || 0x84000006 == Id.smccc_arch_features)
    ≡ true)
features_supported_example = features_supported 0x84000006
