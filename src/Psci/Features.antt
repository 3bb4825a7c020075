-- ===== src/Psci/Features.antt =====
-- What the feature query of arch/arm64/psci.c announces, and what the calls then answer.
use hypervisor_base.Common.{ℕ, true, ◌||◌, some, ◌==◌, ◌≡◌, ◌≢◌, ◌↔◌, ◌⊎◌, arith}
use hypervisor_base.Psci.Id
use hypervisor_base.Psci.{psci_is_supported, psci_result, is_feature, not_supported}

-- The query announces exactly the functions that `psci_is_supported` lists and the two of SMCCC.
pub features_supported :
    (q : ℕ)
    → (psci_result Id.psci_features q ≡ some 0)
      ↔ ((psci_is_supported q || q == Id.smccc_version || q == Id.smccc_arch_features) ≡ true)
unfolding psci_result is_feature psci_is_supported
features_supported q = ground arith

-- A function that is answered with anything but `NOT_SUPPORTED`, or that does not return, is
-- announced by the query.
pub answered_announced :
    (f arg : ℕ) → psci_result f arg ≢ some not_supported → psci_result Id.psci_features f ≡ some 0
unfolding psci_result is_feature
answered_announced f arg h = ground (arith, h)

-- A processor that the query announces can never be switched on.
pub cpu_on_refused :
    (f arg : ℕ)
    → (f ≡ Id.cpu_on_32) ⊎ (f ≡ Id.cpu_on_64)
    → (psci_result Id.psci_features f ≡ some 0) × (psci_result f arg ≡ some not_supported)
unfolding psci_result is_feature
cpu_on_refused f arg h = ground (arith, h)
