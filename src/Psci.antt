-- ===== src/Psci.antt =====
-- arch/arm64/psci.c: the PSCI and SMCCC calls of the guests. `none` is the loop that never returns.
pub mod Id
pub mod Features
mod Tests
use hypervisor_base.Common.{
  ℕ, Bool, true, false, ◌||◌, List, Option, none, some, ◌==◌, if◌then◌else◌, get_or, set,
}
use hypervisor_base.Psci.Id

-- `(u64)PSCI_RET_NOT_SUPPORTED`
abbrev pub not_supported : ℕ
not_supported = 18446744073709551615

unfoldable pub psci_is_supported : ℕ → Bool
psci_is_supported id =
    if id == Id.version
    then true
    else if id == Id.cpu_suspend_32
    then true
    else if id == Id.cpu_suspend_64
    then true
    else if id == Id.cpu_off
    then true
    else if id == Id.cpu_on_32
    then true
    else if id == Id.cpu_on_64
    then true
    else if id == Id.affinity_info_32
    then true
    else if id == Id.affinity_info_64
    then true
    else if id == Id.migrate_info_type
    then true
    else if id == Id.system_off
    then true
    else if id == Id.system_reset
    then true
    else id == Id.psci_features

-- the condition of the case `PSCI_PSCI_FEATURES`
pub is_feature : ℕ → Bool
is_feature query =
    query == Id.version
    || query == Id.cpu_suspend_32
    || query == Id.cpu_suspend_64
    || query == Id.cpu_off
    || query == Id.cpu_on_32
    || query == Id.cpu_on_64
    || query == Id.affinity_info_32
    || query == Id.affinity_info_64
    || query == Id.migrate_info_type
    || query == Id.system_off
    || query == Id.system_reset
    || query == Id.psci_features
    || query == Id.smccc_version
    || query == Id.smccc_arch_features

-- The value for `regs[0]`, by the function and the first argument.
unfoldable pub psci_result : ℕ → ℕ → Option ℕ
unfolding is_feature
psci_result func arg =
    if func == Id.version
    then some 65537
    else if func == Id.psci_features
    then some (if is_feature arg then 0 else not_supported)
    else if func == Id.migrate_info_type
    then some 2
    else if func == Id.cpu_off
    then some 0
    else if func == Id.cpu_on_32 || func == Id.cpu_on_64
    then some not_supported
    else if func == Id.affinity_info_32 || func == Id.affinity_info_64
    then some (if arg == 0 then 0 else 1)
    else if func == Id.cpu_suspend_32 || func == Id.cpu_suspend_64
    then some 0
    else if func == Id.system_off
    then none
    else if func == Id.system_reset
    then none
    else if func == Id.smccc_version
    then some 65537
    else some not_supported

unfoldable pub psci_handler : List ℕ → Option (List ℕ)
unfolding psci_result
psci_handler regs = elim (psci_result (get_or regs 0 0) (get_or regs 1 0)) [
  | none ↦ none
  | some v ↦ some (set regs 0 v)
]
