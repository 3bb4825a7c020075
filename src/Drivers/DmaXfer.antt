-- ===== src/Drivers/DmaXfer.antt =====
-- guest/hypercall/hvc_drivers.c, `hvc_dma_xfer`: a guest's request of a transfer. `none` is the halt
-- of a component below.
use hypervisor_base.Common.{
  ℕ, List, Option, none, some, ◌==◌, if◌then◌else◌, get_or, set, e_inval, e_denied, err_word,
  failed,
}
use hypervisor_base.State.{Core, vm_at, vcpu_at}
use hypervisor_base.Vse.State.{Machine}
use hypervisor_base.Dma.Guard.{dma_guard_check_ipa, dma_guard_log_violation}

-- `g_current_vcpu[0]->vm`
unfoldable pub current_vm : Core → Option ℕ
current_vm c = elim c.current [ none ↦ none | some k ↦ (vcpu_at c k).vm ]

-- the request of the VM at index `i`
unfoldable pub xfer_as : Machine → ℕ → List ℕ → ℕ → ℕ → Option (Machine × List ℕ)
xfer_as m i x ipa size =
    if failed (dma_guard_check_ipa m.core.tables (vm_at m.core i) ipa size)
    then elim (dma_guard_log_violation m (vm_at m.core i).id ipa) [
      | none ↦ none
      | some m' ↦ some (m', set x 0 (err_word e_denied))
    ]
    else some (m, set x 0 0)

unfoldable pub hvc_dma_xfer : Machine → List ℕ → Option (Machine × List ℕ)
unfolding current_vm xfer_as
hvc_dma_xfer m x =
    let size = if get_or x 2 0 == 0 then 0x1000 else get_or x 2 0 in
    elim (current_vm m.core) [
      | none ↦ some (m, set x 0 (err_word e_inval))
      | some i ↦ xfer_as m i x (get_or x 1 0) size
    ]
