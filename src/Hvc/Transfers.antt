-- ===== src/Hvc/Transfers.antt =====
-- The transfers that a guest asks for through guest/hypercall/hvc_handler.c.
use hypervisor_base.Common.{
  ℕ, List, Option, none, some, ◌==◌, if◌then◌else◌, get_or, set, e_denied, err_word,
}
use hypervisor_base.Vse.State.{Machine}
use hypervisor_base.Vse.FaultDetect.{fdetect_dma_violation}
use hypervisor_base.Dma.Guard.{round_up}

-- what the request comes to when it is denied: the report of the violation, and the code
pub denied : Machine → ℕ → List ℕ → Option (Machine × List ℕ)
denied m id x = elim (fdetect_dma_violation m id (get_or x 1 0)) [
  | none ↦ none
  | some m' ↦ some (m', set x 0 (err_word e_denied))
]

-- how many bytes are checked: whole pages, one where no size is given
pub checked_size : ℕ → ℕ
checked_size size = if size == 0 then 4096 else round_up size
