-- ===== src/Trap/Tests.antt =====
-- Exceptions of the guests.
use hypervisor_base.Common.{ℕ, Bool, [], ◌≡◌, refl, Err, e_ok, arith}
use hypervisor_base.State.{vcpu_at}
use hypervisor_base.Hvc.{core_of}
use hypervisor_base.Hvc.Samples.{hyp}
use hypervisor_base.Trap.{Trap, on_sysreg, hyp_sync_handler}
use hypervisor_base.Trap.Frame.{GoesOnAt, sysreg_isolated, smc_repeats}

abbrev ones : ℕ → ℕ → ℕ → Bool → ℕ → Err × ℕ × ℕ
ones f d fa w v = (e_ok, 0xffffffff, d)

abbrev trap : Trap ℕ
trap = record { hyp = hyp; mmio = record { regs = []; current_vm_id = 0 }; devices = 0; pmus = [] }

sysreg_isolated_example :
    vcpu_at (core_of (on_sysreg ones trap 0 0x60379d01).hyp) 1 ≡ vcpu_at (core_of trap.hyp) 1
sysreg_isolated_example = sysreg_isolated ones trap 0 1 0x60379d01 (λ e. absurd (omega arith))

smc_repeats_example :
    GoesOnAt ones trap 0
      (hyp_sync_handler ones trap (record { far = 0; elr = 0; hpfar = 0 }) 0x5e000000)
smc_repeats_example =
    smc_repeats ones trap 0 (record { far = 0; elr = 0; hpfar = 0 }) 0x5e000000 refl refl
