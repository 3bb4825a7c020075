-- ===== src/Hvc/Routing.antt =====
-- Which calls guest/hypercall/hvc_handler.c hands to arch/arm64/psci.c, and what becomes of them.
use hypervisor_base.Common.{
  ℕ, ◌<◌, true, List, none, some, get_or, set, ◌≡◌, ◌⊎◌, refl, err_word, e_unsupported, arith,
}
use hypervisor_base.Psci.{psci_handler, psci_is_supported, psci_result}
use hypervisor_base.Hvc.{Hyp, Outcome, is_psci, on_call, on_driver_call, hvc_dispatch}

supported_psci : (f : ℕ) → psci_is_supported f ≡ true → is_psci f ≡ true
unfolding psci_is_supported is_psci
supported_psci f p = ground (arith, p)

-- Every function that `psci_is_supported` lists reaches the PSCI handler, in a call whose registers
-- hold its number in x0.
pub psci_routed :
    (h : Hyp) (x : List ℕ)
    → psci_is_supported (get_or x 0 0) ≡ true
    → hvc_dispatch h x
      ≡ elim (psci_handler x) as (λ _. Outcome) [ none ↦ none | some x' ↦ some (h, x') ]
unfolding hvc_dispatch
psci_routed h x p = rw (supported_psci (get_or x 0 0) p) refl

-- A guest that asks to switch the system off stops the hypervisor, and with it every other guest:
-- the call never returns.
pub system_off_halts : (h : Hyp) (x : List ℕ) → get_or x 0 0 ≡ 0x84000008 → hvc_dispatch h x ≡ none
unfolding hvc_dispatch is_psci psci_handler psci_result
system_off_halts h x e = rw (e) refl

-- The numbers of the headers that have no case in the switch, those of the PMU, of the trouble
-- codes, of the vehicle and of the target speed, and all from 0xf2 to 2^31 - 1, are answered with
-- `E_UNSUPPORTED` and change nothing.
pub unknown_refused :
    (h : Hyp) (x : List ℕ)
    → get_or x 0 0 < 2147483648
    → (get_or x 0 0 ≡ 0x40)
      ⊎ ((get_or x 0 0 ≡ 0x41)
          ⊎ ((get_or x 0 0 ≡ 0x52)
              ⊎ ((get_or x 0 0 ≡ 0x53) ⊎ ((get_or x 0 0 ≡ 0x62) ⊎ (0xf1 < get_or x 0 0)))))
    → hvc_dispatch h x ≡ some (h, set x 0 (err_word e_unsupported))
unfolding hvc_dispatch on_call on_driver_call is_psci
unknown_refused h x l u = ground (arith, l, u)
