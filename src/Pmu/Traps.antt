-- ===== src/Pmu/Traps.antt =====
-- The emulation of the monitor's registers in core/vcpu/pmu.c.
use hypervisor_base.Common.{
  ℕ, zero, suc, ◌+◌, ◌%◌, Bool, true, false, List, Option, none, some, ◌==◌, ltb, if◌then◌else◌,
  get_or, ◌≡◌, ◌≢◌, refl, ap, if_split, get_or-set_ne, arith,
}
use hypervisor_base.Irq.Vgic.{rt_of, enc_of, set_reg, reg_value}
use hypervisor_base.Pmu.{PmuCtx, access_reg, trap_with, trap_event, sys_reg_enc, pmu_handle_trap}

-- The register of the guest that an access uses is given by the register of the monitor that the
-- code takes the access for: the lowest five bits of its encoding.
pub register_fixed : (iss : ℕ) → rt_of iss ≡ enc_of iss % 32
register_fixed iss = omega arith

set_reg_other : (x : List ℕ) (rt v k : ℕ) → k ≢ rt → get_or (set_reg x rt v) k 0 ≡ get_or x k 0
set_reg_other x rt v k h =
    if_split (λ (y : List ℕ). get_or y k 0 ≡ get_or x k 0) (ltb rt 31)
      (λ _. get_or-set_ne x rt k v 0 (λ e. h (omega arith))) λ _. refl

-- the result of a trap: the registers but `rt` are kept, and a read keeps the context
pub IsLocal : PmuCtx → List ℕ → ℕ → Bool → PmuCtx × List ℕ → Type 0
IsLocal ctx x rt r (ctx', x') =
    ((k : ℕ) → k ≢ rt → get_or x' k 0 ≡ get_or x k 0) × (r ≡ true → ctx' ≡ ctx)

access_local :
    (ctx : PmuCtx) (x : List ℕ) (rt : ℕ) (r : Bool) (get : ℕ) (put : PmuCtx)
    → IsLocal ctx x rt r (access_reg ctx x rt r get put)
unfolding IsLocal
access_local ctx x rt true get put = (set_reg_other x rt get, λ _. refl)
access_local ctx x rt false get put = (λ k h. refl, λ e. absurd (ground arith))

pick :
    (ctx : PmuCtx) (x : List ℕ) (rt : ℕ) (r b : Bool) (y z : PmuCtx × List ℕ)
    → IsLocal ctx x rt r y
    → IsLocal ctx x rt r z
    → IsLocal ctx x rt r (if b then y else z)
pick ctx x rt r b y z p q = if_split (IsLocal ctx x rt r) b (λ _. p) λ _. q

no_event :
    (ctx : PmuCtx) (x : List ℕ) (rt : ℕ) (r : Bool)
    → IsLocal ctx x rt r (ctx, if r then set_reg x rt 0 else x)
unfolding IsLocal
no_event ctx x rt true = (set_reg_other x rt 0, λ _. refl)
no_event ctx x rt false = (λ k h. refl, λ _. refl)

trap_event_local :
    (n : ℕ) (ctx : PmuCtx) (x : List ℕ) (enc rt : ℕ) (r : Bool) (val i : ℕ)
    → IsLocal ctx x rt r (trap_event n ctx x enc rt r val i)
unfolding trap_event
trap_event_local zero ctx x enc rt r val i = no_event ctx x rt r
trap_event_local (suc n) ctx x enc rt r val i =
    pick ctx x rt r (enc == 0xdf40 + i) _ _ (access_local ctx x rt r _ _) (
      pick ctx x rt r (enc == 0xdf60 + i) _ _ (access_local ctx x rt r _ _)
        (trap_event_local n ctx x enc rt r val (i + 1)))

trap_local :
    (ctx : PmuCtx) (x : List ℕ) (enc rt : ℕ) (r : Bool) (val : ℕ)
    → IsLocal ctx x rt r (trap_with ctx x enc rt r val)
unfolding trap_with
trap_local ctx x enc rt r val =
    pick ctx x rt r (enc == sys_reg_enc 3 3 9 12 0) _ _ (access_local ctx x rt r _ _) (
      pick ctx x rt r (enc == sys_reg_enc 3 3 9 12 1) _ _ (access_local ctx x rt r _ _) (
        pick ctx x rt r (enc == sys_reg_enc 3 3 9 12 2) _ _ (access_local ctx x rt r _ _) (
          pick ctx x rt r (enc == sys_reg_enc 3 3 9 12 3) _ _ (access_local ctx x rt r _ _) (
            pick ctx x rt r (enc == sys_reg_enc 3 3 9 13 0) _ _ (access_local ctx x rt r _ _) (
              pick ctx x rt r (enc == sys_reg_enc 3 3 14 15 7) _ _ (access_local ctx x rt r _ _) (
                pick ctx x rt r (enc == sys_reg_enc 3 0 9 14 1) _ _ (access_local ctx x rt r _ _) (
                  pick ctx x rt r (enc == sys_reg_enc 3 0 9 14 2) _ _ (access_local ctx x rt r _ _)
                    (trap_event_local 4 ctx x enc rt r val 0))))))))

-- An emulated access, of a vCPU or without one, changes at most the one register of the guest that
-- it names.
pub handle_trap_other :
    (c : Option PmuCtx) (x : List ℕ) (esr k : ℕ)
    → k ≢ rt_of (esr % 33554432)
    → get_or (pmu_handle_trap c x esr).1 k 0 ≡ get_or x k 0
unfolding pmu_handle_trap IsLocal
handle_trap_other none x esr k h =
    if_split (λ (y : List ℕ). get_or y k 0 ≡ get_or x k 0) (esr % 33554432 % 2 == 1)
      (λ _. set_reg_other x (rt_of (esr % 33554432)) 0 k h) λ _. refl
handle_trap_other (some ctx) x esr k h =
    let iss = esr % 33554432 in
    (trap_local ctx x (enc_of iss) (rt_of iss) (iss % 2 == 1) (reg_value x (rt_of iss))).0 k h

-- An emulated read of a vCPU leaves the state of its monitor.
pub handle_read_pure :
    (ctx : PmuCtx) (x : List ℕ) (esr : ℕ)
    → esr % 2 ≡ 1
    → (pmu_handle_trap (some ctx) x esr).0 ≡ some ctx
unfolding pmu_handle_trap IsLocal
handle_read_pure ctx x esr h =
    let iss = esr % 33554432 in
    let r : (iss % 2 == 1) ≡ true = ground arith in
    ap some
      ((trap_local ctx x (enc_of iss) (rt_of iss) (iss % 2 == 1) (reg_value x (rt_of iss))).1 r)
