-- ===== src/Vm/Lifecycle.antt =====
-- The life cycle of a VM in core/vm/vm.c: which requests are taken in which state.
use hypervisor_base.Common.{
  length-set, ◌⊎◌, Option, some, none, e_inval, if◌then◌else◌, ℕ, ◌<◌, ◌≡◌, ◌≢◌, refl, ◌∙◌, ap,
  false, List, [], ◌∷◌, arith, length, get_or, set, get_or-set_self, get_or-set_ne, Err, e_ok, inl,
  inr, Bool-cases,
}
use hypervisor_base.State.{
  Core, Vm, VmState, vm_none, created, ready, running, suspended, stopped, zero_vm, vm_at,
}
use hypervisor_base.Power.Frame.{power_gate_vm-frame, power_ungate_vm-frame}
use hypervisor_base.Vcpu.Stop.{stop_all-frame}
use hypervisor_base.Vm.{
  is_ready, is_running, is_suspended, is_stopped, vm_start, vm_stop, vm_suspend, vm_resume, is_none,
}
use hypervisor_base.Vm.Table.{IsTable, set-IsTable}

pub data Request : Type 0 where
  start stop suspend resume : Request

-- The call that a request makes of the VM at index `i`.
pub apply : Core → ℕ → Request → Err × Core
apply c i start = vm_start c i
apply c i stop = vm_stop c i
apply c i suspend = vm_suspend c i
apply c i resume = vm_resume c i

-- The diagram of the life cycle: the state that a request leads to, where it is taken.
unfoldable pub next : VmState → Request → Option VmState
next ready start = some running
next running suspend = some suspended
next suspended resume = some running
next s stop = some stopped
next s r = none

abbrev pub state_at : Core → ℕ → VmState
state_at c i = (vm_at c i).state

-- the result code, and the state of the entry, of a request that leads to `o` from `s`
unfoldable pub verdict : Option VmState → VmState → Err × VmState
verdict none s = (e_inval, s)
verdict (some s') s = (e_ok, s')

-- Each request of the life cycle does what the diagram says: taken, it leaves the VM in the state
-- that the diagram leads to; refused, it answers E_INVAL and leaves the state as it is.
pub apply_refines :
    (c : Core) (i : ℕ) (r : Request)
    → i < length c.vms
    → ((apply c i r).0, state_at (apply c i r).1 i) ≡ verdict (next (state_at c i) r) (state_at c i)
unfolding apply next verdict vm_start vm_stop vm_suspend vm_resume
apply_refines c i start h =
    ground (arith, get_or-set_self c.vms i (record (vm_at c i) { state = running }) zero_vm)
apply_refines c i stop h = ground (
  arith,
  ap (λ (r : Core). r.vms) (stop_all-frame c (vm_at c i).vcpus),
  get_or-set_self c.vms i (record (vm_at c i) { state = stopped }) zero_vm,
)
apply_refines c i suspend h = ground (
  arith,
  ap (λ (r : Core). r.vms) (power_gate_vm-frame c (vm_at c i)),
  get_or-set_self c.vms i (record (vm_at c i) { state = suspended }) zero_vm,
)
apply_refines c i resume h = ground (
  arith,
  ap (λ (r : Core). r.vms) (power_ungate_vm-frame c (vm_at c i)),
  get_or-set_self c.vms i (record (vm_at c i) { state = running }) zero_vm,
)

-- What a request writes: at most the state of its entry.
abbrev Writes : Core → ℕ → List Vm → Type 0
Writes c i vms =
    (vms ≡ c.vms)
    ⊎ ((s : VmState) × (is_none s ≡ false) × (vms ≡ set c.vms i (record (vm_at c i) { state = s })))

apply-Writes : (c : Core) (i : ℕ) (r : Request) → Writes c i (apply c i r).1.vms
unfolding apply vm_start vm_stop vm_suspend vm_resume
apply-Writes c i start = elim (Bool-cases (is_ready (state_at c i))) [
  | inl e ↦ rw e (inr (running, refl, refl))
  | inr e ↦ rw e (inl refl)
]
apply-Writes c i stop = elim (Bool-cases (is_stopped (state_at c i))) [
  | inl e ↦ rw e (inl refl)
  | inr e ↦ rw e (
      inr (
        stopped,
        refl,
        ap (λ (r : Core). set r.vms i (record (vm_at c i) { state = stopped }))
            (stop_all-frame c (vm_at c i).vcpus),
      ))
]
apply-Writes c i suspend = elim (Bool-cases (is_running (state_at c i))) [
  | inl e ↦ rw e (
      inr (
        suspended,
        refl,
        ap (λ (r : Core). set r.vms i (record (vm_at c i) { state = suspended }))
            (power_gate_vm-frame c (vm_at c i)),
      ))
  | inr e ↦ rw e (inl refl)
]
apply-Writes c i resume = elim (Bool-cases (is_suspended (state_at c i))) [
  | inl e ↦ rw e (
      inr (
        running,
        refl,
        ap (λ (r : Core). set r.vms i (record (vm_at c i) { state = running }))
            (power_ungate_vm-frame c (vm_at c i)),
      ))
  | inr e ↦ rw e (inl refl)
]

apply-nvm : (c : Core) (i : ℕ) (r : Request) → (apply c i r).1.nvm ≡ c.nvm
unfolding apply vm_start vm_stop vm_suspend vm_resume
apply-nvm c i start = ground arith
apply-nvm c i stop = ground (arith, ap (λ (r : Core). r.nvm) (stop_all-frame c (vm_at c i).vcpus))
apply-nvm c i suspend = ground (arith, ap (λ (r : Core). r.nvm) (power_gate_vm-frame c (vm_at c i)))
apply-nvm c i resume =
    ground (arith, ap (λ (r : Core). r.nvm) (power_ungate_vm-frame c (vm_at c i)))

-- A request to one VM leaves every other entry of the table as it is.
pub apply_other : (c : Core) (i j : ℕ) (r : Request) → i ≢ j → vm_at (apply c i r).1 j ≡ vm_at c j
apply_other c i j r h = elim (apply-Writes c i r) [
  | inl e ↦ ap (λ vs. get_or vs j zero_vm) e
  | inr w ↦ ap (λ vs. get_or vs j zero_vm) w.2 ∙ get_or-set_ne c.vms i j _ zero_vm h
]

-- Each request to a VM keeps the table well-formed, and its length.
pub apply-IsTable :
    (c : Core) (i : ℕ) (r : Request)
    → IsTable c.vms c.nvm
    → IsTable (apply c i r).1.vms (apply c i r).1.nvm
apply-IsTable c i r t = rw (apply-nvm c i r) (elim (apply-Writes c i r) [
  | inl e ↦ rw e t
  | inr w ↦ rw w.2 (set-IsTable c.vms c.nvm i (record (vm_at c i) { state = w.0 }) t refl w.1)
])

length-apply : (c : Core) (i : ℕ) (r : Request) → length (apply c i r).1.vms ≡ length c.vms
length-apply c i r = elim (apply-Writes c i r) [
  | inl e ↦ ap length e
  | inr w ↦ ap length w.2 ∙ length-set c.vms i _
]

-- a sequence of requests to one VM
pub requests : Core → ℕ → List Request → Core
requests c i [] = c
requests c i (r ∷ rs) = requests (apply c i r).1 i rs

next-stopped : (r : Request) → (verdict (next stopped r) stopped).1 ≡ stopped
unfolding next verdict
next-stopped start = refl
next-stopped stop = refl
next-stopped suspend = refl
next-stopped resume = refl

-- No sequence of start, stop, suspend and resume brings a stopped VM back.
pub stopped_stays :
    (c : Core) (i : ℕ) (rs : List Request)
    → i < length c.vms
    → state_at c i ≡ stopped
    → state_at (requests c i rs) i ≡ stopped
unfolding requests
stopped_stays c i [] h e = e
stopped_stays c i (r ∷ rs) h e =
    stopped_stays (apply c i r).1 i rs (omega (arith, length-apply c i r)) (
      ap (λ v. v.1) (apply_refines c i r h) ∙ ap (λ s. (verdict (next s r) s).1) e ∙ next-stopped r)

verdict_suspend :
    (s : VmState) → (verdict (next s suspend) s).1 ≡ (if is_running s then suspended else s)
unfolding next verdict
verdict_suspend vm_none = refl
verdict_suspend created = refl
verdict_suspend ready = refl
verdict_suspend running = refl
verdict_suspend suspended = refl
verdict_suspend stopped = refl

-- A suspension suspends a running VM, and leaves the state of another one.
pub vm_suspend-state :
    (c : Core) (i : ℕ)
    → i < length c.vms
    → state_at (vm_suspend c i).1 i
      ≡ (if is_running (state_at c i) then suspended else state_at c i)
unfolding apply
vm_suspend-state c i h =
    ap (λ v. v.1) (apply_refines c i suspend h) ∙ verdict_suspend (state_at c i)

verdict_stop : (s : VmState) → (verdict (next s stop) s).1 ≡ stopped
unfolding next verdict
verdict_stop vm_none = refl
verdict_stop created = refl
verdict_stop ready = refl
verdict_stop running = refl
verdict_stop suspended = refl
verdict_stop stopped = refl

-- A stop stops the VM.
pub vm_stop-state : (c : Core) (i : ℕ) → i < length c.vms → state_at (vm_stop c i).1 i ≡ stopped
unfolding apply
vm_stop-state c i h = ap (λ v. v.1) (apply_refines c i stop h) ∙ verdict_stop (state_at c i)
