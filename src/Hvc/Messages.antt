-- ===== src/Hvc/Messages.antt =====
-- The calls of guest/hypercall/hvc_handler.c that carry messages, doorbells and transfers.
use hypervisor_base.Common.{
  ℕ, ◌≤◌, true, false, List, ◌∷◌, Option, none, some, ◌==◌, ◌||◌, ltb, if◌then◌else◌, get_or, u32,
  ◌∙◌, ◌≡◌, refl, ap, ap₂, sym, Err, e_ok, err_word, failed, arith,
}
use hypervisor_base.Memory.{load}
use hypervisor_base.State.{Core, vm_at, vcpu_at}
use hypervisor_base.Vm.{vm_by_id, is_running}
use hypervisor_base.Ipc.{
  queue_of, ipc_send, ipc_recv, ipc_notify, ipc_doorbell_virq, source_address,
}
use hypervisor_base.Ipc.Invariant.{AreValid}
use hypervisor_base.Ipc.Refine.{ipc_roundtrip, target_address}
use hypervisor_base.Hvc.Id
use hypervisor_base.Hvc.{
  Hyp, Outcome, core_of, with_core, is_psci, on_call, on_ipc_send, on_ipc_recv, on_ipc_notify,
  doorbell, hvc_dispatch,
}

-- the registers of a call: its number and its arguments, and the rest
abbrev pub args : ℕ → ℕ → ℕ → ℕ → List ℕ → List ℕ
args id a b c xs = id ∷ a ∷ b ∷ c ∷ xs

-- what a guest finds after its call: x0, and the state
pub x0_of : Outcome → ℕ
x0_of none = 0
x0_of (some (h, x)) = get_or x 0 0

pub state_of : Hyp → Outcome → Hyp
state_of h none = h
state_of h (some (h', x)) = h'

sent :
    (h : Hyp) (dst buf len : ℕ) (xs : List ℕ)
    → dst ≤ 4
    → let r = hvc_dispatch h (args Id.ipc_send_id dst buf len xs) in
      let (e, qs) = ipc_send (core_of h) h.queues dst buf len in
      (x0_of r ≡ err_word e) × ((state_of h r).queues ≡ qs)
unfolding x0_of state_of hvc_dispatch on_call is_psci on_ipc_send
sent h dst buf len xs p =
    let e : u32 dst ≡ dst = omega arith in
    (
      ap (λ d. err_word (ipc_send (core_of h) h.queues d buf len).0) e,
      ap (λ d. (ipc_send (core_of h) h.queues d buf len).1) e,
    )

received :
    (h : Hyp) (buf max c : ℕ) (xs : List ℕ)
    → let r = hvc_dispatch h (args Id.ipc_recv_id buf max c xs) in
      let (e, n, _, ram) = ipc_recv (core_of h) h.queues buf max in
      (x0_of r ≡ (if failed e then err_word e else n)) × ((core_of (state_of h r)).ram ≡ ram)
unfolding x0_of state_of hvc_dispatch on_call is_psci on_ipc_recv with_core
received h buf max c xs = (refl, refl)

rung :
    (c : Core) (a i : ℕ)
    → 1 ≤ a
    → a ≤ 4
    → vm_by_id c a ≡ some i
    → is_running (vm_at c i).state ≡ true
    → ipc_notify c (u32 a) ≡ (e_ok, some ipc_doorbell_virq)
unfolding ipc_notify
rung c a i p q e r =
    let small : u32 a ≡ a = omega arith in
    let good : (a == 0 || ltb 4 a) ≡ false = ground arith in
    ap (ipc_notify c) small ∙ rw (good, e, r, ipc_notify) refl

-- A message that a guest sends by a hypercall to a VM whose mailbox is empty, and that this VM
-- fetches by its next hypercall when it runs, into a buffer that is long enough: both calls
-- succeed, the receiver gets the length in x0 and the bytes in its buffer.
pub message_delivered :
    (h h' : Hyp) (dst buf len k i buf' max c : ℕ) (xs ys : List ℕ)
    → AreValid h.queues
    → (queue_of h.queues dst).count ≡ 0
    → 1 ≤ dst
    → dst ≤ 4
    → 1 ≤ len
    → len ≤ 256
    → len ≤ max
    → (core_of h').current ≡ some k
    → (vcpu_at (core_of h') k).vm ≡ some i
    → (vm_at (core_of h') i).id ≡ dst
    → h'.queues ≡ (state_of h (hvc_dispatch h (args Id.ipc_send_id dst buf len xs))).queues
    → let r = hvc_dispatch h' (args Id.ipc_recv_id buf' max c ys) in
      (x0_of (hvc_dispatch h (args Id.ipc_send_id dst buf len xs)) ≡ 0)
      × (x0_of r ≡ len)
      × (load len (target_address (core_of h') i buf') (core_of (state_of h' r)).ram
          ≡ load len (source_address (core_of h) buf) (core_of h).ram)
message_delivered h h' dst buf len k i buf' max c xs ys v e p q r s t a b d g =
    let (sx, sq) = sent h dst buf len xs q in
    let (rx, rr) = received h' buf' max c ys in
    let (e1, e2, e3, e4) =
      ipc_roundtrip (core_of h) (core_of h') h.queues dst buf len k i buf' max v e p q r s t a b
        d in
    let w = g ∙ sq in
    (
      sx ∙ ap err_word e1,
      rx
          ∙ ap₂ (λ f n. if failed f then err_word f else n)
              (ap (λ qs. (ipc_recv (core_of h') qs buf' max).0) w ∙ e2)
              (ap (λ qs. (ipc_recv (core_of h') qs buf' max).1) w ∙ e3),
      ap (load len (target_address (core_of h') i buf')) rr
          ∙ ap
              (λ qs.
                load len (target_address (core_of h') i buf') (ipc_recv (core_of h') qs buf' max).3)
              w
          ∙ e4,
    )

-- A doorbell that a guest rings at one of two running VMs leaves the same state, whichever of the
-- two it names.
pub doorbell_ignores_target :
    (h : Hyp) (a b i j c d : ℕ) (xs : List ℕ)
    → 1 ≤ a
    → a ≤ 4
    → 1 ≤ b
    → b ≤ 4
    → vm_by_id (core_of h) a ≡ some i
    → vm_by_id (core_of h) b ≡ some j
    → is_running (vm_at (core_of h) i).state ≡ true
    → is_running (vm_at (core_of h) j).state ≡ true
    → state_of h (hvc_dispatch h (args Id.ipc_notify_id a c d xs))
      ≡ state_of h (hvc_dispatch h (args Id.ipc_notify_id b c d xs))
unfolding state_of hvc_dispatch on_call is_psci on_ipc_notify
doorbell_ignores_target h a b i j c d xs p q p' q' e e' r r' =
    ap (λ (n : Err × Option ℕ). doorbell h n.1)
      (rung (core_of h) a i p q e r ∙ sym (rung (core_of h) b j p' q' e' r'))
