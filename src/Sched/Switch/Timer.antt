-- ===== src/Sched/Switch/Timer.antt =====
-- What a timer interrupt does to the scheduler (`sched_on_timer` of core/sched/sched.c).
use hypervisor_base.Common.{
  ℕ, ◌+◌, ◌%◌, ◌<◌, ◌≤◌, ◌≡◌, refl, ◌∙◌, ap, Bool, true, Option, none, some, ◌==◌, if◌then◌else◌,
  if_split, Bool-cases, inl, inr, length, u32, arith,
}
use hypervisor_base.State.{Core}
use hypervisor_base.Vse.Ids.Frame.{ids_poll-core}
use hypervisor_base.Sched.Scan.{scan_around}
use hypervisor_base.Sched.Scan.Order.{Found, found, nothing, ahead, round_robin}
use hypervisor_base.Sched.Switch.{
  Sched, slot_at, slot_vcpu, find_next_rr, vm_id_of, gate_uart, save_vcpu, load_vcpu,
  vcpu_do_switch, poll_monitor, is_same, account, do_switch, switch_to, sched_on_timer,
  major_frame_us,
}

poll_monitor-core : (s : Sched) → (poll_monitor s).machine.core ≡ s.machine.core
unfolding poll_monitor
poll_monitor-core s =
    if_split (λ (r : Sched). r.machine.core ≡ s.machine.core) (u32 (s.poll_ctr + 1) % 8 == 0)
      (λ _. ids_poll-core s.machine) λ _. refl

is_same-eq : (prev : Option ℕ) (k : ℕ) → is_same prev k ≡ true → prev ≡ some k
is_same-eq none k h = ground arith
is_same-eq (some j) k h = ap some (ground arith)

vcpu_do_switch-current :
    (s : Sched) (prev : Option ℕ) (k : ℕ) → (vcpu_do_switch s prev k).machine.core.current ≡ some k
unfolding vcpu_do_switch load_vcpu
vcpu_do_switch-current s none k = refl
vcpu_do_switch-current s (some j) k = refl

do_switch-current :
    (s : Sched) (k dur : ℕ) (b : Bool)
    → (do_switch s s.machine.core.current k dur b).machine.core.current ≡ some k
unfolding do_switch account
do_switch-current s k dur b =
    let prev = s.machine.core.current in
    let p = vm_id_of s.machine.core prev in
    let q = vm_id_of s.machine.core (some k) in
    let s' : Sched = account (if p == q then s else poll_monitor s) p q dur b in
    if_split (λ (r : Sched). r.machine.core.current ≡ some k) (is_same prev k)
      (λ e.
        if_split (λ (r : Sched). r.machine.core.current ≡ prev) (p == q) (λ _. refl)
          (λ _. ap (λ (c : Core). c.current) (poll_monitor-core s))
        ∙ is_same-eq prev k e)
      λ _. vcpu_do_switch-current s' prev k

poll_monitor-cur : (s : Sched) → (poll_monitor s).cur ≡ s.cur
unfolding poll_monitor
poll_monitor-cur s =
    if_split (λ (r : Sched). r.cur ≡ s.cur) (u32 (s.poll_ctr + 1) % 8 == 0) (λ _. refl) λ _. refl

vcpu_do_switch-cur : (s : Sched) (prev : Option ℕ) (k : ℕ) → (vcpu_do_switch s prev k).cur ≡ s.cur
unfolding vcpu_do_switch load_vcpu save_vcpu
vcpu_do_switch-cur s none k = refl
vcpu_do_switch-cur s (some j) k = refl

do_switch-cur :
    (s : Sched) (prev : Option ℕ) (k dur : ℕ) (b : Bool) → (do_switch s prev k dur b).cur ≡ s.cur
unfolding do_switch account
do_switch-cur s prev k dur b =
    let p = vm_id_of s.machine.core prev in
    let q = vm_id_of s.machine.core (some k) in
    let s' : Sched = account (if p == q then s else poll_monitor s) p q dur b in
    let e : s'.cur ≡ s.cur =
      if_split (λ (r : Sched). r.cur ≡ s.cur) (p == q) (λ _. refl) (λ _. poll_monitor-cur s) in
    if_split (λ (r : Sched). r.cur ≡ s.cur) (is_same prev k) (λ _. e)
      λ _. vcpu_do_switch-cur s' prev k ∙ e

-- What a timer interrupt may do to a scheduler in the state `s`: it runs the vCPU of the first slot
-- after the present one that has a runnable one, for the time of that slot; or no slot has one, and
-- it only sets the timer.
pub data Switched (s : Sched) : Sched → Type 0 where
  switched :
      (s' : Sched) (k d : ℕ)
      → 1 ≤ d
      → d ≤ length s.slots
      → slot_vcpu s (ahead (length s.slots) s.cur d) ≡ some k
      → ((j : ℕ) → 1 ≤ j → j < d → slot_vcpu s (ahead (length s.slots) s.cur j) ≡ none)
      → s'.cur ≡ ahead (length s.slots) s.cur d
      → s'.machine.core.current ≡ some k
      → s'.timer_us ≡ (slot_at s (ahead (length s.slots) s.cur d)).duration_us
      → Switched s s'
  waits :
      ((j : ℕ) → 1 ≤ j → j ≤ length s.slots → slot_vcpu s (ahead (length s.slots) s.cur j) ≡ none)
      → Switched s (record s { timer_us = major_frame_us })

-- `sched_on_timer` once the search is done
Resumed : Sched → Option ℕ × ℕ → Type 0
Resumed s (r, c) = Switched s (elim r [
  | none ↦ record s { cur = c; timer_us = major_frame_us }
  | some next ↦ switch_to (record s { cur = c }) s.machine.core.current next true
])

resumes-Resumed :
    (s : Sched) (x : Option ℕ × ℕ) → Found (slot_vcpu s) (length s.slots) s.cur x → Resumed s x
unfolding Resumed switch_to gate_uart
resumes-Resumed s x (found k d l m f h) =
    let c = ahead (length s.slots) s.cur d in
    switched _ k d l m f h (do_switch-cur (record s { cur = c }) s.machine.core.current k _ true)
      (do_switch-current (record s { cur = c }) k _ true) refl
resumes-Resumed s x (nothing h) = waits h

-- With a table of slots that is not empty and the present slot in it, a timer interrupt runs the
-- vCPU of the first slot after the present one, in cyclic order and the present one last, whose vCPU
-- is runnable, and sets the timer to the time of that slot; when no slot has a runnable vCPU it
-- only sets the timer to the major frame.
pub timer_round_robin : (s : Sched) → s.cur < length s.slots → Switched s (sched_on_timer s)
unfolding sched_on_timer find_next_rr Resumed
timer_round_robin s w = elim (Bool-cases (length s.slots == 0)) [
  | inl e ↦ absurd (ground arith)
  | inr e ↦ rw (e) (
      resumes-Resumed s (scan_around (slot_vcpu s) (length s.slots) s.cur)
        (round_robin (slot_vcpu s) (length s.slots) s.cur w))
]
