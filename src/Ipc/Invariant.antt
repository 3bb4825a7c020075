-- ===== src/Ipc/Invariant.antt =====
-- When a ring of guest/ipc/ipc.c is well-formed, and its operations.
use hypervisor_base.Common.{
  ℕ, zero, suc, ◌+◌, ◌-◌, ◌%◌, ◌≤◌, ◌<◌, ◌≡◌, ◌≢◌, refl, ◌∙◌, inl, inr, List, arith, ◌==◌, length,
  get_or, set, replicate, length-set, get_or-set_cases, Bool-cases, Option-cases,
}
use hypervisor_base.Memory.{load}
use hypervisor_base.State.{Core, vm_at, vcpu_at}
use hypervisor_base.Ipc.{
  Queue, Queues, zero_queue, queue_of, current_id, source_address, ipc_init, enqueue, dequeue,
  ipc_send, recv_as, ipc_recv,
}

pub record IsValid (q : Queue) : Type 0 where
  pub depth : length q.slots ≡ 8
  pub head_in : q.head < 8
  pub bounded : q.count ≤ 8
  pub tail_at : q.tail ≡ (q.head + q.count) % 8

zero_queue-IsValid : IsValid zero_queue
zero_queue-IsValid = omega arith

pub enqueue-IsValid :
    (q : Queue) (src : ℕ) (sent : List ℕ) → IsValid q → q.count < 8 → IsValid (enqueue q src sent)
unfolding enqueue
enqueue-IsValid q src sent v h = record {
  depth = length-set q.slots q.tail _ ∙ v.depth;
  head_in = v.head_in;
  bounded = omega arith;
  tail_at = omega arith;
}

pub dequeue-IsValid : (q : Queue) → IsValid q → q.count ≢ 0 → IsValid (dequeue q)
unfolding dequeue
dequeue-IsValid q v h = omega arith

-- All rings of `_queues`.
pub record AreValid (qs : Queues) : Type 0 where
  pub many : length qs ≡ 4
  pub each : (id : ℕ) → IsValid (queue_of qs id)

-- one ring replaced by a valid one
pub set-AreValid :
    (qs : Queues) (i : ℕ) (q : Queue) → AreValid qs → IsValid q → AreValid (set qs i q)
set-AreValid qs i q v h = record {
  many = length-set qs i q ∙ v.many;
  each = λ id. elim (get_or-set_cases qs i (id - 1) q zero_queue) [
    | inl e ↦ rw e h
    | inr e ↦ rw e (v.each id)
  ];
}

each-replicate : (n i : ℕ) → IsValid (get_or (replicate n zero_queue) i zero_queue)
each-replicate zero i = zero_queue-IsValid
each-replicate (suc n) zero = zero_queue-IsValid
each-replicate (suc n) (suc i) = each-replicate n i

-- `ipc_init` leaves every ring valid and empty.
pub ipc_init-AreValid : AreValid ipc_init
unfolding ipc_init
ipc_init-AreValid = record { many = refl; each = λ id. each-replicate 4 (id - 1) }

-- `ipc_send` keeps every ring valid, on every branch: the counts stay within the depth, and the
-- next slot to write is the one that follows the pending messages.
pub ipc_send-AreValid :
    (c : Core) (qs : Queues) (dst buf len : ℕ)
    → AreValid qs
    → AreValid (ipc_send c qs dst buf len).1
unfolding ipc_send
ipc_send-AreValid c qs dst buf len v = ground (
  arith,
  set-AreValid qs (dst - 1)
      (enqueue (queue_of qs dst) (current_id c) (load len (source_address c buf) c.ram)) v,
  enqueue-IsValid (queue_of qs dst) (current_id c) (load len (source_address c buf) c.ram)
      (v.each dst),
)

recv_as-AreValid :
    (c : Core) (qs : Queues) (i buf max : ℕ) → AreValid qs → AreValid (recv_as c qs i buf max).2
unfolding recv_as
recv_as-AreValid c qs i buf max v = elim (Bool-cases ((queue_of qs (vm_at c i).id).count == 0)) [
  | inl e ↦ rw e v
  | inr e ↦ rw e (
      set-AreValid qs ((vm_at c i).id - 1) _ v
        (dequeue-IsValid _ (v.each (vm_at c i).id) (ground arith)))
]

-- `ipc_recv` keeps every ring valid, on every branch.
pub ipc_recv-AreValid :
    (c : Core) (qs : Queues) (buf max : ℕ) → AreValid qs → AreValid (ipc_recv c qs buf max).2
unfolding ipc_recv
ipc_recv-AreValid c qs buf max v = elim (Option-cases c.current) [
  | inl e ↦ rw (e, ipc_recv) v
  | inr (k, e) ↦ elim (Option-cases (vcpu_at c k).vm) [
    | inl e' ↦ rw (e, e', ipc_recv) v
    | inr (i, e') ↦ rw (e, e', ipc_recv) (recv_as-AreValid c qs i buf max v)
  ]
]
