-- ===== src/Ipc/Isolation.antt =====
-- What the calls of guest/ipc/ipc.c leave alone.
use hypervisor_base.Common.{
  ℕ, ◌+◌, ◌-◌, ◌≤◌, ◌<◌, ◌≡◌, ◌≢◌, ◌⊎◌, inl, inr, arith, get_or, take, length-take, get_or-set_ne,
  Bool-cases, e_ok, ◌==◌, some,
}
use hypervisor_base.Memory.{load, store_outside}
use hypervisor_base.State.{Core, vm_at, vcpu_at}
use hypervisor_base.Ipc.{
  Queue, Queues, zero_msg, zero_queue, queue_of, current_id, source_address, copy_len, enqueue,
  dequeue, ipc_send, recv_as, ipc_recv,
}
use hypervisor_base.Ipc.Refine.{target_address}

-- A send changes no ring but the destination's, and nothing at all when it fails.
pub ipc_send_isolated :
    (c : Core) (qs : Queues) (dst buf len id : ℕ)
    → 1 ≤ id
    → (id ≢ dst) ⊎ ((ipc_send c qs dst buf len).0 ≢ e_ok)
    → queue_of (ipc_send c qs dst buf len).1 id ≡ queue_of qs id
unfolding ipc_send
ipc_send_isolated c qs dst buf len id h other = ground (
  arith,
  get_or-set_ne qs (dst - 1) (id - 1)
      (enqueue (queue_of qs dst) (current_id c) (load len (source_address c buf) c.ram)) zero_queue,
)

recv_as_outside :
    (c : Core) (qs : Queues) (i buf max x : ℕ)
    → (x < target_address c i buf) ⊎ (target_address c i buf + max ≤ x)
    → (recv_as c qs i buf max).3 x ≡ c.ram x
unfolding recv_as
recv_as_outside c qs i buf max x h = elim (Bool-cases ((queue_of qs (vm_at c i).id).count == 0)) [
  | inl e ↦ rw e
  | inr e ↦
      let q : Queue = queue_of qs (vm_at c i).id in
      let m = get_or q.slots q.head zero_msg in
      let n : ℕ = copy_len m.len max in
      let short : (n ≤ max) = ground arith in
      rw e (
        store_outside (take n m.bytes) (target_address c i buf) c.ram x
          (omega (arith, length-take n m.bytes)))
]

recv_as_other :
    (c : Core) (qs : Queues) (i buf max id : ℕ)
    → 1 ≤ (vm_at c i).id
    → 1 ≤ id
    → id ≢ (vm_at c i).id
    → queue_of (recv_as c qs i buf max).2 id ≡ queue_of qs id
unfolding recv_as
recv_as_other c qs i buf max id h1 h2 h3 = ground (
  arith,
  get_or-set_ne qs ((vm_at c i).id - 1) (id - 1) (dequeue (queue_of qs (vm_at c i).id)) zero_queue,
)

-- A receive writes no memory outside the `max_len` bytes at the receiver's buffer.
pub ipc_recv_outside :
    (c : Core) (qs : Queues) (k i buf max x : ℕ)
    → c.current ≡ some k
    → (vcpu_at c k).vm ≡ some i
    → (x < target_address c i buf) ⊎ (target_address c i buf + max ≤ x)
    → (ipc_recv c qs buf max).3 x ≡ c.ram x
unfolding ipc_recv
ipc_recv_outside c qs k i buf max x e1 e2 h =
    rw (e1, e2, ipc_recv) (recv_as_outside c qs i buf max x h)

-- A receive changes no ring but that of the receiver.
pub ipc_recv_other :
    (c : Core) (qs : Queues) (k i buf max id : ℕ)
    → c.current ≡ some k
    → (vcpu_at c k).vm ≡ some i
    → 1 ≤ (vm_at c i).id
    → 1 ≤ id
    → id ≢ (vm_at c i).id
    → queue_of (ipc_recv c qs buf max).2 id ≡ queue_of qs id
unfolding ipc_recv
ipc_recv_other c qs k i buf max id e1 e2 h1 h2 h3 =
    rw (e1, e2, ipc_recv) (recv_as_other c qs i buf max id h1 h2 h3)
