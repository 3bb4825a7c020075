-- ===== src/Ipc.antt =====
-- guest/ipc/ipc.c: one ring of messages for each destination VM, and copies between a VM's memory
-- and the ring. The handlers read the VM table and the current vCPU (State).
mod Tests
pub mod Mailbox
pub mod Invariant
pub mod Refine
pub mod Isolation
use hypervisor_base.Common.{
  ℕ, ◌+◌, ◌-◌, ◌%◌, Bool, true, false, ◌||◌, ◌&&◌, List, [], ◌∷◌, ◌++◌, Option, none, some, ◌==◌,
  ltb, leb, if◌then◌else◌, length, get_or, set, take, drop, replicate, u32, u64, sub_u64, max_vms,
  Err, e_ok, e_inval, e_busy, e_notfound,
}
use hypervisor_base.Memory.{Ram, load, store}
use hypervisor_base.State.{Core, Vm, MemRegion, zero_region, vm_at, vcpu_at}
use hypervisor_base.Vm.{vm_by_id, is_running}

abbrev pub ipc_msg_max : ℕ
ipc_msg_max = 256

abbrev pub ipc_depth : ℕ
ipc_depth = 8

abbrev pub ipc_doorbell_virq : ℕ
ipc_doorbell_virq = 31

-- `ipc_msg_t`; `bytes` is its `data`
pub record Msg : Type 0 where
  pub bytes : List ℕ
  pub len : ℕ
  pub src_vm_id : ℕ

-- `ipc_queue_t`
pub record Queue : Type 0 where
  pub slots : List Msg
  pub head : ℕ
  pub tail : ℕ
  pub count : ℕ

abbrev pub zero_msg : Msg
zero_msg = record { bytes = replicate ipc_msg_max 0; len = 0; src_vm_id = 0 }

abbrev pub zero_queue : Queue
zero_queue = record { slots = replicate ipc_depth zero_msg; head = 0; tail = 0; count = 0 }

abbrev pub Queues : Type 0
Queues = List Queue

-- `_queues[id - 1]`
abbrev pub queue_of : Queues → ℕ → Queue
queue_of qs id = get_or qs (id - 1) zero_queue

unfoldable pub ipc_init : Queues
ipc_init = replicate max_vms zero_queue

-- `pa_base - ipa_base` of the VM's first region, or 0 without one; what the code adds to an IPA
pub pa_offset : Vm → ℕ
pa_offset vm =
    if length vm.mem == 0
    then 0
    else sub_u64 (get_or vm.mem 0 zero_region).pa_base (get_or vm.mem 0 zero_region).ipa_base

-- the id of the VM that runs, or 0
pub current_id : Core → ℕ
current_id c = elim c.current [
  | none ↦ 0
  | some k ↦ elim (vcpu_at c k).vm [ none ↦ 0 | some i ↦ (vm_at c i).id ]
]

-- where `ipc_send` reads the message: `buf_ipa + pa_base` for the sender's VM
pub source_address : Core → ℕ → ℕ
unfolding pa_offset current_id
source_address c buf =
    u64 (buf + elim (vm_by_id c (current_id c)) [ none ↦ 0 | some i ↦ pa_offset (vm_at c i) ])

-- filling the slot at `tail`; `memcpy` writes the first bytes of `data` and leaves the rest
pub enqueue : Queue → ℕ → List ℕ → Queue
enqueue q src sent = record q {
  slots = set q.slots q.tail (record {
    bytes = sent ++ drop (length sent) (get_or q.slots q.tail zero_msg).bytes;
    len = length sent;
    src_vm_id = src;
  });
  tail = u32 (q.tail + 1) % ipc_depth;
  count = u32 (q.count + 1);
}

-- emptying the slot at `head`; runs only with `count` above 0
pub dequeue : Queue → Queue
dequeue q = record q { head = u32 (q.head + 1) % ipc_depth; count = q.count - 1 }

pub ipc_send : Core → Queues → ℕ → ℕ → ℕ → Err × Queues
unfolding enqueue
ipc_send c qs dst buf len =
    if dst == 0 || ltb max_vms dst
    then (e_inval, qs)
    else if len == 0 || ltb ipc_msg_max len
    then (e_inval, qs)
    else if leb ipc_depth (queue_of qs dst).count
    then (e_busy, qs)
    else (
      e_ok,
      set qs (dst - 1)
          (enqueue (queue_of qs dst) (current_id c) (load len (source_address c buf) c.ram)),
    )

-- `msg->len < max_len ? msg->len : max_len`
abbrev pub copy_len : ℕ → ℕ → ℕ
copy_len len max = if ltb len max then len else max

-- `ipc_recv` for the VM at index `i`: the result, `*out_len`, the rings and the memory.
-- `out_len` is not NULL.
pub recv_as : Core → Queues → ℕ → ℕ → ℕ → Err × ℕ × Queues × Ram
unfolding pa_offset dequeue
recv_as c qs i buf max = if q.count == 0 then (e_ok, 0, qs, c.ram) else (
  e_ok,
  n,
  set qs ((vm_at c i).id - 1) (dequeue q),
  store (take n msg.bytes) (u64 (buf + pa_offset (vm_at c i))) c.ram,
)
  where
    q : Queue
    q = queue_of qs (vm_at c i).id

    msg : Msg
    msg = get_or q.slots q.head zero_msg

    n : ℕ
    n = copy_len msg.len max

pub ipc_recv : Core → Queues → ℕ → ℕ → Err × ℕ × Queues × Ram
unfolding recv_as
ipc_recv c qs buf max = elim c.current [
  | none ↦ (e_inval, 0, qs, c.ram)
  | some k ↦ elim (vcpu_at c k).vm [
    | none ↦ (e_inval, 0, qs, c.ram)
    | some i ↦ recv_as c qs i buf max
  ]
]

-- The result, and the virtual interrupt handed to `gic_inject_virq_lr`, if any.
unfoldable pub ipc_notify : Core → ℕ → Err × Option ℕ
ipc_notify c dst = if dst == 0 || ltb max_vms dst then (e_inval, none) else elim (vm_by_id c dst) [
  | none ↦ (e_notfound, none)
  | some i ↦
      if is_running (vm_at c i).state then (e_ok, some ipc_doorbell_virq) else (e_notfound, none)
]
