-- ===== src/Ipc/Tests.antt =====
-- Runs of guest/ipc/ipc.c on a machine with two VMs.
use hypervisor_base.Common.{◌≡◌, refl, inl, some, arith, e_ok}
use hypervisor_base.Memory.{load}
use hypervisor_base.State.{Core}
use hypervisor_base.Samples.{core}
use hypervisor_base.Ipc.{
  Queues, queue_of, current_id, source_address, pa_offset, ipc_init, ipc_send, ipc_recv,
}
use hypervisor_base.Ipc.Mailbox.{post, collect, deliver}
use hypervisor_base.Ipc.Invariant.{
  AreValid, ipc_init-AreValid, ipc_send-AreValid, ipc_recv-AreValid,
}
use hypervisor_base.Ipc.Refine.{
  contents, target_address, ipc_send_refines, ipc_recv_refines, ipc_roundtrip,
}
use hypervisor_base.Ipc.Isolation.{ipc_send_isolated, ipc_recv_outside, ipc_recv_other}

-- the RTOS runs
abbrev rtos_runs : Core
rtos_runs = record core { current = some 1 }

-- the rings after Linux has sent three bytes to the RTOS
abbrev sent : Queues
sent = (ipc_send core ipc_init 2 0x100 3).1

sent-AreValid : AreValid sent
sent-AreValid = ipc_send-AreValid core ipc_init 2 0x100 3 ipc_init-AreValid

ipc_send-AreValid_example : AreValid (ipc_send core sent 2 0x200 5).1
ipc_send-AreValid_example = ipc_send-AreValid core sent 2 0x200 5 sent-AreValid

ipc_recv-AreValid_example : AreValid (ipc_recv rtos_runs sent 0x300 256).2
ipc_recv-AreValid_example = ipc_recv-AreValid rtos_runs sent 0x300 256 sent-AreValid

ipc_send_refines_example :
    let (e, qs) = ipc_send core sent 2 0x200 5 in
    (e, contents (queue_of qs 2))
    ≡ post (contents (queue_of sent 2)) (record {
      sender = current_id core;
      size = 5;
      payload = load 5 (source_address core 0x200) core.ram;
    })
ipc_send_refines_example =
    ipc_send_refines core sent 2 0x200 5 sent-AreValid (omega arith) (omega arith) (omega arith)
      (omega arith)

ipc_recv_refines_example :
    let (e, n, qs, ram) = ipc_recv rtos_runs sent 0x300 256 in
    (e ≡ e_ok)
    × (contents (queue_of qs 2) ≡ collect (contents (queue_of sent 2)))
    × ((n, ram)
        ≡ deliver (contents (queue_of sent 2)) 256 (target_address rtos_runs 1 0x300) core.ram)
ipc_recv_refines_example =
    ipc_recv_refines rtos_runs sent 1 1 0x300 256 sent-AreValid refl refl (omega arith)
      (omega arith)

ipc_roundtrip_example :
    let (e, qs) = ipc_send core ipc_init 2 0x100 3 in
    let (e', n, _, ram) = ipc_recv rtos_runs qs 0x300 256 in
    (e ≡ e_ok)
    × (e' ≡ e_ok)
    × (n ≡ 3)
    × (load 3 (target_address rtos_runs 1 0x300) ram ≡ load 3 (source_address core 0x100) core.ram)
unfolding ipc_init
ipc_roundtrip_example =
    ipc_roundtrip core rtos_runs ipc_init 2 0x100 3 1 1 0x300 256 ipc_init-AreValid refl
      (omega arith) (omega arith) (omega arith) (omega arith) (omega arith) refl refl refl

ipc_send_isolated_example : queue_of (ipc_send core sent 2 0x200 5).1 1 ≡ queue_of sent 1
ipc_send_isolated_example =
    ipc_send_isolated core sent 2 0x200 5 1 (omega arith) (inl (omega arith))

ipc_recv_outside_example : (ipc_recv rtos_runs sent 0x300 256).3 7 ≡ core.ram 7
unfolding pa_offset
ipc_recv_outside_example =
    ipc_recv_outside rtos_runs sent 1 1 0x300 256 7 refl refl (inl (omega arith))

ipc_recv_other_example : queue_of (ipc_recv rtos_runs sent 0x300 256).2 1 ≡ queue_of sent 1
ipc_recv_other_example =
    ipc_recv_other rtos_runs sent 1 1 0x300 256 1 refl refl (omega arith) (omega arith)
      (omega arith)
