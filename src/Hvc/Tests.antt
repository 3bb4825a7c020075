-- ===== src/Hvc/Tests.antt =====
-- Runs of the hypercalls.
use hypervisor_base.Common.{
  ℕ, List, ◌≤◌, ◌≡◌, refl, zero, suc, [], ◌∷◌, inl, some, set, arith, err_word, e_unsupported,
  replicate,
}
use hypervisor_base.Memory.{load}
use hypervisor_base.Vse.Samples.{machine}
use hypervisor_base.Sched.Samples.{sched}
use hypervisor_base.Sched.Switch.{Sched}
use hypervisor_base.Ipc.{source_address, ipc_init}
use hypervisor_base.Ipc.Invariant.{ipc_init-AreValid}
use hypervisor_base.Ipc.Refine.{target_address}
use hypervisor_base.Vm.{vm_by_id}
use hypervisor_base.Hvc.Id
use hypervisor_base.Hvc.{Hyp, hvc_dispatch, permille, core_of}
use hypervisor_base.Hvc.Samples.{hyp, rtos_runs, busy}
use hypervisor_base.Hvc.Routing.{unknown_refused}
use hypervisor_base.Hvc.Frame.{KeepsAt, hvc_dispatch_keeps}
use hypervisor_base.Hvc.Messages.{args, x0_of, state_of, message_delivered, doorbell_ignores_target}
use hypervisor_base.Hvc.Share.{AreShort, permille_range}

abbrev sent : Hyp
sent = state_of hyp (hvc_dispatch hyp (args Id.ipc_send_id 2 0x100 3 []))

-- the RTOS has the processor after the message was sent
abbrev later : Hyp
later = record sent { sched = record sched { machine = record machine { core = rtos_runs } } }

message_delivered_example :
    let r = hvc_dispatch later (args Id.ipc_recv_id 0x300 256 0 []) in
    (x0_of (hvc_dispatch hyp (args Id.ipc_send_id 2 0x100 3 [])) ≡ 0)
    × (x0_of r ≡ 3)
    × (load 3 (target_address (core_of later) 1 0x300) (core_of (state_of later r)).ram
        ≡ load 3 (source_address (core_of hyp) 0x100) (core_of hyp).ram)
unfolding ipc_init
message_delivered_example =
    message_delivered hyp later 2 0x100 3 1 1 0x300 256 0 [] [] ipc_init-AreValid refl (omega arith)
      (omega arith) (omega arith) (omega arith) (omega arith) refl refl refl refl

doorbell_ignores_target_example :
    state_of hyp (hvc_dispatch hyp (args Id.ipc_notify_id 1 0 0 []))
    ≡ state_of hyp (hvc_dispatch hyp (args Id.ipc_notify_id 2 0 0 []))
unfolding vm_by_id
doorbell_ignores_target_example =
    doorbell_ignores_target hyp 1 2 0 1 0 0 [] (omega arith) (omega arith) (omega arith)
      (omega arith) refl refl refl refl

-- a VM asks for another to be stopped
hvc_dispatch_keeps_example :
    KeepsAt
      (Id.vm_stop_id ∷ 2 ∷ replicate 29 5)
      8
      (hvc_dispatch hyp (Id.vm_stop_id ∷ 2 ∷ replicate 29 5))
hvc_dispatch_keeps_example =
    hvc_dispatch_keeps hyp (Id.vm_stop_id ∷ 2 ∷ replicate 29 5) 8 (omega arith)

-- the number of the PMU query
unknown_refused_example :
    hvc_dispatch hyp (0x40 ∷ 0 ∷ []) ≡ some (hyp, set (0x40 ∷ 0 ∷ []) 0 (err_word e_unsupported))
unknown_refused_example = unknown_refused hyp (0x40 ∷ 0 ∷ []) (omega arith) (inl refl)

abbrev busy_sched : Sched
busy_sched = record sched { stats = busy }

busy-AreShort : AreShort busy
unfolding AreShort
busy-AreShort zero = omega arith
busy-AreShort (suc zero) = omega arith
busy-AreShort (suc (suc k)) = omega arith

permille_range_example : permille busy_sched 1 ≤ 1000
permille_range_example = permille_range busy_sched 1 busy-AreShort

-- the transfer of the rogue guest, outside of its map
abbrev rogue : List ℕ
rogue = 0x68 ∷ 0x50000000 ∷ 0x1000 ∷ 0xbad0 ∷ []
