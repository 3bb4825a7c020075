-- ===== src/Sched/Run/Tests.antt =====
-- A slice that is set (core/sched/sched.c).
use hypervisor_base.Common.{◌≡◌, refl, min, max, arith}
use hypervisor_base.Sched.Switch.{slot_at}
use hypervisor_base.Sched.Run.{sched_set_slice}
use hypervisor_base.Sched.Run.Slices.{slice_set}
use hypervisor_base.Sched.Samples.{sched}

slice_set_example :
    (slot_at (sched_set_slice sched 2 50).1 1).duration_us ≡ max 100 (min 50 1000000)
unfolding sched_set_slice
slice_set_example = slice_set sched (sched_set_slice sched 2 50).1 2 50 1 refl (omega arith) refl
