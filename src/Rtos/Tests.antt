-- ===== src/Rtos/Tests.antt =====
-- Runs of the engine controller.
use hypervisor_base.Common.{[]}
use hypervisor_base.Rtos.{rtos_main}
use hypervisor_base.Rtos.Bounds.{IsSound, rtos_main-IsSound}

-- twelve rounds from boot: two reports and the first two phases
rtos_main-IsSound_example : IsSound (rtos_main 12 [])
rtos_main-IsSound_example = rtos_main-IsSound 12 []
