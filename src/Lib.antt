-- ===== src/Lib.antt =====
-- The hypervisor of this repository: a type-1 hypervisor for ARMv8 that runs a Linux, an RTOS and an
-- Android VM beside a security engine.
--
-- core/vm and core/vcpu keep the table of VMs and the pool of vCPUs; vre/mmu keeps the stage-2 tables
-- that give each VM its memory; core/sched switches between vCPUs on the timer and on WFI; vre/power
-- gates the devices of a suspended VM; guest/ipc and guest/shmem carry messages and pages between VMs;
-- vre/irq and drivers/gic deliver virtual interrupts; vre/bus and vre/dma keep devices to their VM; vse
-- counts faults, lowers the trust of a VM, quarantines it, and restarts it from a backup image.
--
-- The modules and the code they model:
--
--   Memory        lib/str/string.c: the bytes of physical memory and memcpy
--   Stage2        vre/mmu/stage2.c: tables addressed by number, as the descriptors hold them
--   State         core/vm/vm.h, core/vcpu/vcpu.h: the records of VMs and vCPUs, and the machine `Core`
--   Power         vre/power/power.c
--   Vcpu, Vm      core/vcpu/vcpu.c, core/vm/vm.c: vm_create ... vm_resume, under the same names
--   Vse           vse/trust.c (Level, Trust), vse/failover.c, vse/ids.c, vse/fault_detect.c; the state is
--                 `Machine`, which holds a `Core`
--   Ipc           guest/ipc/ipc.c; Ipc.Mailbox is its specification
--   Sched         core/sched/sched.c (Scan, Switch, Run), core/sched/sched_stats.c, and vcpu_do_switch
--   Pcie          vre/bus/pcie.c
--   Dma           vre/dma/dma_guard.c, vre/dma/smmu.c
--   Shmem         guest/shmem/shmem.c
--   Irq           vre/irq/vgic.c, vre/irq/irq_router.c, and of drivers/gic/gicv3.c the injection
--                 (Inject) and gic_handle_irq (Handler)
--   Mmio          vre/device/mmio_trap.c
--   Crypto        vse/hmac.c (Sha256, Hmac), vse/keystore.c (Keys), vse/seal.c (Seal), the one-time
--                 codes and the login of vse/hotp.c, vse/totp.c and vse/login.c (Totp), and
--                 vse/guest_measure.c (Measure)
--   Fault         core/fault/fault.c
--   Pmu           core/vcpu/pmu.c
--   Psci          arch/arm64/psci.c
--   Rtos          guests/rtos/rtos.c: the simulated engine and the words that it sends
--   Drivers       guest/hypercall/hvc_drivers.c: Update and Obd follow the engine's words to a guest's registers
--   Hvc           guest/hypercall/hvc_handler.c: hvc_dispatch over the state `Hyp` of the components
--   Trap          hyp_sync_handler of boot/main.c, over `Hyp`, the emulated devices and the monitors
--
-- An operation takes the state and returns the result code with the new state. A pointer to a VM or a
-- vCPU is an index into its table; a null pointer is `none`. Words wrap around at their width where the
-- code's do. `pt_alloc` stops the machine when the pool of page tables is empty: the operations that
-- can reach it return `none` then. Loops recurse on the list or on the number of rounds that the code
-- bounds; the search of the scheduler has as many rounds as slots, after which it is
-- back where it started. Log output is left out.
--
-- Hardware and other code are parameters: the clock is a function of the number of readings, the answer
-- of a PCIe register and the acknowledgement of the SMMU are functions, and so is `guest_measure_vm`
-- for the trust engine;
-- the registers of the performance monitor and the handlers of emulated devices are functions over a
-- state of any type. The vCPUs' monitors stand beside the pool of vCPUs, in `Trap`, and their
-- exchange is not part of the switch in `Sched`.
--
-- Not modelled: the boot sequence and the assembly under boot/ and arch/, the checks of the
-- hypervisor's own components and configuration, TLB maintenance, the set-up of the interrupt
-- controller, the drivers of UART and timer, the Linux and Android guests, and the older copy of the
-- sources in inspect_initramfs/.
pub mod Common
pub mod Memory
pub mod Stage2
pub mod State
pub mod Power
pub mod Vcpu
pub mod Vm
pub mod Vse
pub mod Samples
pub mod Ipc
pub mod Sched
pub mod Pcie
pub mod Dma
pub mod Shmem
pub mod Irq
pub mod Mmio
pub mod Crypto
pub mod Fault
pub mod Pmu
pub mod Psci
pub mod Rtos
pub mod Drivers
pub mod Hvc
pub mod Trap
