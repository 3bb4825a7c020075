-- ===== src/Hvc/Id.antt =====
-- The numbers of the hypercalls: guest/hypercall/hvc_abi.h and include/virtual_drivers.h.
use hypervisor_base.Common.{ℕ}

abbrev pub vm_get_id_id : ℕ
vm_get_id_id = 0x0001

abbrev pub vm_query_state_id : ℕ
vm_query_state_id = 0x0002

abbrev pub vm_stop_id : ℕ
vm_stop_id = 0x0003

abbrev pub vm_suspend_id : ℕ
vm_suspend_id = 0x0004

abbrev pub vm_resume_id : ℕ
vm_resume_id = 0x0005

abbrev pub shmem_map_id : ℕ
shmem_map_id = 0x0010

abbrev pub shmem_unmap_id : ℕ
shmem_unmap_id = 0x0011

abbrev pub ipc_send_id : ℕ
ipc_send_id = 0x0020

abbrev pub ipc_recv_id : ℕ
ipc_recv_id = 0x0021

abbrev pub ipc_notify_id : ℕ
ipc_notify_id = 0x0022

abbrev pub sched_set_slice_id : ℕ
sched_set_slice_id = 0x0030

abbrev pub sched_get_stats_id : ℕ
sched_get_stats_id = 0x0031

abbrev pub sched_yield_id : ℕ
sched_yield_id = 0x0032

abbrev pub log_write_id : ℕ
log_write_id = 0x00f0

abbrev pub perf_query_id : ℕ
perf_query_id = 0x00f1

abbrev pub obd_read_pid_id : ℕ
obd_read_pid_id = 0x0050

abbrev pub obd_read_all_id : ℕ
obd_read_all_id = 0x0051

abbrev pub fuel_update_id : ℕ
fuel_update_id = 0x0060

abbrev pub fuel_get_state_id : ℕ
fuel_get_state_id = 0x0061

abbrev pub dma_xfer_id : ℕ
dma_xfer_id = 0x0068

abbrev pub audio_status_id : ℕ
audio_status_id = 0x0070

abbrev pub audio_play_id : ℕ
audio_play_id = 0x0071

abbrev pub audio_stop_id : ℕ
audio_stop_id = 0x0072
