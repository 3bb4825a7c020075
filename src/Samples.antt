-- ===== src/Samples.antt =====
-- A machine to test on: a Linux VM and an RTOS VM with a vCPU each, the Linux VM running.
use hypervisor_base.Common.{ℕ, ◌%◌, [], ◌∷◌, some, true, replicate}
use hypervisor_base.Stage2.{PageTables}
use hypervisor_base.State.{
  Core, Vm, Vcpu, MemRegion, DevAssign, running, linux, rtos, vcpu_ready, vcpu_running, zero_vm,
  zero_vcpu, on,
}

abbrev pub region : ℕ → ℕ → MemRegion
region pa size = record { pa_base = pa; ipa_base = 0; size = size; flags = 7 }

abbrev pub device : ℕ → ℕ → DevAssign
device base irq = record { mmio_base = base; mmio_size = 0x1000; irq = irq; passthru = true }

abbrev pub tables : PageTables
tables = record { base = 0x100000; used = 2; next_vmid = 3; cell = λ p i. 0 }

abbrev pub linux_vm : Vm
linux_vm = record zero_vm {
  id = 1;
  state = running;
  type = linux;
  vcpus = 0 ∷ [];
  mem = region 0x41000000 0x1000 ∷ [];
  dev = device 0x9000000 33 ∷ device 0xa000000 48 ∷ [];
  s2_pgd = 0x100000;
  vttbr = 0x1000000100000;
}

abbrev pub rtos_vm : Vm
rtos_vm = record zero_vm {
  id = 2;
  state = running;
  type = rtos;
  vcpus = 1 ∷ [];
  mem = region 0x60000000 0x2000 ∷ [];
  dev = device 0xb000000 0 ∷ [];
  s2_pgd = 0x101000;
  vttbr = 0x2000000101000;
}

abbrev pub linux_vcpu : Vcpu
linux_vcpu = record zero_vcpu { vm = some 0; state = vcpu_running; vttbr_el2 = 0x1000000100000 }

abbrev pub rtos_vcpu : Vcpu
rtos_vcpu = record zero_vcpu { vm = some 1; state = vcpu_ready; vttbr_el2 = 0x2000000101000 }

abbrev pub core : Core
core = record {
  ram = λ a. a % 251;
  tables = tables;
  vms = linux_vm ∷ rtos_vm ∷ zero_vm ∷ zero_vm ∷ [];
  nvm = 2;
  pool = linux_vcpu ∷ rtos_vcpu ∷ [];
  current = some 0;
  power = replicate 4 on;
  gated_devs = [];
  irq_on = λ i. true;
}
