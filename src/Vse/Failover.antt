-- ===== src/Vse/Failover.antt =====
-- vse/failover.c: restarting a quarantined VM from its backup image. A result `none` is the halt of
-- `pt_alloc` (Stage2) inside `vm_finalize`.
pub mod Frame
pub mod Budget
pub mod Tests
use hypervisor_base.Common.{
  ℕ, ◌+◌, ◌-◌, Bool, true, false, ◌||◌, ◌&&◌, not, List, [], ◌∷◌, Option, none, some, ◌==◌, ltb,
  leb, if◌then◌else◌, get_or, set, replicate, u32, max_vms, Err, e_ok, e_inval, e_busy, e_notfound,
  failed,
}
use hypervisor_base.Memory.{Ram, memcpy}
use hypervisor_base.State.{Core, vm_at}
use hypervisor_base.Vcpu.{vcpu_set_entry}
use hypervisor_base.Vm.{vm_by_id, vm_stop, vm_finalize, vm_start}
use hypervisor_base.Vse.State.{Machine, BackupDesc, zero_backup, degraded}
use hypervisor_base.Vse.Level.{index_of, trust_set, trust_revoke}

abbrev pub failover_max_attempts : ℕ
failover_max_attempts = 3

abbrev pub backup_at : Machine → ℕ → BackupDesc
backup_at m ix = get_or m.backups ix zero_backup

pub failover_init : Machine → Machine
failover_init m = record m { backups = replicate max_vms zero_backup; failover_ready = true }

pub failover_register : Machine → ℕ → ℕ → ℕ → ℕ → ℕ → Err × Machine
failover_register m id backup_pa live_pa size entry = elim (index_of id) [
  | none ↦ (e_inval, m)
  | some ix ↦
      if not m.failover_ready
      then (e_inval, m)
      else if backup_pa == 0 || size == 0
      then (e_inval, m)
      else elim (vm_by_id m.core id) [
        | none ↦ (e_notfound, m)
        | some i ↦ (
          e_ok,
          record m {
            backups = set m.backups ix (record {
              registered = true;
              backup_pa = backup_pa;
              live_pa = live_pa;
              backup_size = size;
              entry_ipa = entry;
              critical = true;
              failover_count = 0;
            });
          },
        )
      ]
]

-- step 2a: the image is copied back, if there is a distinct one
pub restore_image : BackupDesc → Ram → Ram
restore_image b ram =
    if not (b.backup_pa == 0)
      && not (b.live_pa == 0)
      && not (b.backup_size == 0)
      && not (b.backup_pa == b.live_pa)
    then memcpy b.backup_size b.live_pa b.backup_pa ram
    else ram

-- step 3, for the VM at index `i`
pub reset_entry : Core → ℕ → ℕ → Core
reset_entry c i entry = elim (vm_at c i).vcpus [ [] ↦ c | k ∷ ks ↦ vcpu_set_entry c k entry 0 ]

-- step 4 and the recovery of trust
pub restart : Machine → ℕ → ℕ → Err × Machine
restart m id i =
    let (e, c) = vm_start m.core i in
    if failed e
    then (e, record m { core = c })
    else (e_ok, (trust_set (record m { core = c }) id degraded).1)

-- step 2b and what follows
pub rebuild : Machine → ℕ → ℕ → BackupDesc → Option (Err × Machine)
rebuild m id i b = elim (vm_finalize m.core i) [
  | none ↦ none
  | some (e, c) ↦
      if failed e
      then some (e, record m { core = c })
      else some (restart (record m { core = reset_entry c i b.entry_ipa }) id i)
]

-- step 1 and what follows
pub recover : Machine → ℕ → ℕ → BackupDesc → Option (Err × Machine)
recover m id i b =
    let (e, c) = vm_stop m.core i in
    if failed e
    then some (e, record m { core = c })
    else rebuild (record m { core = record c { ram = restore_image b c.ram } }) id i b

-- `_do_failover` of the descriptor at `ix`
pub do_failover : Machine → ℕ → ℕ → Option (Err × Machine)
do_failover m id ix = elim (vm_by_id m.core id) [
  | none ↦ some (e_notfound, m)
  | some i ↦
      if leb failover_max_attempts (backup_at m ix).failover_count
      then some (e_busy, (trust_revoke m id).1)
      else let b = record (backup_at m ix) {
        failover_count = u32 ((backup_at m ix).failover_count + 1);
      } in
        recover (record m { backups = set m.backups ix b }) id i b
]

pub failover_on_quarantine : Machine → ℕ → Option (Err × Machine)
failover_on_quarantine m id = elim (index_of id) [
  | none ↦ some (e_inval, m)
  | some ix ↦
      if not m.failover_ready
      then some (e_notfound, m)
      else if not (backup_at m ix).registered || not (backup_at m ix).critical
      then some (e_notfound, m)
      else do_failover m id ix
]

pub failover_trigger : Machine → ℕ → Option (Err × Machine)
failover_trigger m id = elim (index_of id) [
  | none ↦ some (e_inval, m)
  | some ix ↦
      if not m.failover_ready
      then some (e_inval, m)
      else if not (backup_at m ix).registered
      then some (e_notfound, m)
      else do_failover m id ix
]

pub failover_is_registered : Machine → ℕ → Bool
failover_is_registered m id = elim (index_of id) [
  | none ↦ false
  | some ix ↦ if m.failover_ready then (backup_at m ix).registered else false
]

pub failover_attempts : Machine → ℕ → ℕ
failover_attempts m id = elim (index_of id) [
  | none ↦ 0
  | some ix ↦ if m.failover_ready then (backup_at m ix).failover_count else 0
]
