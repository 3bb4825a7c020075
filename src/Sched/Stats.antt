-- ===== src/Sched/Stats.antt =====
-- core/sched/sched_stats.c: the CPU accounting of the VMs. The report is printed only.
use hypervisor_base.Common.{
  ℕ, zero, suc, ◌+◌, ◌-◌, Bool, ◌&&◌, ◌||◌, List, Option, none, some, ltb, leb, if◌then◌else◌,
  get_or, set, replicate, u32, u64, max_vms,
}

-- `vm_stats_t`
pub record VmStats : Type 0 where
  pub total_us : ℕ
  pub slice_count : ℕ
  pub preempt_count : ℕ
  pub wfi_count : ℕ
  pub slice_dur_us : ℕ
  pub vm_id : ℕ

abbrev pub zero_stats : VmStats
zero_stats = record {
  total_us = 0;
  slice_count = 0;
  preempt_count = 0;
  wfi_count = 0;
  slice_dur_us = 0;
  vm_id = 0;
}

-- `vm_id >= 1 && vm_id <= MAX_VMS`
abbrev pub good_id : ℕ → Bool
good_id id = leb 1 id && leb id max_vms

abbrev pub stats_at : List VmStats → ℕ → VmStats
stats_at st ix = get_or st ix zero_stats

-- the loop of `sched_stats_init`: the rounds left, and the index of the next
pub init_stats : ℕ → List VmStats → ℕ → List VmStats
init_stats zero st i = st
init_stats (suc n) st i =
    init_stats n (set st i (record (stats_at st i) { vm_id = i + 1; slice_dur_us = 10000 })) (i + 1)

pub sched_stats_init : List VmStats
unfolding init_stats
sched_stats_init = init_stats max_vms (replicate max_vms zero_stats) 0

pub charge : VmStats → ℕ → Bool → VmStats
charge p slice_us was_preempt = record p {
  total_us = u64 (p.total_us + slice_us);
  preempt_count = if was_preempt then u32 (p.preempt_count + 1) else p.preempt_count;
}

pub charge_prev : List VmStats → ℕ → ℕ → Bool → List VmStats
unfolding charge
charge_prev st prev slice_us was_preempt =
    if good_id prev
    then set st (prev - 1) (charge (stats_at st (prev - 1)) slice_us was_preempt)
    else st

pub count_next : List VmStats → ℕ → List VmStats
count_next st next =
    if good_id next
    then set st (next - 1) (record (stats_at st (next - 1)) {
      slice_count = u32 ((stats_at st (next - 1)).slice_count + 1);
    })
    else st

-- `sched_stats_on_switch`, but for the count of switches
pub sched_stats_on_switch : List VmStats → ℕ → ℕ → ℕ → Bool → List VmStats
unfolding charge_prev count_next
sched_stats_on_switch st prev next slice_us was_preempt =
    count_next (charge_prev st prev slice_us was_preempt) next

pub sched_stats_on_wfi : List VmStats → ℕ → List VmStats
sched_stats_on_wfi st id =
    if good_id id
    then set st (id - 1)
        (record (stats_at st (id - 1)) { wfi_count = u32 ((stats_at st (id - 1)).wfi_count + 1) })
    else st

pub sched_stats_set_slice : List VmStats → ℕ → ℕ → List VmStats
sched_stats_set_slice st id dur_us =
    if good_id id
    then set st (id - 1) (record (stats_at st (id - 1)) { slice_dur_us = dur_us })
    else st

-- `none` is `E_INVAL`
unfoldable pub sched_stats_get : List VmStats → ℕ → Option VmStats
sched_stats_get st id = if ltb id 1 || ltb max_vms id then none else some (stats_at st (id - 1))
