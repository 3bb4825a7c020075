-- ===== src/Vse/Ids.antt =====
-- vse/ids.c: the monitor of faults and trust changes, with its audit log. A result `none` is the
-- halt of `pt_alloc` (Stage2) inside the quarantine that a storm triggers.
pub mod Frame
pub mod Log
pub mod Tests
use hypervisor_base.Common.{
  ℕ, zero, suc, ◌+◌, ◌*◌, ◌%◌, Bool, true, false, ◌&&◌, not, Option, none, some, ◌==◌, ltb, leb,
  if◌then◌else◌, get_or, set, replicate, u32, sub_u64, max_vms,
}
use hypervisor_base.Vse.State.{
  TrustLevel, unknown, rank, Severity, info, warn, alert, EventType, ev_none, ev_fault, ev_storm,
  ev_rapid, ev_repeat, ev_trust_drop, ev_poll, ev_enforce, IdsRecord, VmMonitor, IdsState, Machine,
  now, tick,
}
use hypervisor_base.Vse.Level.{index_of, trust_get, trust_is_blocked}
use hypervisor_base.Vse.Trust.{trust_quarantine, trust_auto_promote_tick}

abbrev pub storm_faults : ℕ
storm_faults = 4

abbrev pub storm_window_us : ℕ
storm_window_us = 1000000

abbrev pub rapid_us : ℕ
rapid_us = 2000000

abbrev pub repeat_count : ℕ
repeat_count = 3

abbrev pub log_capacity : ℕ
log_capacity = 128

abbrev pub zero_record : IdsRecord
zero_record = record {
  time_us = 0;
  vm_id = 0;
  type = ev_none;
  severity = info;
  fault_type = 0;
  detail = 0;
  trust_at = unknown;
}

abbrev pub zero_monitor : VmMonitor
zero_monitor = record {
  window_start_us = 0;
  window_faults = 0;
  first_fault_us = 0;
  last_fault_type = 0;
  repeat_run = 0;
  last_seen_level = unknown;
}

abbrev pub monitor_at : Machine → ℕ → VmMonitor
monitor_at m ix = get_or m.ids.mon ix zero_monitor

abbrev pub set_monitor : Machine → ℕ → VmMonitor → Machine
set_monitor m ix v = record m { ids = record m.ids { mon = set m.ids.mon ix v } }

abbrev pub is_alert : Severity → Bool
is_alert alert = true
is_alert _ = false

-- the record that `_log` writes
abbrev pub new_record : Machine → ℕ → EventType → Severity → ℕ → ℕ → IdsRecord
new_record m id type sev fault_type detail = record {
  time_us = now m;
  vm_id = id;
  type = type;
  severity = sev;
  fault_type = fault_type;
  detail = detail;
  trust_at = if id == 0 then unknown else trust_get m id;
}

-- a record put at the head of the ring
abbrev pub push_record : IdsState → IdsRecord → IdsState
push_record s r = record s {
  log = set s.log s.log_head r;
  log_head = (s.log_head + 1) % log_capacity;
  log_count = u32 (s.log_count + 1);
  alerts = if is_alert r.severity then u32 (s.alerts + 1) else s.alerts;
}

-- `_log`
pub log_event : Machine → ℕ → EventType → Severity → ℕ → ℕ → Machine
log_event m id type sev fault_type detail = record (tick m) {
  ids = push_record m.ids (new_record m id type sev fault_type detail);
}

-- `g_ids.anomalies++`
abbrev pub count_anomaly : Machine → Machine
count_anomaly m = record m { ids = record m.ids { anomalies = u32 (m.ids.anomalies + 1) } }

abbrev pub count_enforcement : Machine → Machine
count_enforcement m = record m {
  ids = record m.ids { enforcements = u32 (m.ids.enforcements + 1) };
}

-- "start the rapid-escalation clock"
pub start_clock : Machine → ℕ → ℕ → Machine
start_clock m ix time =
    if (monitor_at m ix).first_fault_us == 0
    then set_monitor m ix (record (monitor_at m ix) { first_fault_us = time })
    else m

-- one more fault of the type that came last
pub count_repeat : Machine → ℕ → ℕ → ℕ → Machine
unfolding log_event
count_repeat m id ix fault_type =
    let run = u32 ((monitor_at m ix).repeat_run + 1) in
    let m' : Machine = set_monitor m ix (record (monitor_at m ix) { repeat_run = run }) in
    if run == repeat_count
    then log_event (count_anomaly m') id ev_repeat alert fault_type run
    else m'

-- "REPEAT detection"
pub watch_repeat : Machine → ℕ → ℕ → ℕ → Machine
unfolding count_repeat
watch_repeat m id ix fault_type =
    if fault_type == (monitor_at m ix).last_fault_type
    then count_repeat m id ix fault_type
    else set_monitor m ix
        (record (monitor_at m ix) { repeat_run = 1; last_fault_type = fault_type })

-- "Active enforcement"; the result of `trust_quarantine` is only logged
pub enforce : Machine → ℕ → ℕ → ℕ → Option Machine
unfolding log_event
enforce m id fault_type faults =
    if trust_is_blocked m id then some m else elim (trust_quarantine m id) [
      | none ↦ none
      | some (e, m') ↦ some (log_event (count_enforcement m') id ev_enforce alert fault_type faults)
    ]

-- "STORM detection", at time `time`
pub watch_storm : Machine → ℕ → ℕ → ℕ → ℕ → Option Machine
unfolding log_event enforce
watch_storm m id ix fault_type time =
    if ltb storm_window_us (sub_u64 time (monitor_at m ix).window_start_us)
    then some
        (set_monitor m ix (record (monitor_at m ix) { window_start_us = time; window_faults = 1 }))
    else let faults = u32 ((monitor_at m ix).window_faults + 1) in
      let m' : Machine = set_monitor m ix (record (monitor_at m ix) { window_faults = faults }) in
      if faults == storm_faults + 1
      then enforce (log_event (count_anomaly m') id ev_storm alert fault_type faults) id fault_type
          faults
      else some m'

-- the alert, and "avoid re-firing"
pub alert_rapid : Machine → ℕ → ℕ → ℕ → ℕ → Machine
unfolding log_event
alert_rapid m id ix fault_type delay =
    let m' : Machine = log_event (count_anomaly m) id ev_rapid alert fault_type delay in
    set_monitor m' ix (record (monitor_at m' ix) { first_fault_us = 0 })

-- "RAPID escalation", at time `time`
pub watch_rapid : Machine → ℕ → ℕ → ℕ → ℕ → Machine
unfolding alert_rapid
watch_rapid m id ix fault_type time =
    if leb 3 (rank (trust_get m id))
      && not ((monitor_at m ix).first_fault_us == 0)
      && ltb (sub_u64 time (monitor_at m ix).first_fault_us) rapid_us
    then alert_rapid m id ix fault_type (sub_u64 time (monitor_at m ix).first_fault_us)
    else m

-- the fault recorded, and the two detectors that come first
pub watch_fault : Machine → ℕ → ℕ → ℕ → ℕ → Machine
unfolding log_event start_clock watch_repeat
watch_fault m id ix fault_type detail =
    watch_repeat (start_clock (log_event (tick m) id ev_fault warn fault_type detail) ix (now m)) id
      ix fault_type

pub ids_notify_fault : Machine → ℕ → ℕ → ℕ → Option Machine
unfolding watch_fault watch_storm watch_rapid
ids_notify_fault m id fault_type detail =
    if m.ids.initialized
    then elim (index_of id) [
      | none ↦ some m
      | some ix ↦
          elim (watch_storm (watch_fault m id ix fault_type detail) id ix fault_type (now m)) [
            | none ↦ none
            | some m' ↦ some (watch_rapid m' id ix fault_type (now m))
          ]
    ]
    else some m

-- the loop of `ids_init`: the rounds left, and the index of the next
pub init_monitors : ℕ → Machine → ℕ → ℕ → Machine
init_monitors zero m ix time = m
init_monitors (suc n) m ix time =
    init_monitors n
      (set_monitor m ix (record (monitor_at m ix) {
        window_start_us = time;
        first_fault_us = 0;
        last_seen_level = trust_get m (ix + 1);
      }))
      (ix + 1) time

pub ids_init : Machine → Machine
unfolding init_monitors
ids_init m =
    let m' : Machine =
      init_monitors max_vms
        (record (tick m) {
          ids = record {
            initialized = false;
            log = replicate log_capacity zero_record;
            log_head = 0;
            log_count = 0;
            mon = replicate max_vms zero_monitor;
            anomalies = 0;
            alerts = 0;
            enforcements = 0;
            last_poll_us = 0;
          };
        })
        0 (now m) in
    record m' { ids = record m'.ids { last_poll_us = now m; initialized = true } }

-- the level seen last
abbrev pub note_level : Machine → ℕ → TrustLevel → Machine
note_level m ix level = set_monitor m ix (record (monitor_at m ix) { last_seen_level = level })

-- one round of the loop of `ids_poll`, with the VM's level and the one seen last
pub poll_level : Machine → ℕ → TrustLevel → TrustLevel → ℕ × Machine
unfolding log_event
poll_level m ix cur prev =
    if ltb (rank prev) (rank cur) && not (rank prev == 0)
    then (
      1,
      note_level
          (log_event (count_anomaly m) (ix + 1) ev_trust_drop alert 0 (rank prev * 256 + rank cur))
          ix cur,
    )
    else (0, note_level m ix cur)

pub poll_vm : Machine → ℕ → ℕ × Machine
unfolding poll_level
poll_vm m ix = poll_level m ix (trust_get m (ix + 1)) (monitor_at m ix).last_seen_level

pub poll_vms : ℕ → Machine → ℕ → ℕ × Machine
unfolding poll_vm
poll_vms zero m ix = (0, m)
poll_vms (suc n) m ix =
    let (a, m') = poll_vm m ix in let (b, m'') = poll_vms n m' (ix + 1) in (a + b, m'')

pub ids_poll : Machine → ℕ × Machine
unfolding poll_vms log_event
ids_poll m =
    let (anomalies, m') = poll_vms max_vms (tick m) 0 in
    let m'' : Machine = (trust_auto_promote_tick m' (now m)).1 in
    let m₃ : Machine = log_event m'' 0 ev_poll info 0 m''.trust.total_faults in
    if m.ids.initialized
    then (anomalies, record m₃ { ids = record m₃.ids { last_poll_us = now m } })
    else (0, m)

pub ids_log_count : IdsState → ℕ
ids_log_count s = if ltb s.log_count log_capacity then s.log_count else log_capacity

-- the null pointer is `none`
pub ids_log_at : IdsState → ℕ → Option IdsRecord
unfolding ids_log_count
ids_log_at s i =
    if leb (ids_log_count s) i
    then none
    else some (
        get_or s.log (((if leb s.log_count log_capacity then 0 else s.log_head) + i) % log_capacity)
          zero_record)
