-- ===== src/Vse/Ids/Log.antt =====
-- The ring of the audit log of vse/ids.c.
use hypervisor_base.Common.{
  ℕ, ◌+◌, ◌-◌, ◌%◌, ◌<◌, ◌≡◌, ◌∙◌, some, ltb, if◌then◌else◌, length, length-set, get_or-set_self,
  get_or-set_ne, arith,
}
use hypervisor_base.Vse.State.{IdsRecord, IdsState, Machine, EventType, Severity}
use hypervisor_base.Vse.Ids.{
  push_record, zero_record, ids_log_count, ids_log_at, log_event, new_record,
}

-- The ring has 128 places, and its head is where the count of events puts it.
abbrev pub IsRing : IdsState → Type 0
IsRing s = (length s.log ≡ 128) × (s.log_head ≡ s.log_count % 128)

IsRing-push :
    (s : IdsState) (r : IdsRecord) → IsRing s → s.log_count < 4294967295 → IsRing (push_record s r)
IsRing-push s r (l, h) c = (length-set s.log s.log_head r ∙ l, omega arith)

-- Before 2^32 events have been counted, logging an event keeps the log a ring.
log-IsRing :
    (m : Machine) (id fault_type detail : ℕ) (type : EventType) (sev : Severity)
    → IsRing m.ids
    → m.ids.log_count < 4294967295
    → IsRing (log_event m id type sev fault_type detail).ids
unfolding log_event
log-IsRing m id ft d type sev h c = IsRing-push m.ids (new_record m id type sev ft d) h c

newest_push :
    (s : IdsState) (r : IdsRecord)
    → IsRing s
    → s.log_count < 4294967295
    → ids_log_at (push_record s r) (ids_log_count (push_record s r) - 1) ≡ some r
unfolding ids_log_at ids_log_count
newest_push s r (l, h) c = ground (arith, get_or-set_self s.log s.log_head r zero_record)

-- Before 2^32 events have been counted, an event that is logged is the last one that `ids_log_at`
-- gives.
pub newest_logged :
    (m : Machine) (id fault_type detail : ℕ) (type : EventType) (sev : Severity)
    → IsRing m.ids
    → m.ids.log_count < 4294967295
    → let s = (log_event m id type sev fault_type detail).ids in
      ids_log_at s (ids_log_count s - 1) ≡ some (new_record m id type sev fault_type detail)
unfolding log_event
newest_logged m id ft d type sev h c = newest_push m.ids (new_record m id type sev ft d) h c

older_push :
    (s : IdsState) (r : IdsRecord) (i : ℕ)
    → IsRing s
    → s.log_count < 4294967295
    → i + 1 < ids_log_count (push_record s r)
    → ids_log_at (push_record s r) i ≡ ids_log_at s (if ltb s.log_count 128 then i else i + 1)
unfolding ids_log_at ids_log_count
older_push s r i (l, h) c k = ground (
  arith,
  get_or-set_ne s.log s.log_head i r zero_record,
  get_or-set_ne s.log s.log_head (((s.log_count + 1) % 128 + i) % 128) r zero_record,
)

-- Before 2^32 events have been counted, the events before the last one keep their order in the log;
-- with 128 events in it the oldest one goes.
pub older_logged :
    (m : Machine) (id fault_type detail i : ℕ) (type : EventType) (sev : Severity)
    → IsRing m.ids
    → m.ids.log_count < 4294967295
    → i + 1 < ids_log_count (log_event m id type sev fault_type detail).ids
    → ids_log_at (log_event m id type sev fault_type detail).ids i
      ≡ ids_log_at m.ids (if ltb m.ids.log_count 128 then i else i + 1)
unfolding log_event
older_logged m id ft d i type sev h c k = older_push m.ids (new_record m id type sev ft d) i h c k
