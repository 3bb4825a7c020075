-- ===== src/Vse/Ids/Tests.antt =====
-- Events in the audit log of vse/ids.c.
use hypervisor_base.Common.{◌-◌, ◌+◌, ◌≡◌, refl, some, ltb, if◌then◌else◌, arith}
use hypervisor_base.Vse.State.{Machine, ev_fault, ev_poll, warn, info}
use hypervisor_base.Vse.Samples.{machine}
use hypervisor_base.Vse.Ids.{log_event, ids_log_at, ids_log_count, new_record}
use hypervisor_base.Vse.Ids.Log.{newest_logged, older_logged}

newest_logged_example :
    let s = (log_event machine 1 ev_fault warn 1 0x1000).ids in
    ids_log_at s (ids_log_count s - 1) ≡ some (new_record machine 1 ev_fault warn 1 0x1000)
newest_logged_example = newest_logged machine 1 1 0x1000 ev_fault warn (refl, refl) (omega arith)

-- one event logged
abbrev one_event : Machine
one_event = log_event machine 1 ev_fault warn 1 0x1000

older_logged_example :
    ids_log_at (log_event one_event 0 ev_poll info 0 0).ids 0
    ≡ ids_log_at one_event.ids (if ltb one_event.ids.log_count 128 then 0 else 0 + 1)
unfolding log_event ids_log_count
older_logged_example =
    older_logged one_event 0 0 0 0 ev_poll info (refl, refl) (omega arith) (omega arith)
