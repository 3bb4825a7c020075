-- ===== src/Vse/Trust/VmLayer.antt =====
-- The automatic promotion of vse/trust.c and the state of the VM layer.
use hypervisor_base.Common.{ℕ, zero, suc, ◌+◌, ◌≡◌, refl, ◌∙◌, if_split, max_vms}
use hypervisor_base.Vse.State.{Machine, trusted}
use hypervisor_base.Vse.Level.{record_at, set_record}
use hypervisor_base.Vse.Level.Frame.{trust_set-core}
use hypervisor_base.Vse.Trust.{promote, promote_from, trust_auto_promote_tick, is_clean}

promote-core : (m : Machine) (time ix : ℕ) → (promote m time ix).1.core ≡ m.core
unfolding promote
promote-core m time ix =
    if_split (λ (r : ℕ × Machine). r.1.core ≡ m.core) (is_clean (record_at m ix) time)
      (λ _.
        trust_set-core (set_record m ix (record (record_at m ix) { fault_count = 0 })) (ix + 1)
          trusted)
      λ _. refl

promote_from-core : (n : ℕ) (m : Machine) (time ix : ℕ) → (promote_from n m time ix).1.core ≡ m.core
unfolding promote_from
promote_from-core zero m time ix = refl
promote_from-core (suc n) m time ix =
    promote_from-core n (promote m time ix).1 time (ix + 1) ∙ promote-core m time ix

pub trust_auto_promote_tick-core :
    (m : Machine) (time : ℕ) → (trust_auto_promote_tick m time).1.core ≡ m.core
unfolding trust_auto_promote_tick
trust_auto_promote_tick-core m time =
    if_split (λ (r : ℕ × Machine). r.1.core ≡ m.core) m.trust.initialized
      (λ _. promote_from-core max_vms m time 0) λ _. refl
