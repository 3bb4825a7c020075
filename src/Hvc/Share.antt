-- ===== src/Hvc/Share.antt =====
-- The share of the processor that guest/hypercall/hvc_handler.c reports to a guest.
use hypervisor_base.Common.{
  ℕ, ◌-◌, ◌*◌, ◌/◌, ◌≤◌, ◌<◌, List, ◌==◌, ◌||◌, ltb, if◌then◌else◌, u32, u64, ◌≡◌, if_split,
  Bool-cases, inl, inr, arith,
}
use native.Mathlib.Nat.{div-le_of_le-mul}
use hypervisor_base.Sched.Stats.{VmStats, stats_at, sched_stats_get}
use hypervisor_base.Sched.Switch.{Sched}
use hypervisor_base.Sched.Run.{sched_get_stats}
use hypervisor_base.Hvc.{total_time, permille}

-- no VM has run for more than 2^52 microseconds
unfoldable pub AreShort : List VmStats → Type 0
AreShort st = (k : ℕ) → (stats_at st k).total_us < 4503599627370496

time_le :
    (s : Sched) (id : ℕ)
    → AreShort s.stats
    → 1 ≤ id
    → id ≤ 4
    → (stats_at s.stats (id - 1)).total_us ≤ total_time s 4 1
unfolding total_time AreShort sched_get_stats sched_stats_get
time_le s id h p q = ground (arith, h 0, h 1, h 2, h 3)

share_le : (a t : ℕ) → a < 4503599627370496 → a ≤ t → u32 (u64 (a * 1000) / t) ≤ 1000
share_le a t h l =
    let w : u64 (a * 1000) ≡ a * 1000 = omega arith in
    let q : u64 (a * 1000) / t ≤ 1000 = div-le_of_le-mul t (omega arith) in omega arith

share_in :
    (s : Sched) (id : ℕ)
    → AreShort s.stats
    → 1 ≤ id
    → id ≤ 4
    → (if (stats_at s.stats (id - 1)).total_us == 0 || total_time s 4 1 == 0
        then 0
        else u32 (u64 ((stats_at s.stats (id - 1)).total_us * 1000) / total_time s 4 1))
      ≤ 1000
unfolding AreShort
share_in s id h p q =
    if_split (λ n. n ≤ 1000) ((stats_at s.stats (id - 1)).total_us == 0 || total_time s 4 1 == 0)
      (λ _. omega arith) λ _. share_le _ (total_time s 4 1) (h (id - 1)) (time_le s id h p q)

-- As long as no VM has run for more than 2^52 microseconds, the share that a VM is told is at most
-- 1000 permille.
pub permille_range : (s : Sched) (id : ℕ) → AreShort s.stats → permille s id ≤ 1000
unfolding permille sched_get_stats sched_stats_get
permille_range s id h = elim (Bool-cases (ltb id 1 || ltb 4 id)) [
  | inl e ↦ rw (e, permille) omega arith
  | inr e ↦ rw (e, permille) (share_in s id h (ground (arith, e)) (ground (arith, e)))
]
