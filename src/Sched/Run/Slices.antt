-- ===== src/Sched/Run/Slices.antt =====
-- The time slices (`sched_set_slice` and `sched_add_slot` of core/sched/sched.c).
use hypervisor_base.Common.{
  ℕ, zero, suc, ◌≡◌, ◌≢◌, refl, List, [], ◌∷◌, map, length, get_or, e_ok, arith, ◌<◌, ap, ◌∙◌, min,
  max,
}
use hypervisor_base.Sched.Switch.{Sched, Slot, slot_at, zero_slot}
use hypervisor_base.Sched.Run.{sched_set_slice, set_slice, clamp_slice}

slot_set :
    (id dur : ℕ) (xs : List Slot) (i : ℕ)
    → i < length xs
    → get_or (map (set_slice id dur) xs) i zero_slot ≡ set_slice id dur (get_or xs i zero_slot)
slot_set id dur [] i h = absurd (omega arith)
slot_set id dur (x ∷ xs) zero h = refl
slot_set id dur (x ∷ xs) (suc i) h = slot_set id dur xs i (omega arith)

slots_after :
    (s s' : Sched) (id dur : ℕ)
    → sched_set_slice s id dur ≡ (e_ok, s')
    → s'.slots ≡ map (set_slice id (clamp_slice dur)) s.slots
unfolding sched_set_slice
slots_after s s' id dur e = ground arith

-- When `sched_set_slice` succeeds, every slot of the VM has the time asked for, raised to 100 us and
-- lowered to 1 s where it is outside of these bounds.
pub slice_set :
    (s s' : Sched) (id dur i : ℕ)
    → sched_set_slice s id dur ≡ (e_ok, s')
    → i < length s.slots
    → (slot_at s i).vm_id ≡ id
    → (slot_at s' i).duration_us ≡ max 100 (min dur 1000000)
unfolding set_slice
slice_set s s' id dur i e h v =
    ap (λ xs. (get_or xs i zero_slot).duration_us) (slots_after s s' id dur e)
    ∙ ground (arith, slot_set id (clamp_slice dur) s.slots i h)

-- When `sched_set_slice` succeeds, every slot of another VM is as it was.
slice_others :
    (s s' : Sched) (id dur i : ℕ)
    → sched_set_slice s id dur ≡ (e_ok, s')
    → i < length s.slots
    → (slot_at s i).vm_id ≢ id
    → slot_at s' i ≡ slot_at s i
unfolding set_slice
slice_others s s' id dur i e h v =
    ap (λ xs. get_or xs i zero_slot) (slots_after s s' id dur e)
    ∙ ground (arith, slot_set id (clamp_slice dur) s.slots i h)
