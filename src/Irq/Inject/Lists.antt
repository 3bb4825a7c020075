-- ===== src/Irq/Inject/Lists.antt =====
-- How `gic_inject_virq_lr` chooses a list register (drivers/gic/gicv3.c).
use hypervisor_base.Common.{
  ℕ, zero, suc, ◌<◌, ◌≡◌, refl, Bool, true, false, List, [], ◌∷◌, if◌then◌else◌, length, get_or,
  arith, not, if_split, option_split,
}
use hypervisor_base.State.{vcpu_at}
use hypervisor_base.Irq.Vgic.{vgic_is_enabled, vgic_is_masked, vgic_get_priority}
use hypervisor_base.Irq.Inject.{
  Gic, gic_inject_virq_lr, zero_dist, zero_cpu, is_free, put_free, put_lr,
}

-- One of the registers is free.
abbrev pub has_free : List ℕ → Bool
has_free [] = false
has_free (lr ∷ lrs) = if is_free lr then true else has_free lrs

put_free-done : (lrs : List ℕ) (v : ℕ) → (put_free lrs v).0 ≡ has_free lrs
unfolding put_free
put_free-done [] v = refl
put_free-done (lr ∷ lrs) v = ground (arith, put_free-done lrs v)

put_free-busy :
    (lrs : List ℕ) (v i : ℕ)
    → i < length lrs
    → is_free (get_or lrs i 0) ≡ false
    → get_or (put_free lrs v).1 i 0 ≡ get_or lrs i 0
unfolding put_free
put_free-busy [] v i h b = ground arith
put_free-busy (lr ∷ lrs) v zero h b = ground arith
put_free-busy (lr ∷ lrs) v (suc i) h b = ground (arith, put_free-busy lrs v i (omega arith) b)

put_lr-busy :
    (lrs : List ℕ) (v i : ℕ)
    → has_free lrs ≡ true
    → i < length lrs
    → is_free (get_or lrs i 0) ≡ false
    → get_or (put_lr lrs v) i 0 ≡ get_or lrs i 0
unfolding put_lr
put_lr-busy lrs v i f h b = ground (arith, put_free-done lrs v, put_free-busy lrs v i h b)

-- While a list register is free, gic_inject_virq_lr leaves the interrupt in every other register
-- where it is, whatever interrupt it injects and whether the running VM lets it through or not.
pub busy_stay :
    (g : Gic) (virq prio i : ℕ)
    → has_free g.lrs ≡ true
    → i < length g.lrs
    → is_free (get_or g.lrs i 0) ≡ false
    → get_or (gic_inject_virq_lr g virq prio).lrs i 0 ≡ get_or g.lrs i 0
unfolding gic_inject_virq_lr
busy_stay g virq prio i f h b =
    let P : Gic → Type 0 = λ g'. get_or g'.lrs i 0 ≡ get_or g.lrs i 0 in
    option_split P g.machine.core.current _ _ (put_lr-busy g.lrs _ i f h b) λ k.
      option_split P (vcpu_at g.machine.core k).vm _ _ (put_lr-busy g.lrs _ i f h b) λ j.
        if_split P (not (vgic_is_enabled (get_or g.dists j zero_dist) virq)) (λ _. refl)
          λ _.
            if_split P
              (vgic_is_masked (get_or g.cpus k zero_cpu)
                (vgic_get_priority (get_or g.dists j zero_dist) virq))
              (λ _. refl) λ _. put_lr-busy g.lrs _ i f h b
