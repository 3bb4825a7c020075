-- ===== src/Irq/Vgic/Registers.antt =====
-- What a guest reads back from the registers of vre/irq/vgic.c, and the decoding of its traps.
use hypervisor_base.Common.{
  ℕ, zero, suc, ◌+◌, ◌*◌, ◌/◌, ◌%◌, ◌^◌, ◌<◌, ◌≤◌, ◌≡◌, ◌⊎◌, refl, true, List, length, length-set,
  get_or, set, get_or-set_self, get_or-set_ne, arith,
}
use hypervisor_base.Irq.Vgic.{
  Dist, vgic_dist_write, vgic_get_priority, write_priorities, enc_of, rt_of, icc_pmr_enc,
}

-- the round of the loop at byte `k` is the only one that writes entry `base + k`
untouched :
    (n : ℕ) (ps : List ℕ) (base b k val : ℕ)
    → k < b
    → get_or (write_priorities n ps base b val) (base + k) 0 ≡ get_or ps (base + k) 0
unfolding write_priorities
untouched zero ps base b k val h = refl
untouched (suc n) ps base b k val h = ground (
  arith,
  untouched n ps base (b + 1) k val (omega arith),
  untouched n (set ps (base + b) (val / 2 ^ (b * 8) % 256)) base (b + 1) k val (omega arith),
  get_or-set_ne ps (base + b) (base + k) (val / 2 ^ (b * 8) % 256) 0 (omega arith),
)

-- the byte that the loop writes for an interrupt
written :
    (n : ℕ) (ps : List ℕ) (base b k val : ℕ)
    → b ≤ k
    → k < b + n
    → base + k < 256
    → length ps ≡ 256
    → get_or (write_priorities n ps base b val) (base + k) 0 ≡ val / 2 ^ (k * 8) % 256
unfolding write_priorities
written zero ps base b k val h h' w l = omega arith
written (suc n) ps base b k val h h' w l = ground (
  arith,
  untouched n (set ps (base + b) (val / 2 ^ (b * 8) % 256)) base (b + 1) b val (omega arith),
  get_or-set_self ps (base + b) (val / 2 ^ (b * 8) % 256) 0,
  length-set ps (base + b) (val / 2 ^ (b * 8) % 256),
  written n (set ps (base + b) (val / 2 ^ (b * 8) % 256)) base (b + 1) k val,
)

-- A guest that writes a priority register of an initialised distributor with its 256 priorities
-- sets the priority of each of the four interrupts of that register to its byte.
pub priority_written :
    (d : Dist) (irq k val : ℕ)
    → d.initialised ≡ true
    → length d.priority ≡ 256
    → k < 4
    → irq ≤ 252
    → vgic_get_priority (vgic_dist_write d (0x400 + irq) val).1 (irq + k) ≡ val / 2 ^ (k * 8) % 256
unfolding vgic_dist_write vgic_get_priority
priority_written d irq k val i l h w =
    ground (arith, written 4 d.priority irq 0 k val (omega arith) (omega arith) (omega arith) l)

-- interrupts outside of the register
outside :
    (n : ℕ) (ps : List ℕ) (base b j val : ℕ)
    → (j < base + b) ⊎ (base + b + n ≤ j)
    → get_or (write_priorities n ps base b val) j 0 ≡ get_or ps j 0
unfolding write_priorities
outside zero ps base b j val h = refl
outside (suc n) ps base b j val h = ground (
  arith,
  outside n ps base (b + 1) j val,
  outside n (set ps (base + b) (val / 2 ^ (b * 8) % 256)) base (b + 1) j val,
  get_or-set_ne ps (base + b) j (val / 2 ^ (b * 8) % 256) 0,
)

-- A write of a priority register leaves the priority of every interrupt outside of the register.
priority_kept :
    (d : Dist) (irq j val : ℕ)
    → irq ≤ 252
    → (j < irq) ⊎ (irq + 4 ≤ j)
    → vgic_get_priority (vgic_dist_write d (0x400 + irq) val).1 j ≡ vgic_get_priority d j
unfolding vgic_dist_write vgic_get_priority
priority_kept d irq j val w h = ground (arith, outside 4 d.priority irq 0 j val)

-- The trap of an ICC register takes the register number and the fields CRm and Op2 from the same
-- bits: an access is decoded as one of ICC_PMR_EL1 only when the guest uses the register x16.
pub pmr_register : (iss : ℕ) → enc_of iss ≡ icc_pmr_enc → rt_of iss ≡ 16
pmr_register iss h = omega arith
