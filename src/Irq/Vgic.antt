-- ===== src/Irq/Vgic.antt =====
-- vre/irq/vgic.c: the distributor of a VM and the CPU interface of a vCPU, as the guest sees them.
-- The pointers are taken not to be null.
pub mod Registers
use hypervisor_base.Common.{
  ℕ, zero, suc, ◌+◌, ◌-◌, ◌*◌, ◌/◌, ◌%◌, ◌^◌, Bool, true, false, ◌&&◌, ◌||◌, not, List, Option,
  none, some, ◌==◌, ltb, leb, if◌then◌else◌, get_or, set, replicate, bit_and, bit_or, u8, Err, e_ok,
  e_inval, e_unsupported,
}

abbrev pub max_irqs : ℕ
max_irqs = 256

abbrev pub num_words : ℕ
num_words = 8

-- `vgic_dist_t`
pub record Dist : Type 0 where
  pub priority : List ℕ
  pub enable : List ℕ
  pub pending : List ℕ
  pub initialised : Bool

-- `vgic_cpu_t`
pub record CpuIf : Type 0 where
  pub icc_pmr : ℕ
  pub icc_bpr0 : ℕ
  pub icc_grpen1 : ℕ

pub vgic_dist_init : Dist
vgic_dist_init = record {
  priority = replicate max_irqs 0xa0;
  enable = set (replicate num_words 0) 0 0xffff;
  pending = replicate num_words 0;
  initialised = true;
}

pub vgic_cpu_init : CpuIf
vgic_cpu_init = record { icc_pmr = 0xff; icc_bpr0 = 3; icc_grpen1 = 1 }

abbrev pub bitmap_get : List ℕ → ℕ → Bool
bitmap_get bm bit = get_or bm (bit / 32) 0 / 2 ^ (bit % 32) % 2 == 1

-- `enable[word] |= val`
pub enable_bits : Dist → ℕ → ℕ → Dist
enable_bits d word val = record d {
  enable =
      if ltb word num_words
      then set d.enable word (bit_or (get_or d.enable word 0) val)
      else d.enable;
}

-- `enable[word] &= ~val`, and "SGIs cannot be disabled"
pub disable_bits : Dist → ℕ → ℕ → Dist
disable_bits d word val =
    let en = set d.enable word (bit_and (get_or d.enable word 0) (4294967295 - val)) in
    if ltb word num_words then record d { enable = set en 0 (bit_or (get_or en 0 0) 0xffff) } else d

-- the loop over the bytes of a priority register: those left, and the number of the next
pub write_priorities : ℕ → List ℕ → ℕ → ℕ → ℕ → List ℕ
write_priorities zero ps base b val = ps
write_priorities (suc n) ps base b val =
    write_priorities n
      (if ltb (base + b) max_irqs then set ps (base + b) (val / 2 ^ (b * 8) % 256) else ps) base
      (b + 1) val

-- `offset >= BASE && offset <= END`
abbrev pub within : ℕ → ℕ → ℕ → Bool
within offset base end = leb base offset && leb offset end

pub vgic_dist_write : Dist → ℕ → ℕ → Err × Dist
unfolding enable_bits disable_bits write_priorities
vgic_dist_write d offset val =
    if not d.initialised
    then (e_inval, d)
    else if within offset 0x100 0x17c
    then (e_ok, enable_bits d ((offset - 0x100) / 4) val)
    else if within offset 0x180 0x1fc
    then (e_ok, disable_bits d ((offset - 0x180) / 4) val)
    else if within offset 0x400 0x4fc
    then (e_ok, record d { priority = write_priorities 4 d.priority (offset - 0x400) 0 val })
    else (e_ok, d)

-- the loop that packs the bytes: those left, and the number of the next; the bytes are disjoint, so
-- `|` is a sum
pub read_priorities : ℕ → List ℕ → ℕ → ℕ → ℕ
read_priorities zero ps base b = 0
read_priorities (suc n) ps base b =
    (if ltb (base + b) max_irqs then get_or ps (base + b) 0 * 2 ^ (b * 8) else 0)
    + read_priorities n ps base (b + 1)

-- `*val`; the result is `E_OK`
pub vgic_dist_read : Dist → ℕ → ℕ
unfolding read_priorities
vgic_dist_read d offset =
    if not d.initialised
    then 0
    else if within offset 0x100 0x17c
    then if ltb ((offset - 0x100) / 4) num_words
      then get_or d.enable ((offset - 0x100) / 4) 0
      else 0
    else if within offset 0x180 0x1fc
    then if ltb ((offset - 0x180) / 4) num_words
      then get_or d.enable ((offset - 0x180) / 4) 0
      else 0
    else if within offset 0x400 0x4fc
    then read_priorities 4 d.priority (offset - 0x400) 0
    else 0

-- The fields that `vgic_icc_trap` reads from the syndrome.
abbrev pub rt_of : ℕ → ℕ
rt_of iss = iss / 32 % 32

-- `(op0<<14)|(op1<<11)|(crn<<7)|(crm<<3)|op2`, of disjoint fields
abbrev pub enc_of : ℕ → ℕ
enc_of iss =
    iss / 1048576 % 4 * 16384
    + iss / 131072 % 8 * 2048
    + iss / 4096 % 16 * 128
    + iss / 256 % 16 * 8
    + iss / 32 % 8

abbrev pub icc_pmr_enc : ℕ
icc_pmr_enc = 3 * 16384 + 4 * 128 + 6 * 8

abbrev pub icc_bpr0_enc : ℕ
icc_bpr0_enc = 3 * 16384 + 12 * 128 + 8 * 8 + 3

abbrev pub icc_grpen1_enc : ℕ
icc_grpen1_enc = 3 * 16384 + 12 * 128 + 12 * 8 + 7

abbrev pub set_reg : List ℕ → ℕ → ℕ → List ℕ
set_reg x rt v = if ltb rt 31 then set x rt v else x

abbrev pub reg_value : List ℕ → ℕ → ℕ
reg_value x rt = if ltb rt 31 then get_or x rt 0 else 0

-- The result, the CPU interface and the registers of the guest.
pub vgic_icc_trap : CpuIf → List ℕ → ℕ → Err × (CpuIf × List ℕ)
vgic_icc_trap cpu x esr =
    let iss = esr % 33554432 in
    let rt = rt_of iss in
    let is_read = iss % 2 == 1 in
    let val = reg_value x rt in
    if enc_of iss == icc_pmr_enc
    then if is_read
      then (e_ok, (cpu, set_reg x rt cpu.icc_pmr))
      else (e_ok, (record cpu { icc_pmr = val % 256 }, x))
    else if enc_of iss == icc_bpr0_enc
    then if is_read
      then (e_ok, (cpu, set_reg x rt cpu.icc_bpr0))
      else (e_ok, (record cpu { icc_bpr0 = val % 8 }, x))
    else if enc_of iss == icc_grpen1_enc
    then if is_read
      then (e_ok, (cpu, set_reg x rt cpu.icc_grpen1))
      else (e_ok, (record cpu { icc_grpen1 = val % 2 }, x))
    else (e_unsupported, (cpu, x))

pub vgic_get_priority : Dist → ℕ → ℕ
vgic_get_priority d irq =
    if not d.initialised || leb max_irqs irq then 0xa0 else get_or d.priority irq 0

pub vgic_is_enabled : Dist → ℕ → Bool
vgic_is_enabled d irq =
    if not d.initialised || leb max_irqs irq then true else bitmap_get d.enable irq

pub vgic_is_masked : CpuIf → ℕ → Bool
vgic_is_masked cpu irq_priority = leb cpu.icc_pmr irq_priority
