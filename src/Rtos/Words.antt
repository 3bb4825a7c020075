-- ===== src/Rtos/Words.antt =====
-- The words of guests/rtos/rtos.c as sums of their fields.
use hypervisor_base.Common.{
  ℕ, zero, suc, ◌+◌, ◌*◌, ◌%◌, ◌≤◌, ◌<◌, ◌≡◌, refl, List, [], ◌∷◌, ◌==◌, if◌then◌else◌, get_or, u64,
  bit_or, join, join4, ◌∙◌, ap, arith, shl32,
}
use hypervisor_base.Rtos.{Engine, calc_injection_us, cyl_bits, word1, word2, word3}
use hypervisor_base.Rtos.Bounds.{IsSound, AreFlags}

flag_bits : (k : ℕ) → k ≤ 1 → cyl_bits (1 ∷ 1 ∷ k ∷ 1 ∷ []) ≡ 11 + k * 4
unfolding cyl_bits
flag_bits zero h = refl
flag_bits (suc zero) h = refl
flag_bits (suc (suc k)) h = absurd (omega arith)

cyl_bits_eq : (c : List ℕ) → AreFlags c → cyl_bits c ≡ 11 + get_or c 2 0 * 4
unfolding AreFlags
cyl_bits_eq c (h, e) = ap cyl_bits e ∙ flag_bits (get_or c 2 0) h

pub calc_injection_us_range : (e : Engine) → IsSound e → calc_injection_us e < 65536
unfolding IsSound calc_injection_us
calc_injection_us_range e h = ground (arith, h)

pub word1_eq :
    (e : Engine) (inj_us : ℕ)
    → IsSound e
    → inj_us < 65536
    → word1 e inj_us
      ≡ e.rpm + inj_us * 65536 + e.coolant_c * 4294967296 + e.throttle * 281474976710656
unfolding IsSound word1
word1_eq e inj_us h k =
    join4 e.rpm inj_us e.coolant_c e.throttle (omega (arith, h)) k (omega (arith, h))
      (omega (arith, h))

-- `0x300` when the third cylinder misfires
abbrev pub fault_of : Engine → ℕ
fault_of e = if get_or e.cyl_ok 2 0 == 0 then 0x300 else 0

pub word2_eq :
    (e : Engine)
    → IsSound e
    → e.inj_count < 16777216
    → word2 e ≡ 11 + get_or e.cyl_ok 2 0 * 4 + e.inj_count * 256 + fault_of e * 4294967296
unfolding IsSound word2
word2_eq e h k =
    let fault = if get_or e.cyl_ok 2 0 == 0 then 0x300 * 4294967296 else 0 in
    let flags = 11 + get_or e.cyl_ok 2 0 * 4 in
    let small = h.9.0 in
    ap (λ z. bit_or (bit_or z (u64 (e.inj_count * 256))) fault) (cyl_bits_eq e.cyl_ok (h.9))
    ∙ ap (λ z. bit_or z fault)
        (join 8 flags e.inj_count (u64 (e.inj_count * 256)) (omega arith) (omega arith))
    ∙ join 32 (flags + u64 (e.inj_count * 256)) (fault_of e) fault (omega arith) (ground arith)
    ∙ ground arith

-- all cylinders in order: the count may reach into the bits of the fault code
pub word2_healthy :
    (e : Engine) → IsSound e → get_or e.cyl_ok 2 0 ≡ 1 → word2 e ≡ 15 + e.inj_count * 256
unfolding IsSound word2
word2_healthy e h c =
    ap
      (λ z.
        bit_or (bit_or z (u64 (e.inj_count * 256)))
          (if get_or e.cyl_ok 2 0 == 0 then 0x300 * 4294967296 else 0))
      (cyl_bits_eq e.cyl_ok (h.9))
    ∙ rw (c) (
        ap (λ z. bit_or z 0)
          (join 8 15 e.inj_count (u64 (e.inj_count * 256)) (omega arith) (omega (arith, h)))
        ∙ join 40 (15 + u64 (e.inj_count * 256)) 0 0 (omega (arith, h)) refl
        ∙ omega (arith, h))

pub word3_eq : (e : Engine) → IsSound e → word3 e ≡ e.seq + (98 + e.rpm % 6) * 4294967296
unfolding IsSound word3
word3_eq e h =
    join 32 e.seq (98 + e.rpm % 6) (shl32 (98 + e.rpm % 6)) (omega (arith, h)) (omega arith)
    ∙ omega arith
