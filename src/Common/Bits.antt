-- ===== src/Common/Bits.antt =====
-- `|` on words whose set bits are disjoint. The lowest digit obeys one law, from the definition
-- that the native operation stands for.
use Prim.Native.Nat.{
  ℕ, zero, suc, ◌+◌, ◌*◌, ◌/◌, ◌%◌, ◌^◌, ◌≤◌, ◌<◌, max, bit_or, digits, bit_or-bitwise,
}
use mathlib.Core.Path.{◌≡◌, refl, ◌∙◌, ap, sym, subst}
use native.Mathlib.Omega.{arith}
use hypervisor_base.Common.Words.{shl16, shl32, shl48}
use native.Mathlib.Nat.{pow-suc}

abbrev or_digits : ℕ → ℕ → ℕ → ℕ
or_digits n a b = digits (λ b. b) max n a b

or_digits_fuel : (n m a b : ℕ) → a ≤ n → a ≤ m → or_digits n a b ≡ or_digits m a b
or_digits_fuel zero zero a b p q = refl
or_digits_fuel zero (suc m) zero b p q = refl
or_digits_fuel zero (suc m) (suc a) b p q = absurd (omega arith)
or_digits_fuel (suc n) zero zero b p q = refl
or_digits_fuel (suc n) zero (suc a) b p q = absurd (omega arith)
or_digits_fuel (suc n) (suc m) zero b p q = refl
or_digits_fuel (suc n) (suc m) (suc a) b p q =
    omega (arith, or_digits_fuel n m (suc a / 2) (b / 2) (omega arith) (omega arith))

pub zero-bit_or : (b : ℕ) → bit_or 0 b ≡ b
zero-bit_or b = bit_or-bitwise 0 b

pub bit_or_step : (a b : ℕ) → bit_or a b ≡ bit_or (a / 2) (b / 2) * 2 + max (a % 2) (b % 2)
bit_or_step zero b = omega (arith, zero-bit_or b, zero-bit_or (b / 2))
bit_or_step (suc a) b = omega (
  arith,
  bit_or-bitwise (suc a) b,
  bit_or-bitwise (suc a / 2) (b / 2),
  or_digits_fuel a (suc a / 2) (suc a / 2) (b / 2) (omega arith) (omega arith),
)

mul_pow : (b k : ℕ) → b * 2 ^ suc k ≡ b * 2 ^ k * 2
mul_pow b k = grind (arith, pow-suc 2 k)

half_lt : (a k : ℕ) → a < 2 ^ suc k → a / 2 < 2 ^ k
half_lt a k h = omega arith

bit_or-double : (a c d : ℕ) → d ≡ c * 2 → bit_or a d ≡ bit_or (a / 2) c * 2 + a % 2
bit_or-double a c d h =
    bit_or_step a d
    ∙ subst (λ x. bit_or (a / 2) x * 2 + max (a % 2) (d % 2) ≡ bit_or (a / 2) c * 2 + a % 2) {x = c}
        {y = d / 2} (omega arith) (omega arith)

-- The upper word has no bit among the lowest `k`, where all bits of the lower word are.
pub bit_or-shift : (k a b : ℕ) → a < 2 ^ k → bit_or a (b * 2 ^ k) ≡ a + b * 2 ^ k
bit_or-shift zero zero b h = zero-bit_or (b * 1) ∙ omega arith
bit_or-shift zero (suc a) b h = absurd (omega arith)
bit_or-shift (suc k) a b h =
    bit_or-double a (b * 2 ^ k) (b * 2 ^ suc k) (mul_pow b k)
    ∙ omega (arith, mul_pow b k, bit_or-shift k (a / 2) b (half_lt a k h))

pub join : (k x b y : ℕ) → x < 2 ^ k → y ≡ b * 2 ^ k → bit_or x y ≡ x + y
join k x b y h e =
    subst (λ z. bit_or x z ≡ x + z) {x = b * 2 ^ k} {y = y} (sym e) (bit_or-shift k x b h)

-- Four fields of 16 bits, joined by `|`, are a sum.
pub join4 :
    (a b c d : ℕ)
    → a < 65536
    → b < 65536
    → c < 65536
    → d < 65536
    → bit_or (bit_or (bit_or a (shl16 b)) (shl32 c)) (shl48 d)
      ≡ a + b * 65536 + c * 4294967296 + d * 281474976710656
join4 a b c d p q r s =
    ap (λ x. bit_or (bit_or x (shl32 c)) (shl48 d)) (join 16 a b (shl16 b) p (omega arith))
    ∙ ap (λ x. bit_or x (shl48 d)) (join 32 (a + shl16 b) c (shl32 c) (omega arith) (omega arith))
    ∙ join 48 (a + shl16 b + shl32 c) d (shl48 d) (omega arith) (omega arith)
    ∙ omega arith
