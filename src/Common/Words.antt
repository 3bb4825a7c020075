-- ===== src/Common/Words.antt =====
-- Machine words: wrap-around to 32 and 64 bits, the result codes of include/error.h and the
-- constants of include/config.h.
use Prim.Native.Nat.{ℕ, ◌+◌, ◌-◌, ◌*◌, ◌%◌}
use mathlib.Core.Bool.{Bool, true, false}

abbrev pub u8 : ℕ → ℕ
u8 n = n % 256

abbrev pub u32 : ℕ → ℕ
u32 n = n % 4294967296

abbrev pub u64 : ℕ → ℕ
u64 n = n % 18446744073709551616

-- `(a << 16)`, `(a << 32)` and `(a << 48)` on u64
abbrev pub shl16 : ℕ → ℕ
shl16 a = u64 (a * 65536)

abbrev pub shl32 : ℕ → ℕ
shl32 a = u64 (a * 4294967296)

abbrev pub shl48 : ℕ → ℕ
shl48 a = u64 (a * 281474976710656)

-- `a - b` on u64
abbrev pub sub_u64 : ℕ → ℕ → ℕ
sub_u64 a b = (a + (18446744073709551616 - b)) % 18446744073709551616

-- `err_t`
pub data Err : Type 0 where
  e_ok e_generic e_nomem e_inval e_busy e_notfound e_denied e_fault e_unsupported e_timeout : Err

-- `FAIL(e)`
abbrev pub failed : Err → Bool
failed e_ok = false
failed _ = true

-- `(u64)(s64)e`
abbrev pub err_word : Err → ℕ
err_word e_ok = 0
err_word e_generic = 18446744073709551615
err_word e_nomem = 18446744073709551614
err_word e_inval = 18446744073709551613
err_word e_busy = 18446744073709551612
err_word e_notfound = 18446744073709551611
err_word e_denied = 18446744073709551610
err_word e_fault = 18446744073709551609
err_word e_unsupported = 18446744073709551608
err_word e_timeout = 18446744073709551607

abbrev pub max_vms : ℕ
max_vms = 4

abbrev pub max_vcpu_per_vm : ℕ
max_vcpu_per_vm = 4

abbrev pub max_mem_regions : ℕ
max_mem_regions = 8

abbrev pub max_dev_per_vm : ℕ
max_dev_per_vm = 16
