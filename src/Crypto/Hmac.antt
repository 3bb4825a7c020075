-- ===== src/Crypto/Hmac.antt =====
-- vse/hmac.c, the HMAC part. Pointers are taken not to be null; the clearing of secrets on the
-- stack is not modelled.
pub mod Verify
pub mod Output
use hypervisor_base.Common.{
  ℕ, zero, suc, ◌-◌, List, [], ◌∷◌, ◌++◌, map, length, replicate, get_or, Option, none, some, ◌==◌,
  ltb, if◌then◌else◌, Bool, bit_or,
}
use Prim.Native.Nat.{bit_xor}
use hypervisor_base.Crypto.Sha256.{Sha256, sha256_block, sha256_init, sha256_update, sha256_final}

-- `hmac_ctx_t`
pub record Hmac : Type 0 where
  pub inner : Sha256
  pub outer : Sha256

-- `k_block`
pub key_block : List ℕ → List ℕ
key_block key =
    if ltb sha256_block (length key)
    then sha256_final (sha256_update sha256_init key) ++ replicate 32 0
    else key ++ replicate (sha256_block - length key) 0

-- `none` is `E_INVAL`
pub hmac_init : List ℕ → Option Hmac
unfolding key_block
hmac_init key =
    if length key == 0
    then none
    else some (record {
      inner = sha256_update sha256_init (map (λ b. bit_xor b 0x36) (key_block key));
      outer = sha256_update sha256_init (map (λ b. bit_xor b 0x5c) (key_block key));
    })

pub hmac_update : Hmac → List ℕ → Hmac
hmac_update c msg = record c { inner = sha256_update c.inner msg }

pub hmac_final : Hmac → List ℕ
hmac_final c = sha256_final (sha256_update c.outer (sha256_final c.inner))

pub hmac_sha256 : List ℕ → List ℕ → Option (List ℕ)
unfolding hmac_init hmac_update hmac_final
hmac_sha256 key msg = elim (hmac_init key) [
  | none ↦ none
  | some c ↦ some (hmac_final (hmac_update c msg))
]

-- the loop of `hmac_verify`: the bytes left, the number of the next, and the differences so far
pub differences : ℕ → List ℕ → List ℕ → ℕ → ℕ → ℕ
differences zero xs ys i diff = diff
differences (suc n) xs ys i diff =
    differences n xs ys (suc i) (bit_or diff (bit_xor (get_or xs i 0) (get_or ys i 0)))

pub hmac_verify : List ℕ → List ℕ → ℕ → Bool
unfolding differences
hmac_verify expected actual len = differences len expected actual 0 0 == 0
