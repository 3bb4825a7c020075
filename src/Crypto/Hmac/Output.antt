-- ===== src/Crypto/Hmac/Output.antt =====
-- When the codes of vse/hmac.c are computed, and their size.
use hypervisor_base.Common.{
  inr, inl, ◌∙◌, ap, sym, Option-cases, none, ℕ, ◌≡◌, ◌≢◌, refl, List, length, some, ◌==◌, false,
  arith,
}
use hypervisor_base.Crypto.Sha256.{sha256_update, sha256_final}
use hypervisor_base.Crypto.Sha256.Digest.{length-final}
use hypervisor_base.Crypto.Hmac.{Hmac, hmac_init, hmac_update, hmac_final, hmac_sha256}

-- A context starts from any key that is not empty.
pub init-started : (key : List ℕ) → length key ≢ 0 → (c : Hmac) × (hmac_init key ≡ some c)
unfolding hmac_init
init-started key h = let f : (length key == 0) ≡ false = ground arith in rw f (_, refl)

-- A code has 32 bytes.
pub length-code : (c : Hmac) → length (hmac_final c) ≡ 32
unfolding hmac_final
length-code c = length-final (sha256_update c.outer (sha256_final c.inner))

-- A key that is not empty gives every message a code of 32 bytes.
pub code-computed :
    (key msg : List ℕ)
    → length key ≢ 0
    → (mac : List ℕ) × (hmac_sha256 key msg ≡ some mac) × (length mac ≡ 32)
unfolding hmac_sha256
code-computed key msg h =
    let (c, e) = init-started key h in
    (hmac_final (hmac_update c msg), rw (hmac_sha256, e) refl, length-code (hmac_update c msg))

-- Every code that is computed has 32 bytes.
pub length-hmac_sha256 : (key msg mac : List ℕ) → hmac_sha256 key msg ≡ some mac → length mac ≡ 32
unfolding hmac_sha256
length-hmac_sha256 key msg mac e = elim (Option-cases (hmac_init key)) [
  | inl n ↦ let r : hmac_sha256 key msg ≡ none = rw (hmac_sha256, n) refl in cc
  | inr (c, i) ↦
      let r : hmac_sha256 key msg ≡ some (hmac_final (hmac_update c msg)) =
        rw (hmac_sha256, i) refl in
      let q : hmac_final (hmac_update c msg) ≡ mac = cc in
      ap length (sym q) ∙ length-code (hmac_update c msg)
]
