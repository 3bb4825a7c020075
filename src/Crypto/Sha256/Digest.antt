-- ===== src/Crypto/Sha256/Digest.antt =====
-- The size of what sha256_final of vse/hmac.c writes.
use hypervisor_base.Common.{◌≡◌, refl, ◌∷◌, [], ◌++◌, length, ltb, if_split}
use hypervisor_base.Crypto.Sha256.{
  sha256_init, sha256_update, fill_partial, full_blocks, store_tail, Sha256, sha256_compress,
  digest_of, sha256_final,
}

-- A digest has 32 bytes.
pub length-final : (c : Sha256) → length (sha256_final c) ≡ 32
unfolding sha256_final digest_of sha256_compress
length-final c =
    if_split (λ s. length (digest_of s) ≡ 32) (ltb 56 (length (c.buf ++ 0x80 ∷ []))) (λ t. refl)
      (λ f. refl)

-- Adding no bytes to a new context leaves it as it is.
pub init-nothing : sha256_update sha256_init [] ≡ sha256_init
unfolding sha256_update fill_partial full_blocks store_tail sha256_init
init-nothing = refl

-- A new context has no bytes waiting.
pub init-waiting : length sha256_init.buf ≡ 0
unfolding sha256_init
init-waiting = refl
