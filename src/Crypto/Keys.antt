-- ===== src/Crypto/Keys.antt =====
-- vse/keystore.c, in the build without fuses: the master key and the secrets derived from it.
use hypervisor_base.Common.{
  ℕ, List, [], ◌∷◌, Option, none, some, ◌==◌, ◌||◌, ltb, if◌then◌else◌, take,
}
use hypervisor_base.Crypto.Hmac.{hmac_sha256}

abbrev pub vse_master_key_len : ℕ
vse_master_key_len = 32

-- `_dev_master_key`
abbrev pub dev_master_key : List ℕ
dev_master_key =
    0xa3 ∷ 0x7f ∷ 0x2c ∷ 0x91 ∷ 0xd4 ∷ 0x58 ∷ 0xbe ∷ 0x06 ∷ 0x1e ∷ 0x82 ∷ 0x4a ∷ 0xf3 ∷ 0x70 ∷ 0xc9
    ∷ 0x55 ∷ 0x3d ∷ 0x08 ∷ 0xb1 ∷ 0xe7 ∷ 0x6f ∷ 0x29 ∷ 0xda ∷ 0x44 ∷ 0x9c ∷ 0x87 ∷ 0x5e ∷ 0x13
    ∷ 0xab ∷ 0xfc ∷ 0x60 ∷ 0x2b ∷ 0x77 ∷ []

-- `none` is `E_INVAL`
pub vse_get_master_key : ℕ → Option (List ℕ)
vse_get_master_key len = if ltb len vse_master_key_len then none else some dev_master_key

pub vse_derive_secret : List ℕ → ℕ → Option (List ℕ)
unfolding vse_get_master_key
vse_derive_secret label len =
    if len == 0 || ltb vse_master_key_len len
    then none
    else elim (vse_get_master_key vse_master_key_len) [
      | none ↦ none
      | some mk ↦ elim (hmac_sha256 mk label) [ none ↦ none | some mac ↦ some (take len mac) ]
    ]
