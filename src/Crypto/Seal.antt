-- ===== src/Crypto/Seal.antt =====
-- vse/seal.c: sealed blobs. The configuration that config_check_get_blob copies is an argument, in
-- bytes, as the struct stands in memory; pointers are taken not to be null, and the clearing of
-- secrets on the stack is not modelled.
pub mod RoundTrip
use hypervisor_base.Common.{
  ℕ, ◌-◌, Bool, true, List, [], ◌∷◌, ◌++◌, length, replicate, take, Option, none, some, ◌==◌, ltb,
  if◌then◌else◌, Err, e_ok, e_inval,
}
use hypervisor_base.Crypto.Sha256.{put_be32}
use hypervisor_base.Crypto.Hmac.{hmac_init, hmac_update, hmac_final, hmac_sha256, hmac_verify}

abbrev pub seal_max_payload : ℕ
seal_max_payload = 256

abbrev pub seal_magic : ℕ
seal_magic = 0x56534534

-- `sealed_blob_t`
pub record SealedBlob : Type 0 where
  pub magic : ℕ
  pub payload_len : ℕ
  pub bind_tag : List ℕ
  pub mac : List ℕ
  pub payload : List ℕ

-- the statics of the file
pub record Sealer : Type 0 where
  pub master_key : List ℕ
  pub initialized : Bool

-- `_seal_label`, without the NUL
abbrev pub seal_label : List ℕ
seal_label = 86 ∷ 83 ∷ 69 ∷ 45 ∷ 83 ∷ 69 ∷ 65 ∷ 76 ∷ 45 ∷ 118 ∷ 49 ∷ []

-- `_platform_bind_tag`
pub platform_bind_tag : Sealer → List ℕ → Option (List ℕ)
platform_bind_tag st config = hmac_sha256 st.master_key config

-- `_derive_seal_key`
pub derive_seal_key : Sealer → List ℕ → Option (List ℕ)
derive_seal_key st tag = hmac_sha256 st.master_key (seal_label ++ tag)

-- `_blob_mac`, for the fields of a blob
pub blob_mac : List ℕ → ℕ → ℕ → List ℕ → List ℕ → Option (List ℕ)
blob_mac seal_key magic payload_len tag payload = elim (hmac_init seal_key) [
  | none ↦ none
  | some ctx ↦ some (
      hmac_final (
        hmac_update (hmac_update (hmac_update ctx (put_be32 magic ++ put_be32 payload_len)) tag)
          payload))
]

-- the blob that `vse_seal` assembles before its code
pub assemble : List ℕ → List ℕ → SealedBlob
assemble tag bytes = record {
  magic = seal_magic;
  payload_len = length bytes;
  bind_tag = tag;
  mac = replicate 32 0;
  payload = bytes ++ replicate (seal_max_payload - length bytes) 0;
}

-- the part of `vse_seal` after the tag
pub seal_under : Sealer → List ℕ → List ℕ → Option SealedBlob
unfolding derive_seal_key blob_mac assemble
seal_under st tag bytes = elim (derive_seal_key st tag) [
  | none ↦ none
  | some key ↦
      let b = assemble tag bytes in
      elim (blob_mac key b.magic b.payload_len b.bind_tag b.payload) [
        | none ↦ none
        | some m ↦ some (record b { mac = m })
      ]
]

-- `none` is `E_INVAL`, the only error that the functions called return
pub vse_seal : Sealer → List ℕ → List ℕ → Option SealedBlob
unfolding platform_bind_tag seal_under
vse_seal st config bytes =
    if ltb seal_max_payload (length bytes)
    then none
    else if st.initialized
    then elim (platform_bind_tag st config) [ none ↦ none | some tag ↦ seal_under st tag bytes ]
    else none

-- what `vse_unseal` returns, what it copies to `out`, and `*io_len` after it
pub record Unsealed : Type 0 where
  pub code : Err
  pub out : List ℕ
  pub io_len : ℕ

-- the end of `vse_unseal`, for the expected code
pub open_blob : List ℕ → SealedBlob → ℕ → Unsealed
open_blob expect b io_len =
    if hmac_verify expect b.mac 32
    then if ltb io_len b.payload_len
      then record { code = e_inval; out = []; io_len = b.payload_len }
      else record { code = e_ok; out = take b.payload_len b.payload; io_len = b.payload_len }
    else record { code = e_inval; out = []; io_len = io_len }

-- the code that the current platform gives the blob
pub expected_mac : Sealer → List ℕ → SealedBlob → Option (List ℕ)
unfolding platform_bind_tag derive_seal_key blob_mac
expected_mac st config b = elim (platform_bind_tag st config) [
  | none ↦ none
  | some tag ↦ elim (derive_seal_key st tag) [
    | none ↦ none
    | some key ↦ blob_mac key b.magic b.payload_len b.bind_tag b.payload
  ]
]

pub vse_unseal : Sealer → List ℕ → SealedBlob → ℕ → Unsealed
unfolding expected_mac open_blob
vse_unseal st config b io_len =
    let refused : Unsealed = record { code = e_inval; out = []; io_len = io_len } in
    if st.initialized
    then if b.magic == seal_magic
      then if ltb seal_max_payload b.payload_len then refused else elim (expected_mac st config b) [
        | none ↦ refused
        | some expect ↦ open_blob expect b io_len
      ]
      else refused
    else refused
