-- ===== src/Crypto/Seal/RoundTrip.antt =====
-- What vse_unseal gives back of a blob of vse_seal.
use hypervisor_base.Common.{
  ℕ, ◌-◌, ◌≡◌, ◌≤◌, ◌≢◌, refl, ap, ◌∙◌, true, false, List, ◌++◌, length, replicate, take,
  take-append, some, ltb, arith, e_ok,
}
use hypervisor_base.Crypto.Sha256.{put_be32}
use hypervisor_base.Crypto.Hmac.{hmac_update, hmac_final}
use hypervisor_base.Crypto.Hmac.Output.{init-started, code-computed}
use hypervisor_base.Crypto.Hmac.Verify.{verify_refl}
use hypervisor_base.Crypto.Seal.{
  seal_label, seal_max_payload, seal_magic, SealedBlob, Sealer, platform_bind_tag, derive_seal_key,
  blob_mac, assemble, seal_under, vse_seal, Unsealed, open_blob, expected_mac, vse_unseal,
}

-- A blob with the code expected opens.
opens :
    (expect : List ℕ) (b : SealedBlob) (io_len : ℕ)
    → b.mac ≡ expect
    → b.payload_len ≤ io_len
    → open_blob expect b io_len
      ≡ record { code = e_ok; out = take b.payload_len b.payload; io_len = b.payload_len }
unfolding open_blob
opens expect b io_len m l =
    let f : ltb io_len b.payload_len ≡ false = ground arith in rw (m, verify_refl expect 32, f)

-- The blob that comes of the code computed for the bytes.
sealed : List ℕ → List ℕ → List ℕ → SealedBlob
sealed tag m bytes = record (assemble tag bytes) { mac = m }

given : ℕ → List ℕ → Unsealed
given n out = record { code = e_ok; out = out; io_len = n }

opened :
    (st : Sealer) (config tag key m bytes : List ℕ) (io_len : ℕ)
    → ltb seal_max_payload (length bytes) ≡ false
    → st.initialized ≡ true
    → platform_bind_tag st config ≡ some tag
    → derive_seal_key st tag ≡ some key
    → blob_mac key seal_magic (length bytes) tag (assemble tag bytes).payload ≡ some m
    → length bytes ≤ io_len
    → vse_unseal st config (sealed tag m bytes) io_len
      ≡ record { code = e_ok; out = bytes; io_len = length bytes }
unfolding vse_unseal expected_mac sealed assemble given
opened st config tag key m bytes io_len f i t k q l =
    let x : expected_mac st config (sealed tag m bytes) ≡ some m =
      rw (expected_mac, t, k, q) refl in
    rw (vse_unseal, i, f, x)
      (opens m (sealed tag m bytes) io_len refl l
        ∙ ap (given (length bytes))
            (take-append (length bytes) bytes (replicate (seal_max_payload - length bytes) 0) refl))

-- A key that is not empty gives the fields of a blob their code.
mac_computed :
    (key tag payload : List ℕ) (magic n : ℕ)
    → length key ≢ 0
    → (m : List ℕ) × (blob_mac key magic n tag payload ≡ some m)
unfolding blob_mac
mac_computed key tag payload magic n h =
    let (c, e) = init-started key h in
    (
      hmac_final
          (hmac_update (hmac_update (hmac_update c (put_be32 magic ++ put_be32 n)) tag) payload),
      rw (blob_mac, e) refl,
    )

-- The service, once initialised with a master key, seals any bytes that fit into a blob; and in the
-- same configuration vse_unseal opens that blob for every caller whose buffer is as long as the bytes
-- sealed: it reports success, and gives those bytes and their number.
pub unseal-seal :
    (st : Sealer) (config bytes : List ℕ)
    → st.initialized ≡ true
    → length st.master_key ≢ 0
    → length bytes ≤ 256
    → (b : SealedBlob) × (vse_seal st config bytes ≡ some b)
      × ((io_len : ℕ)
          → length bytes ≤ io_len
          → vse_unseal st config b io_len
            ≡ record { code = e_ok; out = bytes; io_len = length bytes })
unfolding vse_seal seal_under platform_bind_tag derive_seal_key sealed assemble
unseal-seal st config bytes i h short =
    let f : ltb seal_max_payload (length bytes) ≡ false = ground arith in
    let (tag, t, lt) = code-computed st.master_key config h in
    let (key, k, lk) = code-computed st.master_key (seal_label ++ tag) h in
    let (m, q) =
      mac_computed key tag (assemble tag bytes).payload seal_magic (length bytes)
        (omega (arith, lk)) in
    (
      sealed tag m bytes,
      rw (vse_seal, f, i, t, seal_under, k, q) refl,
      λ io_len l. opened st config tag key m bytes io_len f i t k q l,
    )
