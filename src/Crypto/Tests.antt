-- ===== src/Crypto/Tests.antt =====
-- Runs of the hash and of what stands on it.
use hypervisor_base.Common.{
  replicate, ℕ, ◌≡◌, ◌≤◌, ◌<◌, ◌+◌, refl, ◌↔◌, true, List, [], ◌∷◌, ◌++◌, some, e_ok, arith,
}
use hypervisor_base.Crypto.Sha256.{sha256_init, sha256_update}
use hypervisor_base.Crypto.Keys.{dev_master_key}
use hypervisor_base.Crypto.Sha256.Stream.{view, feed, update_bytewise, update-append}
use hypervisor_base.Crypto.Hmac.{hmac_verify}
use hypervisor_base.Crypto.Hmac.Verify.{verify_iff}
use hypervisor_base.Crypto.Seal.{SealedBlob, Sealer, vse_seal, vse_unseal}
use hypervisor_base.Crypto.Seal.RoundTrip.{unseal-seal}
use hypervisor_base.Crypto.Totp.{hotp_compute, totp_verify, Attempt, login_authenticate}
use hypervisor_base.Crypto.Totp.Window.{totp_verify_iff}
use hypervisor_base.Crypto.Totp.Login.{IsPassword, IsCode, login_iff}
use hypervisor_base.Vse.Trust.{matches}
use hypervisor_base.Crypto.Measure.{GuestDesc, guests, find_guest, image, guest_measure_vm}
use hypervisor_base.Crypto.Measure.Genuine.{digest, genuine_iff}

abbrev abc : List ℕ
abc = 97 ∷ 98 ∷ 99 ∷ []

update_bytewise_example : view (sha256_update sha256_init abc) ≡ feed (view sha256_init) abc
unfolding sha256_init
update_bytewise_example = update_bytewise sha256_init abc (omega arith)

update-append_example :
    sha256_update (sha256_update sha256_init abc) abc ≡ sha256_update sha256_init (abc ++ abc)
unfolding sha256_init
update-append_example = update-append sha256_init abc abc (omega arith)

verify_iff_example : (hmac_verify abc abc 3 ≡ true) ↔ (abc ≡ abc)
verify_iff_example = verify_iff abc abc refl

totp_verify_iff_example :
    (totp_verify true 90 (49 ∷ 50 ∷ 51 ∷ 52 ∷ 53 ∷ 54 ∷ []) ≡ e_ok)
    ↔ ((t : ℕ) × (3 ≤ t + 1) × (t ≤ 4) × (hotp_compute t ≡ some (49 ∷ 50 ∷ 51 ∷ 52 ∷ 53 ∷ 54 ∷ [])))
totp_verify_iff_example = totp_verify_iff 90 (49 ∷ 50 ∷ 51 ∷ 52 ∷ 53 ∷ 54 ∷ []) refl

abbrev guesses : ℕ → Attempt
guesses k = record { pw = abc; code = 49 ∷ 50 ∷ 51 ∷ 52 ∷ 53 ∷ 54 ∷ []; now = 90 + k }

login_iff_example : (login_authenticate (replicate 32 7) true guesses ≡ e_ok) ↔ (
    (k : ℕ) × (1 ≤ k)
    × (k < 4)
    × IsPassword (replicate 32 7) abc
    × IsCode (90 + k) (49 ∷ 50 ∷ 51 ∷ 52 ∷ 53 ∷ 54 ∷ []))
login_iff_example = login_iff (replicate 32 7) guesses refl (λ k. refl)

abbrev a_sealer : Sealer
a_sealer = record { master_key = dev_master_key; initialized = true }

unseal-seal_example :
    (b : SealedBlob) × (vse_seal a_sealer abc abc ≡ some b)
    × ((io_len : ℕ)
        → 3 ≤ io_len
        → vse_unseal a_sealer abc b io_len ≡ record { code = e_ok; out = abc; io_len = 3 })
unseal-seal_example = unseal-seal a_sealer abc abc refl (ground arith) (ground arith)

abbrev blank : ℕ → ℕ
blank a = 0

genuine_iff_example : (guest_measure_vm blank (114 ∷ 116 ∷ 111 ∷ 115 ∷ []) ≡ matches) ↔ (
    (g : GuestDesc) × (find_guest (114 ∷ 116 ∷ 111 ∷ 115 ∷ []) guests ≡ some g)
    × (g.provisioned ≡ true)
    × (g.golden ≡ digest (image blank g.load_pa g.image_size)))
genuine_iff_example = genuine_iff blank (114 ∷ 116 ∷ 111 ∷ 115 ∷ [])
