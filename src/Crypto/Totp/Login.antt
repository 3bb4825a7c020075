-- ===== src/Crypto/Totp/Login.antt =====
-- Who vse/login.c lets in.
use hypervisor_base.Common.{
  ℕ, zero, suc, ◌+◌, ◌/◌, ◌≤◌, ◌<◌, ◌≡◌, ◌↔◌, ◌⊎◌, inl, inr, refl, sym, ap, ◌∙◌, subst, Bool, true,
  false, ◌==◌, ==_iff, Bool-cases, some, Option-cases, List, length, Err, e_ok, e_generic, e_nomem,
  e_inval, e_busy, e_notfound, e_denied, e_fault, e_unsupported, e_timeout, failed, arith,
}
use hypervisor_base.Crypto.Hmac.{hmac_sha256, hmac_verify}
use hypervisor_base.Crypto.Hmac.Output.{length-hmac_sha256}
use hypervisor_base.Crypto.Hmac.Verify.{verify_iff}
use hypervisor_base.Crypto.Keys.{vse_derive_secret}
use hypervisor_base.Crypto.Totp.{
  Attempt, hotp_compute, totp_verify, login_pepper_label, check_password, is_granted, try_login,
  login_authenticate,
}
use hypervisor_base.Crypto.Totp.Window.{totp_verify_iff}

-- an attempt of those from one number on that has both factors
Some : List ℕ → Bool → (ℕ → Attempt) → ℕ → ℕ → Type 0
Some verifier ready typed i n =
    (k : ℕ) × (i ≤ k) × (k < i + n) × (is_granted verifier ready (typed k) ≡ true)

try_login_iff :
    (n : ℕ) (verifier : List ℕ) (ready : Bool) (typed : ℕ → Attempt) (i : ℕ)
    → (try_login n verifier ready typed i ≡ e_ok) ↔ Some verifier ready typed i n
unfolding try_login Some
try_login_iff zero verifier ready typed i = (λ e. cc, λ (k, p, q, h). absurd (omega (arith, p, q)))
try_login_iff (suc n) verifier ready typed i =
    elim (Bool-cases (is_granted verifier ready (typed i))) [
      | inl y ↦ rw y (λ e. (i, ground arith, ground arith, y), λ u. refl)
      | inr f ↦
          let rest = try_login_iff n verifier ready typed (i + 1) in
          rw f (
            λ e. let (k, p, q, h) = rest.0 e in (k, omega (arith, p), omega (arith, q), h),
            λ (k, p, q, h). elim (Bool-cases (k == i)) [
              | inl y ↦
                  let g : is_granted verifier ready (typed i) ≡ true =
                    subst (λ j. is_granted verifier ready (typed j) ≡ true) {x = k} {y = i}
                      ((==_iff k i).0 y) h in
                  cc
              | inr ne ↦ rest.1 (k, ground arith, ground arith, h)
            ],
          )
    ]

-- The password is the one whose code, under the secret derived for passwords, is the verifier.
pub IsPassword : List ℕ → List ℕ → Type 0
IsPassword verifier pw =
    (pepper : List ℕ) × (vse_derive_secret login_pepper_label 32 ≡ some pepper)
    × (hmac_sha256 pepper pw ≡ some verifier)

-- The one-time code is that of the step of the time, of the one before it or of the one after it.
pub IsCode : ℕ → List ℕ → Type 0
IsCode now code = (t : ℕ) × (now / 30 ≤ t + 1) × (t ≤ now / 30 + 1) × (hotp_compute t ≡ some code)

IsPassword-iff :
    (verifier pw : List ℕ)
    → length verifier ≡ 32
    → (check_password verifier pw ≡ true) ↔ IsPassword verifier pw
unfolding check_password IsPassword
IsPassword-iff verifier pw l = elim (Option-cases (vse_derive_secret login_pepper_label 32)) [
  | inl n ↦
      let a : check_password verifier pw ≡ false = rw (check_password, n) refl in
      (λ e. cc, λ (s, p, q). cc)
  | inr (pepper, d) ↦ elim (Option-cases (hmac_sha256 pepper pw)) [
    | inl n ↦
        let a : check_password verifier pw ≡ false = rw (check_password, d, n) refl in
        (
          λ e. cc,
          λ (s, p, q).
              let u : s ≡ pepper = cc in
              let v : hmac_sha256 pepper pw ≡ some verifier =
                subst (λ k. hmac_sha256 k pw ≡ some verifier) {x = s} {y = pepper} u q in
              cc,
        )
    | inr (mac, h) ↦
        let k : length mac ≡ 32 = length-hmac_sha256 pepper pw mac h in
        let v : (hmac_verify verifier mac (length verifier) ≡ true) ↔ (verifier ≡ mac) =
          verify_iff verifier mac (l ∙ sym k) in
        let w : (hmac_verify verifier mac 32 ≡ true) ↔ (verifier ≡ mac) =
          subst (λ n. (hmac_verify verifier mac n ≡ true) ↔ (verifier ≡ mac)) {x = length verifier}
            {y = 32} l v in
        let a : check_password verifier pw ≡ hmac_verify verifier mac 32 =
          rw (check_password, d, h) refl in
        (
          λ e. let q : verifier ≡ mac = w.0 (sym a ∙ e) in (pepper, d, h ∙ ap some (sym q)),
          λ (s, p, q).
              let u : s ≡ pepper = cc in
              let y : hmac_sha256 pepper pw ≡ some verifier =
                subst (λ k. hmac_sha256 k pw ≡ some verifier) {x = s} {y = pepper} u q in
              let z : verifier ≡ mac = cc in a ∙ w.1 z,
        )
  ]
]

err_cases : (e : Err) → (e ≡ e_ok) ⊎ (failed e ≡ true)
err_cases e_ok = inl refl
err_cases e_generic = inr refl
err_cases e_nomem = inr refl
err_cases e_inval = inr refl
err_cases e_busy = inr refl
err_cases e_notfound = inr refl
err_cases e_denied = inr refl
err_cases e_fault = inr refl
err_cases e_unsupported = inr refl
err_cases e_timeout = inr refl

granted_split :
    (verifier : List ℕ) (ready : Bool) (a : Attempt)
    → (is_granted verifier ready a ≡ true)
      ↔ ((check_password verifier a.pw ≡ true) × (totp_verify ready a.now a.code ≡ e_ok))
unfolding is_granted
granted_split verifier ready a = elim (err_cases (totp_verify ready a.now a.code)) [
  | inl e ↦ (λ g. (ground arith, e), λ (p, q). rw (is_granted, e) (ground arith))
  | inr f ↦ (λ g. absurd (ground arith), λ (p, q). cc)
]

-- Once the codes are initialised, and for a verifier of 32 bytes and one-time codes of six
-- characters, the login succeeds exactly when one of the first three attempts has both factors: a
-- password whose code, under the secret derived for passwords, is the verifier, and the one-time
-- code of the step of the attempt's time or of a neighbour of it.
pub login_iff :
    (verifier : List ℕ) (typed : ℕ → Attempt)
    → length verifier ≡ 32
    → ((k : ℕ) → length (typed k).code ≡ 6)
    → (login_authenticate verifier true typed ≡ e_ok) ↔ (
        (k : ℕ) × (1 ≤ k)
        × (k < 4)
        × IsPassword verifier (typed k).pw
        × IsCode (typed k).now (typed k).code)
unfolding login_authenticate Some IsCode
login_iff verifier typed l six =
    let r = try_login_iff 3 verifier true typed 1 in
    (
      λ e.
          let (k, p, q, g) = r.0 e in
          let (w, c) = (granted_split verifier true (typed k)).0 g in
          (
            k,
            p,
            q,
            (IsPassword-iff verifier (typed k).pw l).0 w,
            (totp_verify_iff (typed k).now (typed k).code (six k)).0 c,
          ),
      λ (k, p, q, w, c). r.1 (
        k,
        p,
        q,
        (granted_split verifier true (typed k)).1 (
          (IsPassword-iff verifier (typed k).pw l).1 w,
          (totp_verify_iff (typed k).now (typed k).code (six k)).1 c,
        ),
      ),
    )
