-- ===== src/Crypto/Totp/Window.antt =====
-- Which codes and which logins vse/totp.c and vse/login.c accept.
use hypervisor_base.Common.{
  ℕ, zero, suc, ◌+◌, ◌-◌, ◌/◌, ◌%◌, ◌^◌, ◌≤◌, ◌<◌, ◌≡◌, ◌⊎◌, ◌↔◌, inl, inr, refl, sym, ap, subst,
  ◌∙◌, true, false, ◌==◌, ==_iff, ltb, List, [], ◌∷◌, length, length-append, Option, none, some,
  Option-cases, Bool-cases, e_ok, arith,
}
use hypervisor_base.Crypto.Sha256.{put_be64}
use hypervisor_base.Crypto.Keys.{vse_derive_secret}
use hypervisor_base.Crypto.Hmac.{hmac_verify, hmac_sha256}
use hypervisor_base.Crypto.Hmac.Verify.{verify_iff}
use hypervisor_base.Crypto.Totp.{
  hotp_secret_label, hotp_digits, truncate, render, hotp_compute, accepts, check_steps, totp_verify,
}

length-render : (n code : ℕ) → length (render n code) ≡ n
unfolding render
length-render zero code = refl
length-render (suc n) code = omega (
  arith,
  length-append (render n (code / 10)) ((48 + code % 10) ∷ []),
  length-render n (code / 10),
)

-- some step of a list has the code
AnyIs : List ℕ → List ℕ → Type 0
AnyIs candidate [] = ⊥
AnyIs candidate (s ∷ ss) = (hotp_compute s ≡ some candidate) ⊎ AnyIs candidate ss

mac_length :
    (o : Option (List ℕ)) (f : List ℕ → ℕ) (code : List ℕ)
    → (elim o [ none ↦ none | some mac ↦ some (render 6 (f mac)) ]) ≡ some code
    → length code ≡ 6
mac_length none f code e = cc
mac_length (some mac) f code e =
    let c : render 6 (f mac) ≡ code = cc in sym (ap length c) ∙ length-render 6 (f mac)

secret_length :
    (o : Option (List ℕ)) (g : List ℕ → Option (List ℕ)) (f : List ℕ → ℕ) (code : List ℕ)
    → (elim o [
      | none ↦ none
      | some secret ↦ elim (g secret) [ none ↦ none | some mac ↦ some (render 6 (f mac)) ]
    ])
      ≡ some code
    → length code ≡ 6
secret_length none g f code e = cc
secret_length (some s) g f code e = mac_length (g s) f code e

hotp_length : (t : ℕ) (code : List ℕ) → hotp_compute t ≡ some code → length code ≡ 6
unfolding hotp_compute
hotp_length t code e =
    secret_length (vse_derive_secret hotp_secret_label 20) (λ x. hmac_sha256 x (put_be64 t))
      (λ x. truncate x % 10 ^ hotp_digits) code e

-- a step of the window accepts exactly the code of that step
accepts_iff :
    (candidate : List ℕ) (t : ℕ)
    → length candidate ≡ 6
    → (accepts candidate t ≡ true) ↔ (hotp_compute t ≡ some candidate)
unfolding accepts
accepts_iff candidate t l = elim (Option-cases (hotp_compute t)) [
  | inl n ↦ let a : accepts candidate t ≡ false = rw (accepts, n) refl in (λ e. cc, λ e. cc)
  | inr (code, c) ↦
      let k : length code ≡ 6 = hotp_length t code c in
      let v : (hmac_verify code candidate (length code) ≡ true) ↔ (code ≡ candidate) =
        verify_iff code candidate (k ∙ sym l) in
      let w : (hmac_verify code candidate 6 ≡ true) ↔ (code ≡ candidate) =
        subst (λ n. (hmac_verify code candidate n ≡ true) ↔ (code ≡ candidate)) {x = length code}
          {y = 6} k v in
      let a : accepts candidate t ≡ hmac_verify code candidate 6 = rw (accepts, c) refl in
      (λ e. c ∙ ap some (w.0 (sym a ∙ e)), λ e. let q : code ≡ candidate = cc in a ∙ w.1 q)
]

-- A window of steps accepts exactly the codes of its steps.
check_steps_iff :
    (candidate : List ℕ) (ss : List ℕ)
    → length candidate ≡ 6
    → (check_steps candidate ss ≡ e_ok) ↔ AnyIs candidate ss
unfolding check_steps AnyIs
check_steps_iff candidate [] l = (λ e. cc, λ u. absurd u)
check_steps_iff candidate (s ∷ ss) l = elim (Bool-cases (accepts candidate s)) [
  | inl y ↦ rw y (λ e. inl ((accepts_iff candidate s l).0 y), λ u. refl)
  | inr n ↦ rw n (
    λ e. inr ((check_steps_iff candidate ss l).0 e),
    λ u. elim u [
      | inl h ↦ let y : accepts candidate s ≡ true = (accepts_iff candidate s l).1 h in cc
      | inr h ↦ (check_steps_iff candidate ss l).1 h
    ],
  )
]

-- the steps of the window
around : ℕ → List ℕ
around t = (t - 1) ∷ t ∷ (t + 1) ∷ []

from : ℕ → List ℕ
from t = t ∷ (t + 1) ∷ []

-- a code of a step of the window of a step
Near : List ℕ → ℕ → Type 0
Near candidate now = (t : ℕ) × (now ≤ t + 1) × (t ≤ now + 1) × (hotp_compute t ≡ some candidate)

window-Near : (candidate : List ℕ) (now : ℕ) → AnyIs candidate (from now) → Near candidate now
unfolding AnyIs from Near
window-Near candidate now (inl h) = (now, ground arith, ground arith, h)
window-Near candidate now (inr (inl h)) = (now + 1, ground arith, ground arith, h)
window-Near candidate now (inr (inr h)) = absurd h

any-Near :
    (candidate : List ℕ) (now : ℕ) → 0 < now → AnyIs candidate (around now) → Near candidate now
unfolding AnyIs around from Near
any-Near candidate now k (inl h) = (now - 1, ground arith, ground arith, h)
any-Near candidate now k (inr u) = window-Near candidate now u

near_first :
    (candidate : List ℕ) (now t : ℕ)
    → now ≤ t
    → t ≤ now + 1
    → hotp_compute t ≡ some candidate
    → AnyIs candidate (from now)
unfolding AnyIs from
near_first candidate now t p q h = elim (Bool-cases (t == now)) [
  | inl y ↦
      let e : t ≡ now = (==_iff t now).0 y in
      inl (subst (λ n. hotp_compute n ≡ some candidate) {x = t} {y = now} e h)
  | inr ne ↦
      let e : t ≡ now + 1 = ground arith in
      inr (inl (subst (λ n. hotp_compute n ≡ some candidate) {x = t} {y = now + 1} e h))
]

Near-window :
    (candidate : List ℕ) (now : ℕ) → now ≡ 0 → Near candidate now → AnyIs candidate (from now)
unfolding Near
Near-window candidate now z (t, p, q, h) = near_first candidate now t (omega arith) q h

Near-any :
    (candidate : List ℕ) (now : ℕ) → 0 < now → Near candidate now → AnyIs candidate (around now)
unfolding AnyIs around from Near
Near-any candidate now k (t, p, q, h) = elim (Bool-cases (t + 1 == now)) [
  | inl y ↦
      let f : t ≡ now - 1 = ground arith in
      inl (subst (λ n. hotp_compute n ≡ some candidate) {x = t} {y = now - 1} f h)
  | inr ne ↦ inr (near_first candidate now t (ground arith) q h)
]

-- Once the service is initialised, a candidate of six characters is accepted exactly when it is the
-- code of a step that is the current one, the one before it or the one after it.
pub totp_verify_iff :
    (now : ℕ) (candidate : List ℕ)
    → length candidate ≡ 6
    → (totp_verify true now candidate ≡ e_ok)
      ↔ ((t : ℕ) × (now / 30 ≤ t + 1) × (t ≤ now / 30 + 1) × (hotp_compute t ≡ some candidate))
unfolding totp_verify around from Near
totp_verify_iff now candidate l = elim (Bool-cases (ltb 0 (now / 30))) [
  | inl y ↦
      let c : (check_steps candidate (around (now / 30)) ≡ e_ok)
          ↔ AnyIs candidate (around (now / 30)) =
        check_steps_iff candidate (around (now / 30)) l in
      let k : 0 < now / 30 = ground arith in
      rw y
        (λ e. any-Near candidate (now / 30) k (c.0 e), λ u. c.1 (Near-any candidate (now / 30) k u))
  | inr n ↦
      let c : (check_steps candidate (from (now / 30)) ≡ e_ok) ↔ AnyIs candidate (from (now / 30)) =
        check_steps_iff candidate (from (now / 30)) l in
      let k : now / 30 ≡ 0 = ground arith in
      rw n (
        λ e. window-Near candidate (now / 30) (c.0 e),
        λ u. c.1 (Near-window candidate (now / 30) k u),
      )
]
