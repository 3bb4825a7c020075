-- ===== src/Crypto/Totp.antt =====
-- vse/hotp.c, vse/totp.c and vse/login.c: one-time codes and the operator's login. The seconds of
-- lib/rtc are an argument; what the operator types is a function of the number of the attempt.
pub mod Window
pub mod Login
use hypervisor_base.Common.{
  ℕ, zero, suc, ◌+◌, ◌-◌, ◌*◌, ◌/◌, ◌%◌, ◌^◌, Bool, true, false, ◌&&◌, List, [], ◌∷◌, ◌++◌, Option,
  none, some, ◌==◌, ltb, if◌then◌else◌, get_or, length, u64, Err, e_ok, e_inval, e_denied, failed,
}
use hypervisor_base.Crypto.Sha256.{put_be64}
use hypervisor_base.Crypto.Hmac.{hmac_sha256, hmac_verify}
use hypervisor_base.Crypto.Keys.{vse_derive_secret}

abbrev pub hotp_digits : ℕ
hotp_digits = 6

abbrev pub totp_step_s : ℕ
totp_step_s = 30

-- `HOTP_SECRET_LABEL`
abbrev pub hotp_secret_label : List ℕ
hotp_secret_label =
    118 ∷ 115 ∷ 101 ∷ 45 ∷ 104 ∷ 111 ∷ 116 ∷ 112 ∷ 45 ∷ 115 ∷ 101 ∷ 99 ∷ 114 ∷ 101 ∷ 116 ∷ 45 ∷ 118
    ∷ 49 ∷ []

-- "RFC 4226 dynamic truncation"; the fields are disjoint
pub truncate : List ℕ → ℕ
truncate mac =
    let off = get_or mac 31 0 % 16 in
    get_or mac off 0 % 128 * 16777216
    + get_or mac (off + 1) 0 % 256 * 65536
    + get_or mac (off + 2) 0 % 256 * 256
    + get_or mac (off + 3) 0 % 256

-- the loop that writes the digits, from the last on
pub render : ℕ → ℕ → List ℕ
render zero code = []
render (suc n) code = render n (code / 10) ++ (48 + code % 10) ∷ []

-- the code without its final NUL; `none` is an error. The secret is derived at each use, where the
-- code keeps it after the first.
pub hotp_compute : ℕ → Option (List ℕ)
unfolding truncate render
hotp_compute counter = elim (vse_derive_secret hotp_secret_label 20) [
  | none ↦ none
  | some secret ↦ elim (hmac_sha256 secret (put_be64 counter)) [
    | none ↦ none
    | some mac ↦ some (render hotp_digits (truncate mac % 10 ^ hotp_digits))
  ]
]

-- one step of the loop of `totp_verify`
pub accepts : List ℕ → ℕ → Bool
accepts candidate step = elim (hotp_compute step) [
  | none ↦ false
  | some expect ↦ hmac_verify expect candidate hotp_digits
]

-- the loop over the steps
pub check_steps : List ℕ → List ℕ → Err
unfolding accepts
check_steps candidate [] = e_denied
check_steps candidate (s ∷ ss) =
    let rest = check_steps candidate ss in if accepts candidate s then e_ok else rest

pub totp_verify : Bool → ℕ → List ℕ → Err
unfolding check_steps
totp_verify initialized now candidate =
    let t = now / totp_step_s in
    if initialized
    then check_steps candidate (if ltb 0 t then (t - 1) ∷ t ∷ (t + 1) ∷ [] else t ∷ (t + 1) ∷ [])
    else e_denied

-- `LOGIN_PEPPER_LABEL`
abbrev pub login_pepper_label : List ℕ
login_pepper_label =
    118 ∷ 115 ∷ 101 ∷ 45 ∷ 108 ∷ 111 ∷ 103 ∷ 105 ∷ 110 ∷ 45 ∷ 112 ∷ 101 ∷ 112 ∷ 112 ∷ 101 ∷ 114 ∷ 45
    ∷ 118 ∷ 49 ∷ []

-- `_check_password`, for the verifier that the deployment provides
pub check_password : List ℕ → List ℕ → Bool
check_password verifier pw = elim (vse_derive_secret login_pepper_label 32) [
  | none ↦ false
  | some pepper ↦ elim (hmac_sha256 pepper pw) [
    | none ↦ false
    | some mac ↦ hmac_verify verifier mac 32
  ]
]

-- what the operator types at an attempt, and the time at its end
pub record Attempt : Type 0 where
  pub pw : List ℕ
  pub code : List ℕ
  pub now : ℕ

abbrev pub login_max_tries : ℕ
login_max_tries = 3

-- both factors of an attempt
pub is_granted : List ℕ → Bool → Attempt → Bool
unfolding check_password totp_verify
is_granted verifier initialized a =
    check_password verifier a.pw
    && (if failed (totp_verify initialized a.now a.code) then false else true)

-- the attempts that are left, and the number of the next
pub try_login : ℕ → List ℕ → Bool → (ℕ → Attempt) → ℕ → Err
unfolding is_granted
try_login zero verifier initialized typed i = e_denied
try_login (suc n) verifier initialized typed i =
    let rest = try_login n verifier initialized typed (i + 1) in
    if is_granted verifier initialized (typed i) then e_ok else rest

pub login_authenticate : List ℕ → Bool → (ℕ → Attempt) → Err
unfolding try_login
login_authenticate verifier initialized typed =
    try_login login_max_tries verifier initialized typed 1
