-- ===== src/Crypto/Measure.antt =====
-- vse/guest_measure.c, outside learn mode: the genuineness of a guest's image. The memory is a
-- function from addresses to bytes; names are strings without their NUL. Logging is left out.
pub mod Genuine
use hypervisor_base.Common.{
  ℕ, zero, suc, ◌+◌, ◌-◌, Bool, true, false, List, [], ◌∷◌, Option, none, some, ◌==◌, ltb,
  if◌then◌else◌, length,
}
use hypervisor_base.Vse.Trust.{Measured, matches, mismatch, learn, skip}
use hypervisor_base.Crypto.Sha256.{Sha256, sha256_init, sha256_update, sha256_final}
use hypervisor_base.Crypto.Hmac.{hmac_verify}

-- `guest_desc_t`
pub record GuestDesc : Type 0 where
  pub name : List ℕ
  pub load_pa : ℕ
  pub image_size : ℕ
  pub provisioned : Bool
  pub golden : List ℕ

-- the row of linux
abbrev linux_desc : GuestDesc
linux_desc = record {
  name = 108 ∷ 105 ∷ 110 ∷ 117 ∷ 120 ∷ [];
  load_pa = 0x41200000;
  image_size = 41656832;
  provisioned = true;
  golden =
      0x27 ∷ 0x40 ∷ 0x7c ∷ 0xef ∷ 0xc6 ∷ 0x0c ∷ 0xe5 ∷ 0x6c ∷ 0xe1 ∷ 0x0b ∷ 0xaf ∷ 0xbb ∷ 0xa4
      ∷ 0x0b ∷ 0x84 ∷ 0x3e ∷ 0x69 ∷ 0x35 ∷ 0xe5 ∷ 0x0e ∷ 0x5d ∷ 0x1d ∷ 0xf1 ∷ 0x2e ∷ 0x57 ∷ 0x58
      ∷ 0xe1 ∷ 0xbc ∷ 0x5f ∷ 0xff ∷ 0xf0 ∷ 0x19 ∷ [];
}

-- the row of rtos
abbrev rtos_desc : GuestDesc
rtos_desc = record {
  name = 114 ∷ 116 ∷ 111 ∷ 115 ∷ [];
  load_pa = 0x60008000;
  image_size = 5176;
  provisioned = true;
  golden =
      0x16 ∷ 0x75 ∷ 0x0c ∷ 0x2d ∷ 0x7a ∷ 0xf2 ∷ 0xfe ∷ 0x7c ∷ 0x20 ∷ 0x46 ∷ 0x53 ∷ 0xe2 ∷ 0xa4
      ∷ 0xc3 ∷ 0x8d ∷ 0xd5 ∷ 0x19 ∷ 0x00 ∷ 0x00 ∷ 0xd5 ∷ 0x5d ∷ 0x8d ∷ 0x27 ∷ 0x4b ∷ 0x4d ∷ 0xa0
      ∷ 0x51 ∷ 0x04 ∷ 0x3f ∷ 0x61 ∷ 0x9b ∷ 0x4a ∷ [];
}

-- the row of android
abbrev android_desc : GuestDesc
android_desc = record {
  name = 97 ∷ 110 ∷ 100 ∷ 114 ∷ 111 ∷ 105 ∷ 100 ∷ [];
  load_pa = 0x70200000;
  image_size = 2376;
  provisioned = true;
  golden =
      0x22 ∷ 0x04 ∷ 0x0f ∷ 0x7f ∷ 0xe2 ∷ 0x40 ∷ 0x41 ∷ 0x5c ∷ 0x51 ∷ 0x92 ∷ 0xcb ∷ 0x78 ∷ 0xe3
      ∷ 0x79 ∷ 0x5d ∷ 0x5c ∷ 0x06 ∷ 0x89 ∷ 0x5c ∷ 0x3a ∷ 0x1d ∷ 0xd8 ∷ 0x93 ∷ 0xf0 ∷ 0x23 ∷ 0xbf
      ∷ 0x5d ∷ 0x64 ∷ 0xdc ∷ 0x9a ∷ 0xd0 ∷ 0x3c ∷ [];
}

-- `_guests`
pub guests : List GuestDesc
guests = linux_desc ∷ rtos_desc ∷ android_desc ∷ []

abbrev pub gmeas_chunk : ℕ
gmeas_chunk = 4096

-- `strcmp` of lib/str, when it answers 0
pub same_string : List ℕ → List ℕ → Bool
same_string [] [] = true
same_string [] (y ∷ ys) = false
same_string (x ∷ xs) [] = false
same_string (x ∷ xs) (y ∷ ys) = let rest = same_string xs ys in if x == y then rest else false

-- `_find`
pub find_guest : List ℕ → List GuestDesc → Option GuestDesc
unfolding same_string
find_guest name [] = none
find_guest name (g ∷ gs) =
    let rest = find_guest name gs in if same_string g.name name then some g else rest

-- the bytes of a range
pub image : (ℕ → ℕ) → ℕ → ℕ → List ℕ
image mem pa zero = []
image mem pa (suc n) = mem pa ∷ image mem (pa + 1) n

-- the loop of `_hash_region`; every round moves on by a byte at least
pub hash_chunks : ℕ → (ℕ → ℕ) → ℕ → ℕ → ℕ → Sha256 → Sha256
unfolding image
hash_chunks zero mem pa len done c = c
hash_chunks (suc fuel) mem pa len done c =
    let n = if ltb (len - done) gmeas_chunk then len - done else gmeas_chunk in
    let rest = hash_chunks fuel mem pa len (done + n) (sha256_update c (image mem (pa + done) n)) in
    if ltb done len then rest else c

pub hash_region : (ℕ → ℕ) → ℕ → ℕ → List ℕ
unfolding hash_chunks
hash_region mem pa len = sha256_final (hash_chunks len mem pa len 0 sha256_init)

-- the part of `guest_measure_vm` after the search
pub measure_guest : (ℕ → ℕ) → GuestDesc → Measured
unfolding hash_region
measure_guest mem g =
    let measured = hash_region mem g.load_pa g.image_size in
    if g.provisioned then if hmac_verify g.golden measured 32 then matches else mismatch else learn

pub guest_measure_vm : (ℕ → ℕ) → List ℕ → Measured
unfolding guests find_guest measure_guest
guest_measure_vm mem name = elim (find_guest name guests) [
  | none ↦ skip
  | some g ↦ measure_guest mem g
]
