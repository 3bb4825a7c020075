-- ===== src/Crypto/Measure/Genuine.antt =====
-- Which images guest_measure_vm of vse/guest_measure.c takes for genuine.
use hypervisor_base.Common.{
  ℕ, zero, suc, ◌+◌, ◌-◌, ◌≤◌, ◌≡◌, ◌↔◌, refl, sym, ap, subst, ◌∙◌, true, List, [], ◌∷◌, ◌++◌, some,
  Option-cases, Bool-cases, inl, inr, ltb, if◌then◌else◌, length, arith,
}
use mathlib.Core.List.{append-nil, append_assoc}
use hypervisor_base.Vse.Trust.{matches, mismatch, learn, skip}
use hypervisor_base.Crypto.Sha256.{sha256_init, sha256_update, sha256_final}
use hypervisor_base.Crypto.Sha256.Digest.{length-final, init-nothing, init-waiting}
use hypervisor_base.Crypto.Sha256.Stream.{update-append}
use hypervisor_base.Crypto.Hmac.{hmac_verify}
use hypervisor_base.Crypto.Hmac.Verify.{verify_iff}
use hypervisor_base.Crypto.Measure.{
  GuestDesc, guests, same_string, find_guest, gmeas_chunk, image, hash_chunks, hash_region,
  measure_guest, guest_measure_vm,
}

-- the digest of a whole image
pub digest : List ℕ → List ℕ
digest bytes = sha256_final (sha256_update sha256_init bytes)

image-append :
    (mem : ℕ → ℕ) (pa a b : ℕ) → image mem pa (a + b) ≡ image mem pa a ++ image mem (pa + a) b
unfolding image
image-append mem pa zero b =
    ap (image mem pa) {x = 0 + b} {y = b} (omega arith)
    ∙ ap (λ p. image mem p b) {x = pa} {y = pa + 0} (omega arith)
image-append mem pa (suc a) b =
    ap (image mem pa) {x = suc a + b} {y = suc (a + b)} (omega arith)
    ∙ ap (◌∷◌ (mem pa)) (
        image-append mem (pa + 1) a b
        ∙ ap (λ p. image mem (pa + 1) a ++ image mem p b) {x = pa + 1 + a} {y = pa + suc a}
            (omega arith))

-- the bytes of the next chunk
abbrev taken : ℕ → ℕ → ℕ
taken len done = if ltb (len - done) gmeas_chunk then len - done else gmeas_chunk

-- What is left is the next chunk and the rest.
split_image :
    (mem : ℕ → ℕ) (pa len done n : ℕ)
    → n ≤ len - done
    → image mem (pa + done) (len - done)
      ≡ image mem (pa + done) n ++ image mem (pa + (done + n)) (len - (done + n))
split_image mem pa len done n h =
    ap (image mem (pa + done)) {x = len - done} {y = n + (len - (done + n))} (omega arith)
    ∙ image-append mem (pa + done) n (len - (done + n))
    ∙ ap (λ p. image mem (pa + done) n ++ image mem p (len - (done + n))) {x = pa + done + n}
        {y = pa + (done + n)} (omega arith)

nothing_left :
    (mem : ℕ → ℕ) (pa len done : ℕ) (xs : List ℕ)
    → len ≤ done
    → xs ≡ xs ++ image mem (pa + done) (len - done)
unfolding image
nothing_left mem pa len done xs h =
    sym (append-nil xs)
    ∙ ap (λ n. xs ++ image mem (pa + done) n) {x = 0} {y = len - done} (omega arith)

-- The chunks that are left, after the bytes hashed so far.
chunks-append :
    (fuel : ℕ) (mem : ℕ → ℕ) (pa len done : ℕ) (xs : List ℕ)
    → len - done ≤ fuel
    → hash_chunks fuel mem pa len done (sha256_update sha256_init xs)
      ≡ sha256_update sha256_init (xs ++ image mem (pa + done) (len - done))
unfolding hash_chunks
chunks-append zero mem pa len done xs f =
    ap (sha256_update sha256_init) (nothing_left mem pa len done xs (omega arith))
chunks-append (suc fuel) mem pa len done xs f = elim (Bool-cases (ltb done len)) [
  | inr n ↦ rw n (ap (sha256_update sha256_init) (nothing_left mem pa len done xs (ground arith)))
  | inl y ↦
      let n = taken len done in
      let h : taken len done ≤ len - done = ground arith in
      let ys = image mem (pa + done) (taken len done) in
      rw y (
        ap (hash_chunks fuel mem pa len (done + n))
          (update-append sha256_init xs ys (omega (arith, init-waiting)))
        ∙ chunks-append fuel mem pa len (done + n) (xs ++ ys) (ground arith)
        ∙ ap (sha256_update sha256_init) (
            append_assoc xs ys (image mem (pa + (done + n)) (len - (done + n)))
            ∙ ap (λ zs. xs ++ zs) (sym (split_image mem pa len done n h))))
]

-- Hashing a region in chunks is hashing it at once.
pub region-digest : (mem : ℕ → ℕ) (pa len : ℕ) → hash_region mem pa len ≡ digest (image mem pa len)
unfolding hash_region digest
region-digest mem pa len = ap sha256_final (
    ap (hash_chunks len mem pa len 0) (sym init-nothing)
    ∙ chunks-append len mem pa len 0 [] (omega arith)
    ∙ ap (sha256_update sha256_init) (
        ap (image mem (pa + 0)) {x = len - 0} {y = len} (omega arith)
        ∙ ap (λ p. image mem p len) {x = pa + 0} {y = pa} (omega arith)))

-- the goldens have the length of a digest
AreDigests : List GuestDesc → Type 0
AreDigests [] = Unit
AreDigests (g ∷ gs) = (length g.golden ≡ 32) × AreDigests gs

find_guest-golden :
    (name : List ℕ) (gs : List GuestDesc) (g : GuestDesc)
    → AreDigests gs
    → find_guest name gs ≡ some g
    → length g.golden ≡ 32
unfolding find_guest AreDigests
find_guest-golden name [] g h e = cc
find_guest-golden name (d ∷ gs) g (l, h) e = elim (Bool-cases (same_string d.name name)) [
  | inl y ↦
      let r : find_guest name (d ∷ gs) ≡ some d = rw (find_guest, y) refl in
      let q : d ≡ g = cc in subst (λ x. length x.golden ≡ 32) {x = d} {y = g} q l
  | inr n ↦
      let r : find_guest name (d ∷ gs) ≡ find_guest name gs = rw (find_guest, n) refl in
      find_guest-golden name gs g h (sym r ∙ e)
]

-- The code of a row, once its golden has the length of a digest.
measure_guest_iff :
    (mem : ℕ → ℕ) (g : GuestDesc)
    → length g.golden ≡ 32
    → (measure_guest mem g ≡ matches)
      ↔ ((g.provisioned ≡ true) × (g.golden ≡ digest (image mem g.load_pa g.image_size)))
unfolding measure_guest digest
measure_guest_iff mem g l =
    let whole = image mem g.load_pa g.image_size in
    let r : hash_region mem g.load_pa g.image_size ≡ digest whole =
      region-digest mem g.load_pa g.image_size in
    let v : (hmac_verify g.golden (digest whole) 32 ≡ true) ↔ (g.golden ≡ digest whole) =
      subst (λ n. (hmac_verify g.golden (digest whole) n ≡ true) ↔ (g.golden ≡ digest whole))
        {x = length g.golden} {y = 32} l
        (verify_iff g.golden (digest whole)
          (l ∙ sym (length-final (sha256_update sha256_init whole)))) in
    elim (Bool-cases g.provisioned) [
      | inr f ↦
          let a : measure_guest mem g ≡ learn = rw (measure_guest, f) refl in
          (λ e. cc, λ (p, q). cc)
      | inl p ↦ elim (Bool-cases (hmac_verify g.golden (digest whole) 32)) [
        | inl y ↦
            let a : measure_guest mem g ≡ matches = rw (measure_guest, p, r, y) refl in
            (λ e. (p, v.0 y), λ u. a)
        | inr n ↦
            let a : measure_guest mem g ≡ mismatch = rw (measure_guest, p, r, n) refl in
            (λ e. cc, λ (k, q). let t : hmac_verify g.golden (digest whole) 32 ≡ true = v.1 q in cc)
      ]
    ]

guests-AreDigests : AreDigests guests
unfolding AreDigests guests
guests-AreDigests = (refl, (refl, (refl, tt)))

-- A guest is taken for genuine exactly when its name has a provisioned row, and the golden of that row
-- is the SHA-256 of the bytes of the image that the row describes.
pub genuine_iff :
    (mem : ℕ → ℕ) (name : List ℕ)
    → (guest_measure_vm mem name ≡ matches) ↔ (
        (g : GuestDesc) × (find_guest name guests ≡ some g)
        × (g.provisioned ≡ true)
        × (g.golden ≡ digest (image mem g.load_pa g.image_size)))
unfolding guest_measure_vm
genuine_iff mem name = elim (Option-cases (find_guest name guests)) [
  | inl n ↦
      let a : guest_measure_vm mem name ≡ skip = rw (guest_measure_vm, n) refl in
      (λ e. cc, λ (g, f, p, q). cc)
  | inr (g, f) ↦
      let a : guest_measure_vm mem name ≡ measure_guest mem g = rw (guest_measure_vm, f) refl in
      let m = measure_guest_iff mem g (find_guest-golden name guests g guests-AreDigests f) in
      (
        λ e. let (p, q) = m.0 (sym a ∙ e) in (g, f, p, q),
        λ (k, f', p, q).
            let s : k ≡ g = cc in
            a
            ∙ m.1 (
                subst
                  (λ x.
                    (x.provisioned ≡ true) × (x.golden ≡ digest (image mem x.load_pa x.image_size)))
                  {x = k} {y = g} s (p, q)),
      )
]
