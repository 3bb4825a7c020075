-- ===== src/Crypto/Hmac/Verify.antt =====
-- What the comparison of codes in vse/hmac.c decides.
use hypervisor_base.Common.{
  ℕ, zero, suc, ◌≡◌, ◌↔◌, refl, sym, ap, ap₂, ◌∙◌, List, [], ◌∷◌, length, get_or, true, ==_iff,
  bit_or, or_zero, xor_zero, xor_self, zero-bit_or, subst, arith,
}
use Prim.Native.Nat.{bit_xor}
use hypervisor_base.Crypto.Hmac.{differences, hmac_verify}

-- the loop from the second byte on
shifted :
    (n : ℕ) (xs ys : List ℕ) (x y i d : ℕ)
    → differences n (x ∷ xs) (y ∷ ys) (suc i) d ≡ differences n xs ys i d
unfolding differences
shifted zero xs ys x y i d = refl
shifted (suc n) xs ys x y i d =
    shifted n xs ys x y (suc i) (bit_or d (bit_xor (get_or xs i 0) (get_or ys i 0)))

none_differs :
    (xs ys : List ℕ) (d : ℕ)
    → length xs ≡ length ys
    → differences (length xs) xs ys 0 d ≡ 0
    → (d ≡ 0) × (xs ≡ ys)
unfolding differences
none_differs [] [] d l e = (e, refl)
none_differs [] (y ∷ ys) d l e = absurd (omega arith)
none_differs (x ∷ xs) [] d l e = absurd (omega arith)
none_differs (x ∷ xs) (y ∷ ys) d l e =
    let (p, q) =
      none_differs xs ys (bit_or d (bit_xor x y)) (omega arith)
        (sym (shifted (length xs) xs ys x y 0 (bit_or d (bit_xor x y))) ∙ e) in
    let (r, s) = or_zero d (bit_xor x y) p in (r, ap₂ (◌∷◌) (xor_zero x y s) q)

no_difference : (n : ℕ) (xs : List ℕ) (i : ℕ) → differences n xs xs i 0 ≡ 0
unfolding differences
no_difference zero xs i = refl
no_difference (suc n) xs i =
    ap (differences n xs xs (suc i))
      (zero-bit_or (bit_xor (get_or xs i 0) (get_or xs i 0)) ∙ xor_self (get_or xs i 0))
    ∙ no_difference n xs (suc i)

-- A code is equal to itself, whatever the number of bytes compared.
pub verify_refl : (xs : List ℕ) (n : ℕ) → hmac_verify xs xs n ≡ true
unfolding hmac_verify
verify_refl xs n = (==_iff (differences n xs xs 0 0) 0).1 (no_difference n xs 0)

-- The comparison of two codes of one length succeeds exactly when all their bytes are the same.
pub verify_iff :
    (xs ys : List ℕ) → length xs ≡ length ys → (hmac_verify xs ys (length xs) ≡ true) ↔ (xs ≡ ys)
unfolding hmac_verify
verify_iff xs ys l = (
  λ e. (none_differs xs ys 0 l ((==_iff (differences (length xs) xs ys 0 0) 0).0 e)).1,
  λ e.
      subst (λ zs. hmac_verify xs zs (length xs) ≡ true) {x = xs} {y = ys} e
        (verify_refl xs (length xs)),
)
