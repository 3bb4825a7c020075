-- ===== src/Memory.antt =====
-- Physical memory, and `memcpy` of lib/str/string.c over it.
-- An address is a number, and a byte is the number that the memory holds there.
use native.Mathlib.Nat.{add-zero}
use hypervisor_base.Common.{
  ℕ, zero, suc, ◌+◌, ◌<◌, ◌≤◌, ◌≡◌, refl, ap, ap₂, ◌⊎◌, List, [], ◌∷◌, arith, ◌==◌, if◌then◌else◌,
  length,
}

abbrev pub Ram : Type 0
Ram = ℕ → ℕ

-- one store of a byte
abbrev pub poke : Ram → ℕ → ℕ → Ram
poke ram a v = λ x. if x == a then v else ram x

-- `while (n--) *dd++ = *ss++;`, both pointers into `ram`
pub memcpy : ℕ → ℕ → ℕ → Ram → Ram
memcpy zero d s ram = ram
memcpy (suc n) d s ram = memcpy n (d + 1) (s + 1) (poke ram d (ram s))

-- `memcpy` into an object outside `ram`: the `n` bytes that it reads
pub load : ℕ → ℕ → Ram → List ℕ
load zero a ram = []
load (suc n) a ram = ram a ∷ load n (a + 1) ram

-- `memcpy` from an object outside `ram`: the bytes that it writes
pub store : List ℕ → ℕ → Ram → Ram
store [] a ram = ram
store (v ∷ vs) a ram = store vs (a + 1) (poke ram a v)

pub length-load : (n a : ℕ) (ram : Ram) → length (load n a ram) ≡ n
unfolding load
length-load zero a ram = refl
length-load (suc n) a ram = ap suc (length-load n (a + 1) ram)

-- A store touches no byte outside its range.
pub store_outside :
    (vs : List ℕ) (a : ℕ) (ram : Ram) (x : ℕ)
    → (x < a) ⊎ (a + length vs ≤ x)
    → store vs a ram x ≡ ram x
unfolding store
store_outside [] a ram x h = refl
store_outside (v ∷ vs) a ram x h = ground (arith, store_outside vs (a + 1) (poke ram a v) x)

-- What was stored is loaded.
pub load-store : (vs : List ℕ) (a : ℕ) (ram : Ram) → load (length vs) a (store vs a ram) ≡ vs
unfolding load store
load-store [] a ram = refl
load-store (v ∷ vs) a ram =
    ap₂ ◌∷◌ (ground (arith, store_outside vs (a + 1) (poke ram a v) a))
      (load-store vs (a + 1) (poke ram a v))

pub memcpy_outside :
    (n d s : ℕ) (ram : Ram) (x : ℕ) → (x < d) ⊎ (d + n ≤ x) → memcpy n d s ram x ≡ ram x
unfolding memcpy
memcpy_outside zero d s ram x h = refl
memcpy_outside (suc n) d s ram x h =
    ground (arith, memcpy_outside n (d + 1) (s + 1) (poke ram d (ram s)) x)

-- Between ranges that do not overlap, `memcpy` copies each byte.
pub memcpy_inside :
    (n d s : ℕ) (ram : Ram) (i : ℕ)
    → i < n
    → (d + n ≤ s) ⊎ (s + n ≤ d)
    → memcpy n d s ram (d + i) ≡ ram (s + i)
unfolding memcpy
memcpy_inside zero d s ram i h apart = elim h [ ]
memcpy_inside (suc n) d s ram zero h apart =
    ground
      (arith, memcpy_outside n (d + 1) (s + 1) (poke ram d (ram s)) (d + 0), ap ram (add-zero s))
memcpy_inside (suc n) d s ram (suc i) h apart =
    let shift : ((k : ℕ) → k + 1 + i ≡ k + suc i) = λ k. omega arith in
    ground (
      arith,
      memcpy_inside n (d + 1) (s + 1) (poke ram d (ram s)) i,
      ap (memcpy n (d + 1) (s + 1) (poke ram d (ram s))) (shift d),
      ap ram (shift s),
    )
