-- ===== src/Sched/Scan/Order.antt =====
-- The order in which core/sched/sched.c searches the table of slots.
use hypervisor_base.Common.{
  ℕ, zero, suc, ◌+◌, ◌-◌, ◌%◌, ◌<◌, ◌≤◌, ◌≡◌, ◌≢◌, ◌⊎◌, inl, inr, sym, ◌∙◌, ap, Option, none, some,
  arith, Option-cases, subst,
}
use native.Mathlib.Nat.{mod-add-mod, mod-eq_of_lt, mod-eq-sub-mod, add-mod_right}
use hypervisor_base.Sched.Scan.{scan, scan_around}

-- the slot that is `d` places after `cur`, both below `n`
abbrev pub ahead : ℕ → ℕ → ℕ → ℕ
ahead n cur d = (cur + d) % n

-- What the search found: the slot `d` places ahead, and nothing before it; or nothing at all.
pub data Found (pick : ℕ → Option ℕ) (n cur : ℕ) : Option ℕ × ℕ → Type 0 where
  found :
      (k d : ℕ)
      → 1 ≤ d
      → d ≤ n
      → pick (ahead n cur d) ≡ some k
      → ((j : ℕ) → 1 ≤ j → j < d → pick (ahead n cur j) ≡ none)
      → Found pick n cur (some k, ahead n cur d)
  nothing : ((j : ℕ) → 1 ≤ j → j ≤ n → pick (ahead n cur j) ≡ none) → Found pick n cur (none, cur)

-- Back at the start only after a full round.
around : (n start d : ℕ) → start < n → 1 ≤ d → d ≤ n → ahead n start d ≡ start → d ≡ n
around n start d w l h e = elim (split (start + d) n) [
  | inl k ↦ absurd (omega (arith, mod-eq_of_lt k, e))
  | inr k ↦ omega (arith, mod-eq-sub-mod k, mod-eq_of_lt (under k), e)
]
  where
    split : (a b : ℕ) → (a < b) ⊎ (b ≤ a)
    split a b = omega arith

    under : n ≤ start + d → start + d - n < n
    under k = omega arith

-- A full round leads back to the start.
full_round : (n start : ℕ) → start < n → ahead n start n ≡ start
full_round n start w = add-mod_right start n ∙ mod-eq_of_lt w

module _ (pick : ℕ → Option ℕ) (n start : ℕ) where
  -- one round of the loop, at the slot `c`
  round_found :
      (fuel cur c k : ℕ)
      → (cur + 1) % n ≡ c
      → pick c ≡ some k
      → ◌≡◌ {A = Option ℕ × ℕ} (scan pick n (suc fuel) start cur) (some k, c)
  unfolding scan
  round_found fuel cur c k e f = ground arith

  round_last :
      (fuel cur c : ℕ)
      → (cur + 1) % n ≡ c
      → pick c ≡ none
      → c ≡ start
      → ◌≡◌ {A = Option ℕ × ℕ} (scan pick n (suc fuel) start cur) (none, start)
  unfolding scan
  round_last fuel cur c e f g = ground arith

  round_next :
      (fuel cur c : ℕ)
      → (cur + 1) % n ≡ c
      → pick c ≡ none
      → c ≢ start
      → scan pick n (suc fuel) start cur ≡ scan pick n fuel start c
  unfolding scan
  round_next fuel cur c e f g = ground arith

module _ (pick : ℕ → Option ℕ) (n start : ℕ) (w : start < n) where
  next_slot : (d : ℕ) → (ahead n start d + 1) % n ≡ ahead n start (d + 1)
  next_slot d = mod-add-mod (start + d) n 1 ∙ ap (λ x. x % n) (omega arith)

  one_more :
      (d : ℕ)
      → ((j : ℕ) → 1 ≤ j → j ≤ d → pick (ahead n start j) ≡ none)
      → pick (ahead n start (d + 1)) ≡ none
      → (j : ℕ) → 1 ≤ j
      → j ≤ d + 1
      → pick (ahead n start j) ≡ none
  one_more d h e j l k = elim (last j d k) [ inl k' ↦ h j l k' | inr k' ↦ rw (k') e ]
    where
      last : (j d : ℕ) → j ≤ d + 1 → (j ≤ d) ⊎ (j ≡ d + 1)
      last j d k = omega arith

  Found-here :
      (fuel d k : ℕ)
      → suc fuel + d ≡ n
      → ((j : ℕ) → 1 ≤ j → j ≤ d → pick (ahead n start j) ≡ none)
      → pick (ahead n start (d + 1)) ≡ some k
      → Found pick n start (scan pick n (suc fuel) start (ahead n start d))
  Found-here fuel d k e h f =
      subst (Found pick n start)
        (sym (
          round_found pick n start fuel (ahead n start d) (ahead n start (d + 1)) k (next_slot d)
            f))
        (found k (d + 1) (omega arith) (omega arith) f (λ j l m. h j l (omega arith)))

  -- the loop after `d` rounds that found nothing
  from_round :
      (fuel d : ℕ)
      → suc fuel + d ≡ n
      → ((j : ℕ) → 1 ≤ j → j ≤ d → pick (ahead n start j) ≡ none)
      → Found pick n start (scan pick n (suc fuel) start (ahead n start d))
  from_round zero d e h = elim (Option-cases (pick (ahead n start (d + 1)))) [
    | inr (k, f) ↦ Found-here zero d k e h f
    | inl f ↦
        subst (Found pick n start)
          (sym (
            round_last pick n start zero (ahead n start d) (ahead n start (d + 1)) (next_slot d) f
              (ap (ahead n start) (omega arith) ∙ full_round n start w)))
          (nothing (λ j l m. one_more d h f j l (omega arith)))
  ]
  from_round (suc fuel) d e h = elim (Option-cases (pick (ahead n start (d + 1)))) [
    | inr (k, f) ↦ Found-here (suc fuel) d k e h f
    | inl f ↦
        subst (Found pick n start)
          (sym (
            round_next pick n start (suc fuel) (ahead n start d) (ahead n start (d + 1))
              (next_slot d) f
              (λ g.
                absurd (omega (arith, around n start (d + 1) w (omega arith) (omega arith) g)))))
          (from_round fuel (d + 1) (omega arith) (one_more d h f))
  ]

-- The search of the slots from a slot of the table always ends: it finds the first slot after it in
-- cyclic order that offers a vCPU, its own place last, and it finds nothing only when no slot of the
-- table offers one.
pub round_robin :
    (pick : ℕ → Option ℕ) (n cur : ℕ) → cur < n → Found pick n cur (scan_around pick n cur)
unfolding scan_around
round_robin pick zero cur w = absurd (omega arith)
round_robin pick (suc n) cur w =
    subst (λ c. Found pick (suc n) cur (scan pick (suc n) (suc n) cur c))
      (ap (λ x. x % suc n) (omega arith) ∙ mod-eq_of_lt w)
      (from_round pick (suc n) cur w n 0 (omega arith) (λ j l m. absurd (omega arith)))
