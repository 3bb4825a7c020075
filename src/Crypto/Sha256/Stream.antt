-- ===== src/Crypto/Sha256/Stream.antt =====
-- How vse/hmac.c splits a message over its calls does not matter.
use hypervisor_base.Common.{
  ℕ, zero, suc, ◌+◌, ◌-◌, ◌*◌, ◌≤◌, ◌<◌, ◌≡◌, refl, sym, ap, ap₂, ◌∙◌, subst, List, [], ◌∷◌, ◌++◌,
  length, length-append, length-take, length-drop, take, drop, Bool-cases, inl, inr, true, false,
  ◌==◌, ltb, leb, if◌then◌else◌, if_split, min, u64, arith,
}
use hypervisor_base.Crypto.Sha256.{
  Sha256, sha256_update, sha256_compress, fill_partial, full_blocks, store_tail,
}

-- a state of the hash and the bytes that wait for a block
abbrev pub View : Type 0
View = List ℕ × List ℕ

abbrev pub view : Sha256 → View
view c = (c.state, c.buf)

-- one byte: a block that is full is compressed
pub feed_byte : View → ℕ → View
feed_byte (s, buf) x =
    if length (buf ++ x ∷ []) == 64
    then (sha256_compress s (buf ++ x ∷ []), [])
    else (s, buf ++ x ∷ [])

-- a message byte by byte
pub feed : View → List ℕ → View
unfolding feed_byte
feed v [] = v
feed v (x ∷ xs) = feed (feed_byte v x) xs

feed-append : (v : View) (xs ys : List ℕ) → feed v (xs ++ ys) ≡ feed (feed v xs) ys
unfolding feed
feed-append v [] ys = refl
feed-append v (x ∷ xs) ys = feed-append (feed_byte v x) xs ys

append_assoc : (xs : List ℕ) (y : ℕ) (ys : List ℕ) → (xs ++ y ∷ []) ++ ys ≡ xs ++ y ∷ ys
append_assoc [] y ys = refl
append_assoc (x ∷ xs) y ys = ap (◌∷◌ x) (append_assoc xs y ys)

append-nil : (xs : List ℕ) → xs ++ [] ≡ xs
append-nil [] = refl
append-nil (x ∷ xs) = ap (◌∷◌ x) (append-nil xs)

take-drop : (n : ℕ) (xs : List ℕ) → take n xs ++ drop n xs ≡ xs
take-drop zero xs = refl
take-drop (suc n) [] = refl
take-drop (suc n) (x ∷ xs) = ap (◌∷◌ x) (take-drop n xs)

feed_short : (s buf xs : List ℕ) → length buf + length xs < 64 → feed (s, buf) xs ≡ (s, buf ++ xs)
unfolding feed feed_byte
feed_short s buf [] h = ap (λ b. (s, b)) (sym (append-nil buf))
feed_short s buf (x ∷ xs) h =
    let l = length-append buf (x ∷ []) in
    let e : (length (buf ++ x ∷ []) == 64) ≡ false = ground (arith, l, h) in
    rw (e, feed)
      (feed_short s (buf ++ x ∷ []) xs (omega (arith, l, h))
        ∙ ap (λ b. (s, b)) (append_assoc buf x xs))

feed_block :
    (s buf xs : List ℕ)
    → length buf < 64
    → length buf + length xs ≡ 64
    → feed (s, buf) xs ≡ (sha256_compress s (buf ++ xs), [])
unfolding feed feed_byte
feed_block s buf [] h k = absurd (omega arith)
feed_block s buf (x ∷ []) h k =
    let l = length-append buf (x ∷ []) in
    let e : (length (buf ++ x ∷ []) == 64) ≡ true = ground (arith, l, k) in rw (e, feed) refl
feed_block s buf (x ∷ y ∷ xs) h k =
    let l = length-append buf (x ∷ []) in
    let e : (length (buf ++ x ∷ []) == 64) ≡ false = ground (arith, l, k) in
    rw (e, feed)
      (feed_block s (buf ++ x ∷ []) (y ∷ xs) (omega (arith, l, k)) (omega (arith, l, k))
        ∙ ap (λ b. (sha256_compress s b, [])) (append_assoc buf x (y ∷ xs)))

feed_blocks :
    (n : ℕ) (s xs : List ℕ)
    → length xs ≤ n
    → (feed (s, []) xs ≡ full_blocks n s xs) × (length (full_blocks n s xs).1 < 64)
unfolding full_blocks
feed_blocks zero s [] h = (feed_short s [] [] (omega arith), omega arith)
feed_blocks zero s (x ∷ xs) h = absurd (omega arith)
feed_blocks (suc n) s xs h = elim (Bool-cases (leb 64 (length xs))) [
  | inl e ↦
      let t = length-take 64 xs in
      let d = length-drop 64 xs in
      let full : 64 ≤ length xs = ground (arith, e) in
      let (rest, short) =
        feed_blocks n (sha256_compress s (take 64 xs)) (drop 64 xs) (omega (arith, d, h)) in
      rw (e, full_blocks)
        (
          ap (feed (s, [])) (sym (take-drop 64 xs))
              ∙ feed-append (s, []) (take 64 xs) (drop 64 xs)
              ∙ ap (λ v. feed v (drop 64 xs))
                  (feed_block s [] (take 64 xs) (omega arith) (omega (arith, t)))
              ∙ rest,
          short,
        )
  | inr e ↦
      let few : length xs < 64 = ground (arith, e) in
      rw (e, full_blocks) (feed_short s [] xs (omega arith), few)
]

-- what the last two steps of an update leave
tail_view :
    (c : Sha256) (s xs : List ℕ)
    → c.buf ≡ []
    → view (store_tail (record c { state = s }) xs) ≡ (s, xs)
unfolding store_tail
tail_view c s [] e = ap (λ b. (s, b)) e
tail_view c s (x ∷ xs) e = refl

-- a context without waiting bytes
update_empty :
    (c : Sha256) (xs : List ℕ)
    → c.buf ≡ []
    → view (
        store_tail
          (record c { state = (full_blocks (length xs) c.state xs).0 })
          (full_blocks (length xs) c.state xs).1)
      ≡ feed (view c) xs
update_empty c xs e =
    tail_view c (full_blocks (length xs) c.state xs).0 (full_blocks (length xs) c.state xs).1 e
    ∙ sym ((feed_blocks (length xs) c.state xs (omega arith)).0)
    ∙ ap (λ b. feed (c.state, b) xs) (sym e)

-- bytes that complete the waiting ones to a block, and those that follow
update_full :
    (c : Sha256) (xs ys : List ℕ)
    → length c.buf < 64
    → length c.buf + length xs ≡ 64
    → view (
        store_tail
          (record c {
            buf = [];
            state = (full_blocks (length ys) (sha256_compress c.state (c.buf ++ xs)) ys).0;
          })
          (full_blocks (length ys) (sha256_compress c.state (c.buf ++ xs)) ys).1)
      ≡ feed (view c) (xs ++ ys)
update_full c xs ys h k =
    update_empty (record c { buf = []; state = sha256_compress c.state (c.buf ++ xs) }) ys refl
    ∙ ap (λ v. feed v ys) (sym (feed_block c.state c.buf xs h k))
    ∙ sym (feed-append (view c) xs ys)

empty_of : (xs : List ℕ) → length xs ≡ 0 → xs ≡ []
empty_of [] h = refl
empty_of (x ∷ xs) h = absurd (omega arith)

-- the steps of an update after the partial buffer
finish : Sha256 × List ℕ → Sha256
finish p =
    store_tail (record p.0 { state = (full_blocks (length p.1) p.0.state p.1).0 })
      (full_blocks (length p.1) p.0.state p.1).1

-- bytes that are too few for a block
finish_short :
    (c : Sha256) (xs ys : List ℕ)
    → ys ≡ []
    → length c.buf + length xs < 64
    → view (finish (record c { buf = c.buf ++ xs }, ys)) ≡ feed (view c) (xs ++ ys)
unfolding finish full_blocks store_tail
finish_short c xs ys e h =
    subst (λ zs. view (finish (record c { buf = c.buf ++ xs }, zs)) ≡ feed (view c) (xs ++ zs))
      {x = []} {y = ys} (sym e)
      (sym (feed_short c.state c.buf xs h) ∙ ap (feed (view c)) (sym (append-nil xs)))

fill_bytewise :
    (c : Sha256) (msg : List ℕ)
    → length c.buf < 64
    → view (finish (fill_partial c msg)) ≡ feed (view c) msg
unfolding fill_partial finish
fill_bytewise c msg h =
    let k = min (length msg) (64 - length c.buf) in
    let t = length-take k msg in
    let d = length-drop k msg in
    let l = length-append c.buf (take k msg) in
    elim (Bool-cases (ltb 0 (length c.buf))) [
      | inr e ↦ rw (e, fill_partial) (update_empty c msg (empty_of c.buf (ground (arith, e))))
      | inl e ↦ elim (Bool-cases (length (c.buf ++ take k msg) == 64)) [
        | inl f ↦
            rw (e, f, fill_partial)
              (update_full c (take k msg) (drop k msg) h (ground (arith, f, l))
                ∙ ap (feed (view c)) (take-drop k msg))
        | inr f ↦
            rw (e, f, fill_partial)
              (finish_short c (take k msg) (drop k msg)
                  (empty_of (drop k msg) (ground (arith, f, l, t, d))) (ground (arith, f, l, t))
                ∙ ap (feed (view c)) (take-drop k msg))
      ]
    ]

-- An update by several bytes does what the same bytes do one at a time, on every context with less
-- than a block waiting.
pub update_bytewise :
    (c : Sha256) (msg : List ℕ) → length c.buf < 64 → view (sha256_update c msg) ≡ feed (view c) msg
unfolding sha256_update finish
update_bytewise c msg h =
    fill_bytewise (record c { bit_count = u64 (c.bit_count + u64 (length msg * 8)) }) msg h

feed-waiting : (v : View) (xs : List ℕ) → length v.1 < 64 → length (feed v xs).1 < 64
unfolding feed feed_byte
feed-waiting v [] h = h
feed-waiting v (x ∷ xs) h =
    let l = length-append v.1 (x ∷ []) in
    feed-waiting (feed_byte v x) xs (
      if_split (λ (w : View). length w.1 < 64) (length (v.1 ++ x ∷ []) == 64) (λ _. omega arith)
        λ e. ground (arith, l, e, h))

store_tail_count : (c : Sha256) (xs : List ℕ) → (store_tail c xs).bit_count ≡ c.bit_count
unfolding store_tail
store_tail_count c [] = refl
store_tail_count c (x ∷ xs) = refl

fill_count : (c : Sha256) (msg : List ℕ) → (fill_partial c msg).0.bit_count ≡ c.bit_count
unfolding fill_partial
fill_count c msg =
    if_split (λ (p : Sha256 × List ℕ). p.0.bit_count ≡ c.bit_count) (ltb 0 (length c.buf))
      (λ _. if_split (λ (c' : Sha256). c'.bit_count ≡ c.bit_count) _ (λ _. refl) λ _. refl)
      λ _. refl

update_count :
    (c : Sha256) (msg : List ℕ)
    → (sha256_update c msg).bit_count ≡ u64 (c.bit_count + u64 (length msg * 8))
unfolding sha256_update
update_count c msg =
    store_tail_count _ _
    ∙ fill_count (record c { bit_count = u64 (c.bit_count + u64 (length msg * 8)) }) msg

context : View → ℕ → Sha256
context v n = record { state = v.0; bit_count = n; buf = v.1 }

same_context : (c c' : Sha256) → view c ≡ view c' → c.bit_count ≡ c'.bit_count → c ≡ c'
unfolding context
same_context c c' e f = ap₂ context e f

-- Two updates, one after the other, leave the context that one update with both parts of the
-- message leaves, on every context with less than a block waiting.
pub update-append :
    (c : Sha256) (xs ys : List ℕ)
    → length c.buf < 64
    → sha256_update (sha256_update c xs) ys ≡ sha256_update c (xs ++ ys)
update-append c xs ys h =
    let first = update_bytewise c xs h in
    let short : length (sha256_update c xs).buf < 64 =
      subst (λ (v : View). length v.1 < 64) (sym first) (feed-waiting (view c) xs h) in
    same_context (sha256_update (sha256_update c xs) ys) (sha256_update c (xs ++ ys))
      (update_bytewise (sha256_update c xs) ys short
        ∙ ap (λ v. feed v ys) first
        ∙ sym (feed-append (view c) xs ys)
        ∙ sym (update_bytewise c (xs ++ ys) h))
      (update_count (sha256_update c xs) ys
        ∙ ap (λ n. u64 (n + u64 (length ys * 8))) (update_count c xs)
        ∙ omega (arith, length-append xs ys)
        ∙ sym (update_count c (xs ++ ys)))
