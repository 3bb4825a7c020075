-- ===== src/Crypto/Sha256.antt =====
-- vse/hmac.c, the SHA-256 part. Of the buffer of a context only the bytes in use are kept, as a
-- list: `buf_len` is its length.
pub mod Stream
pub mod Digest
use hypervisor_base.Common.{
  ℕ, zero, suc, ◌+◌, ◌-◌, ◌*◌, ◌/◌, ◌%◌, ◌^◌, List, [], ◌∷◌, ◌++◌, length, take, drop, replicate,
  get_or, ◌==◌, ltb, leb, if◌then◌else◌, min, u32, u64, bit_and, bit_or,
}
use Prim.Native.Nat.{bit_xor}

abbrev pub sha256_block : ℕ
sha256_block = 64

abbrev pub round_constants : List ℕ
round_constants =
    0x428a2f98 ∷ 0x71374491 ∷ 0xb5c0fbcf ∷ 0xe9b5dba5 ∷ 0x3956c25b ∷ 0x59f111f1 ∷ 0x923f82a4
    ∷ 0xab1c5ed5 ∷ 0xd807aa98 ∷ 0x12835b01 ∷ 0x243185be ∷ 0x550c7dc3 ∷ 0x72be5d74 ∷ 0x80deb1fe
    ∷ 0x9bdc06a7 ∷ 0xc19bf174 ∷ 0xe49b69c1 ∷ 0xefbe4786 ∷ 0x0fc19dc6 ∷ 0x240ca1cc ∷ 0x2de92c6f
    ∷ 0x4a7484aa ∷ 0x5cb0a9dc ∷ 0x76f988da ∷ 0x983e5152 ∷ 0xa831c66d ∷ 0xb00327c8 ∷ 0xbf597fc7
    ∷ 0xc6e00bf3 ∷ 0xd5a79147 ∷ 0x06ca6351 ∷ 0x14292967 ∷ 0x27b70a85 ∷ 0x2e1b2138 ∷ 0x4d2c6dfc
    ∷ 0x53380d13 ∷ 0x650a7354 ∷ 0x766a0abb ∷ 0x81c2c92e ∷ 0x92722c85 ∷ 0xa2bfe8a1 ∷ 0xa81a664b
    ∷ 0xc24b8b70 ∷ 0xc76c51a3 ∷ 0xd192e819 ∷ 0xd6990624 ∷ 0xf40e3585 ∷ 0x106aa070 ∷ 0x19a4c116
    ∷ 0x1e376c08 ∷ 0x2748774c ∷ 0x34b0bcb5 ∷ 0x391c0cb3 ∷ 0x4ed8aa4a ∷ 0x5b9cca4f ∷ 0x682e6ff3
    ∷ 0x748f82ee ∷ 0x78a5636f ∷ 0x84c87814 ∷ 0x8cc70208 ∷ 0x90befffa ∷ 0xa4506ceb ∷ 0xbef9a3f7
    ∷ 0xc67178f2 ∷ []

-- `H0`
abbrev pub initial_hash : List ℕ
initial_hash =
    0x6a09e667 ∷ 0xbb67ae85 ∷ 0x3c6ef372 ∷ 0xa54ff53a ∷ 0x510e527f ∷ 0x9b05688c ∷ 0x1f83d9ab
    ∷ 0x5be0cd19 ∷ []

-- `~x` on u32
abbrev not32 : ℕ → ℕ
not32 x = 4294967295 - x

pub rotr32 : ℕ → ℕ → ℕ
rotr32 x n = bit_or (x / 2 ^ n) (u32 (x * 2 ^ (32 - n)))

pub ch : ℕ → ℕ → ℕ → ℕ
ch e f g = bit_xor (bit_and e f) (bit_and (not32 e) g)

pub maj : ℕ → ℕ → ℕ → ℕ
maj a b c = bit_xor (bit_xor (bit_and a b) (bit_and a c)) (bit_and b c)

pub ep0 : ℕ → ℕ
unfolding rotr32
ep0 a = bit_xor (bit_xor (rotr32 a 2) (rotr32 a 13)) (rotr32 a 22)

pub ep1 : ℕ → ℕ
unfolding rotr32
ep1 e = bit_xor (bit_xor (rotr32 e 6) (rotr32 e 11)) (rotr32 e 25)

pub sig0 : ℕ → ℕ
unfolding rotr32
sig0 x = bit_xor (bit_xor (rotr32 x 7) (rotr32 x 18)) (x / 8)

pub sig1 : ℕ → ℕ
unfolding rotr32
sig1 x = bit_xor (bit_xor (rotr32 x 17) (rotr32 x 19)) (x / 1024)

-- four bytes, the first the highest; their bits are disjoint
pub be32 : List ℕ → ℕ → ℕ
be32 p i =
    get_or p i 0 * 16777216
    + get_or p (i + 1) 0 * 65536
    + get_or p (i + 2) 0 * 256
    + get_or p (i + 3) 0

pub put_be32 : ℕ → List ℕ
put_be32 v = v / 16777216 % 256 ∷ v / 65536 % 256 ∷ v / 256 % 256 ∷ v % 256 ∷ []

-- the first loop of the schedule: the words left, and the offset of the next
pub load_words : ℕ → List ℕ → ℕ → List ℕ
unfolding be32
load_words zero block i = []
load_words (suc n) block i = be32 block i ∷ load_words n block (i + 4)

-- the second loop, over the words so far: those left, and the number of the next
pub extend : ℕ → List ℕ → ℕ → List ℕ
unfolding sig0 sig1
extend zero w i = w
extend (suc n) w i =
    extend n
      (w
        ++ u32 (
            sig1 (get_or w (i - 2) 0)
            + get_or w (i - 7) 0
            + sig0 (get_or w (i - 15) 0)
            + get_or w (i - 16) 0)
          ∷ [])
      (i + 1)

-- the eight variables of the rounds
pub record Round : Type 0 where
  pub a : ℕ
  pub b : ℕ
  pub c : ℕ
  pub d : ℕ
  pub e : ℕ
  pub f : ℕ
  pub g : ℕ
  pub h : ℕ

-- the rounds, over the constants and the words that are left
pub rounds : List ℕ → List ℕ → Round → Round
unfolding ch maj ep0 ep1
rounds [] ws r = r
rounds (k ∷ ks) [] r = r
rounds (k ∷ ks) (w ∷ ws) r =
    let t1 = u32 (r.h + ep1 r.e + ch r.e r.f r.g + k + w) in
    let t2 = u32 (ep0 r.a + maj r.a r.b r.c) in
    rounds ks ws (record {
      a = u32 (t1 + t2);
      b = r.a;
      c = r.b;
      d = r.c;
      e = u32 (r.d + t1);
      f = r.e;
      g = r.f;
      h = r.g;
    })

pub sha256_compress : List ℕ → List ℕ → List ℕ
unfolding load_words extend rounds
sha256_compress s block =
    let r = rounds round_constants (extend 48 (load_words 16 block 0) 16) (record {
      a = get_or s 0 0;
      b = get_or s 1 0;
      c = get_or s 2 0;
      d = get_or s 3 0;
      e = get_or s 4 0;
      f = get_or s 5 0;
      g = get_or s 6 0;
      h = get_or s 7 0;
    }) in
    u32 (get_or s 0 0 + r.a)
    ∷ u32 (get_or s 1 0 + r.b)
    ∷ u32 (get_or s 2 0 + r.c)
    ∷ u32 (get_or s 3 0 + r.d)
    ∷ u32 (get_or s 4 0 + r.e)
    ∷ u32 (get_or s 5 0 + r.f)
    ∷ u32 (get_or s 6 0 + r.g)
    ∷ u32 (get_or s 7 0 + r.h)
    ∷ []

-- `sha256_ctx_t`
pub record Sha256 : Type 0 where
  pub state : List ℕ
  pub bit_count : ℕ
  pub buf : List ℕ

unfoldable pub sha256_init : Sha256
sha256_init = record { state = initial_hash; bit_count = 0; buf = [] }

-- "Fill partial buffer first": the context and the data that is left
pub fill_partial : Sha256 → List ℕ → Sha256 × List ℕ
fill_partial c msg =
    let space = sha256_block - length c.buf in
    let buf = c.buf ++ take (min (length msg) space) msg in
    if ltb 0 (length c.buf)
    then (
      (if length buf == sha256_block
          then record c { state = sha256_compress c.state buf; buf = [] }
          else record c { buf = buf }),
      drop (min (length msg) space) msg,
    )
    else (c, msg)

-- "Process full blocks directly from input": at most `n` of them
pub full_blocks : ℕ → List ℕ → List ℕ → List ℕ × List ℕ
full_blocks zero state msg = (state, msg)
full_blocks (suc n) state msg =
    let rest =
      full_blocks n (sha256_compress state (take sha256_block msg)) (drop sha256_block msg) in
    if leb sha256_block (length msg) then rest else (state, msg)

-- "Store remaining bytes in buffer"
pub store_tail : Sha256 → List ℕ → Sha256
store_tail c [] = c
store_tail c (x ∷ tail) = record c { buf = x ∷ tail }

pub sha256_update : Sha256 → List ℕ → Sha256
unfolding fill_partial full_blocks store_tail
sha256_update c msg =
    let counted = record c { bit_count = u64 (c.bit_count + u64 (length msg * 8)) } in
    let (filled, rest) = fill_partial counted msg in
    let (state, tail) = full_blocks (length rest) filled.state rest in
    store_tail (record filled { state = state }) tail

-- the bit length in eight bytes
pub put_be64 : ℕ → List ℕ
put_be64 v =
    v / 72057594037927936 % 256
    ∷ v / 281474976710656 % 256
    ∷ v / 1099511627776 % 256
    ∷ v / 4294967296 % 256
    ∷ v / 16777216 % 256
    ∷ v / 65536 % 256
    ∷ v / 256 % 256
    ∷ v % 256
    ∷ []

-- the words of the state as bytes
pub digest_of : List ℕ → List ℕ
unfolding put_be32
digest_of [] = []
digest_of (w ∷ ws) = put_be32 w ++ digest_of ws

pub sha256_final : Sha256 → List ℕ
unfolding put_be64 digest_of
sha256_final c =
    let buf = c.buf ++ 0x80 ∷ [] in
    let len = put_be64 c.bit_count in
    digest_of (
      if ltb 56 (length buf)
      then sha256_compress (sha256_compress c.state (buf ++ replicate (64 - length buf) 0))
          (replicate 56 0 ++ len)
      else sha256_compress c.state (buf ++ replicate (56 - length buf) 0 ++ len))
