-- ===== src/Portfolio/Words.antt =====
-- The little-endian readers `u` and `i` against the encoding that the program writes
-- (`to_le_bytes` of u128 and i128).
use anqa_core.Common.{
  ℕ, zero, suc, ◌+◌, ◌-◌, ◌*◌, ◌/◌, ◌%◌, ◌^◌, ◌≤◌, ◌<◌, ◌≡◌, refl, sym, ap, ◌∙◌, List, [], ◌∷◌,
  ◌++◌, length, arith,
}
use anqa_core.Common.Int.{ℤ, pos, negsuc, pos_part, neg_part}
use mathlib.Core.Path.{ap₂}
use native.Mathlib.Nat.{add-zero, zero-add, suc-add, pow-suc}
use anqa_core.Portfolio.{Bytes, byte, u_from, u, signed, i, to_bytes}

-- What `v.to_le_bytes()` writes, at any width.
unfoldable pub le_bytes : ℕ → ℕ → Bytes
le_bytes zero v = []
le_bytes (suc n) v = (v % 256) ∷ le_bytes n (v / 256)

-- The two's complement pattern of a signed value.
unfoldable pub pattern_of : ℕ → ℤ → ℕ
pattern_of len (pos v) = v
pattern_of len (negsuc v) = 2 ^ (len * 8) - suc v

pub u_from-low :
    (b : Bytes) (o n v : ℕ) → u_from b o (suc n) v ≡ byte b o + 256 * u_from b (suc o) n v
unfolding u_from
u_from-low b o zero v = omega (arith, ap (byte b) (add-zero o))
u_from-low b o (suc n) v =
    u_from-low b o n (v * 256 + byte b (o + suc n))
    ∙ ap (λ j. byte b o + 256 * u_from b (suc o) n (v * 256 + byte b j)) (omega arith)

u_from-cons : (x : ℕ) (b : Bytes) (o n v : ℕ) → u_from (x ∷ b) (suc o) n v ≡ u_from b o n v
unfolding u_from
u_from-cons x b o zero v = refl
u_from-cons x b o (suc n) v =
    ap (λ j. u_from (x ∷ b) (suc o) n (v * 256 + byte (x ∷ b) j)) (suc-add o n)
    ∙ u_from-cons x b o n (v * 256 + byte b (o + n))

u_from-skip : (pre b : Bytes) (o n v : ℕ) → u_from (pre ++ b) (length pre + o) n v ≡ u_from b o n v
u_from-skip [] b o n v = rw zero-add refl
u_from-skip (x ∷ pre) b o n v =
    rw suc-add (u_from-cons x (pre ++ b) (length pre + o) n v ∙ u_from-skip pre b o n v)

u_from-le_bytes : (n v : ℕ) (post : Bytes) → v < 256 ^ n → u_from (le_bytes n v ++ post) 0 n 0 ≡ v
unfolding le_bytes
u_from-le_bytes zero v post h = unfold u_from in omega arith
u_from-le_bytes (suc n) v post h =
    let rest = le_bytes n (v / 256) ++ post in
    let p : 256 ^ suc n ≡ 256 ^ n * 256 = pow-suc 256 n in
    omega (
      arith,
      u_from-low ((v % 256) ∷ rest) 0 n 0,
      u_from-cons (v % 256) rest 0 n 0,
      u_from-le_bytes n (v / 256) post (omega arith),
    )

-- Reading `n` bytes where the program has written `v` in `n` bytes gives `v`, wherever the field
-- stands and whatever surrounds it, if `v` fits the width.
pub u-le_bytes :
    (pre post : Bytes) (n v : ℕ)
    → v < 256 ^ n
    → u (pre ++ (le_bytes n v ++ post)) (length pre) n ≡ v
unfolding u
u-le_bytes pre post n v h =
    ap (λ o. u_from (pre ++ (le_bytes n v ++ post)) o n 0) (sym (add-zero (length pre)))
    ∙ u_from-skip pre (le_bytes n v ++ post) 0 n 0
    ∙ u_from-le_bytes n v post h

abbrev pub IsBytes : Bytes → Type 0
IsBytes [] = Unit
IsBytes (x ∷ b) = (x < 256) × IsBytes b

pub byte-lt : (b : Bytes) (j : ℕ) → IsBytes b → byte b j < 256
byte-lt [] j h = omega arith
byte-lt (x ∷ b) zero h = h.0
byte-lt (x ∷ b) (suc j) h = byte-lt b j h.1

pub to_bytes-IsBytes : (b : List ℕ) → IsBytes (to_bytes b)
to_bytes-IsBytes [] = tt
to_bytes-IsBytes (x ∷ b) = (omega arith, to_bytes-IsBytes b)

pub u_from-lt : (b : Bytes) (o n : ℕ) → IsBytes b → u_from b o n 0 < 256 ^ n
u_from-lt b o zero h = unfold u_from in omega arith
u_from-lt b o (suc n) h =
    let p : 256 ^ suc n ≡ 256 ^ n * 256 = pow-suc 256 n in
    omega (arith, u_from-low b o n 0, byte-lt b o h, u_from-lt b (suc o) n h)

-- The range of a signed 128-bit integer.
abbrev pub FitsI128 : ℤ → Type 0
FitsI128 z = (pos_part z < 2 ^ 127) × (neg_part z ≤ 2 ^ 127)

signed-pattern_of : (z : ℤ) → FitsI128 z → signed 16 (pattern_of 16 z) ≡ z
unfolding signed pattern_of
signed-pattern_of (pos v) h = ground arith
signed-pattern_of (negsuc v) h = ground arith

pattern_of-lt : (z : ℤ) → FitsI128 z → pattern_of 16 z < 256 ^ 16
unfolding pattern_of
pattern_of-lt (pos v) h = omega arith
pattern_of-lt (negsuc v) h = omega arith

-- Reading a 128-bit two's complement field where the program has written the signed value `z` gives
-- `z` back, for every `z` in the range of an i128.
pub i-le_bytes :
    (pre post : Bytes) (z : ℤ)
    → FitsI128 z
    → i (pre ++ (le_bytes 16 (pattern_of 16 z) ++ post)) (length pre) 16 ≡ z
unfolding i
i-le_bytes pre post z h =
    ap (signed 16) (u-le_bytes pre post 16 (pattern_of 16 z) (pattern_of-lt z h))
    ∙ signed-pattern_of z h

signed-FitsI128 : (v : ℕ) → v < 2 ^ 128 → FitsI128 (signed 16 v)
unfolding signed
signed-FitsI128 v h = ground arith

-- On an array of bytes an unsigned read is below 256 to the power of its width, and a signed 16-byte
-- read is in the range of an i128, at every offset, past the end included.
pub reads_in_range : (b : Bytes) (o n : ℕ) → IsBytes b → (u b o n < 256 ^ n) × FitsI128 (i b o 16)
unfolding u i
reads_in_range b o n h = (u_from-lt b o n h, signed-FitsI128 _ (u_from-lt b o 16 h))

pub length-le_bytes : (n v : ℕ) → length (le_bytes n v) ≡ n
unfolding le_bytes
length-le_bytes zero v = refl
length-le_bytes (suc n) v = ap suc (length-le_bytes n (v / 256))

-- The same, for a field that stands at the offset `o`.
pub u_at :
    {b : Bytes} {o : ℕ} (pre post : Bytes) (n v : ℕ)
    → b ≡ pre ++ (le_bytes n v ++ post)
    → o ≡ length pre
    → v < 256 ^ n
    → u b o n ≡ v
u_at pre post n v p q h = rw (p, q) (u-le_bytes pre post n v h)

pub i_at :
    {b : Bytes} {o : ℕ} (pre post : Bytes) (z : ℤ)
    → b ≡ pre ++ (le_bytes 16 (pattern_of 16 z) ++ post)
    → o ≡ length pre
    → FitsI128 z
    → i b o 16 ≡ z
i_at pre post z p q h = rw (p, q) (i-le_bytes pre post z h)

byte-skip : (pre post : Bytes) (x : ℕ) → byte (pre ++ (x ∷ post)) (length pre) ≡ x
byte-skip [] post x = refl
byte-skip (y ∷ pre) post x = byte-skip pre post x

pub byte_at :
    {b : Bytes} {o : ℕ} (pre post : Bytes) (x : ℕ)
    → b ≡ pre ++ (x ∷ post)
    → o ≡ length pre
    → byte b o ≡ x
byte_at pre post x p q = rw (p, q) (byte-skip pre post x)

pub to_bytes_of_IsBytes : (b : Bytes) → IsBytes b → to_bytes b ≡ b
to_bytes_of_IsBytes [] h = refl
to_bytes_of_IsBytes (x ∷ b) h =
    let same : x % 256 ≡ x = omega arith in rw (same, to_bytes_of_IsBytes b h.1) refl

mod_step : (v p : ℕ) → 0 < p → v % 256 + 256 * ((v / 256) % p) ≡ v % (p * 256)
mod_step v p h = grind arith

u_from-le_bytes_mod : (n v : ℕ) (post : Bytes) → u_from (le_bytes n v ++ post) 0 n 0 ≡ v % 256 ^ n
unfolding le_bytes
u_from-le_bytes_mod zero v post = unfold u_from in omega arith
u_from-le_bytes_mod (suc n) v post =
    let rest = le_bytes n (v / 256) ++ post in
    let p : 256 ^ suc n ≡ 256 ^ n * 256 = pow-suc 256 n in
    u_from-low ((v % 256) ∷ rest) 0 n 0
    ∙ ap (λ t. v % 256 + 256 * t)
        (u_from-cons (v % 256) rest 0 n 0 ∙ u_from-le_bytes_mod n (v / 256) post)
    ∙ mod_step v (256 ^ n) (pow-pos n)
    ∙ ap (λ t. v % t) (sym p)
  where
    pow-pos : (k : ℕ) → 0 < 256 ^ k
    pow-pos zero = omega arith
    pow-pos (suc k) = omega (arith, pow-pos k, pow-suc 256 k)

u_from-le_bytes_low : (v : ℕ) (post : Bytes) → u_from (le_bytes 16 v ++ post) 0 8 0 ≡ v % 256 ^ 8
unfolding le_bytes
u_from-le_bytes_low v post =
    u_from-le_bytes_mod 8 v (le_bytes 8 (v / 256 / 256 / 256 / 256 / 256 / 256 / 256 / 256) ++ post)

-- A read of the low eight bytes of a 16-byte field sees the value modulo 2^64.
pub u_low_at :
    {b : Bytes} {o : ℕ} (pre post : Bytes) (v : ℕ)
    → b ≡ pre ++ (le_bytes 16 v ++ post)
    → o ≡ length pre
    → u b o 8 ≡ v % 2 ^ 64
unfolding u
u_low_at pre post v p q =
    ap₂ (λ c o. u_from c o 8 0) p (q ∙ sym (add-zero (length pre)))
    ∙ u_from-skip pre (le_bytes 16 v ++ post) 0 8 0
    ∙ u_from-le_bytes_low v post
