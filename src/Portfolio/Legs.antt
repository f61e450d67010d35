-- ===== src/Portfolio/Legs.antt =====
-- The kernel's legs as the program lays them out, and `readKernel`'s loop over them.
use anqa_core.Common.{
  ℕ, suc, ◌+◌, ◌*◌, ◌/◌, ◌%◌, ◌<◌, ◌^◌, ◌≡◌, refl, sym, ap, ◌∙◌, false, not, Option, none, some,
  List, [], ◌∷◌, ◌++◌, length, length-append, ltb, le→ltb, ◌==◌, if◌then◌else◌, arith,
}
use native.Mathlib.Nat.{add-zero}
use mathlib.Core.List.{append_assoc}
use anqa_core.Common.Int.{ℤ}
use anqa_core.Portfolio.{
  Bytes, byte, u, i, read_leg, read_legs, push, magnitude, pos_scale, legs_at, leg_stride,
  KernelPosition, read_kernel, max_legs,
}
use anqa_core.Portfolio.Words.{
  le_bytes, pattern_of, FitsI128, u_at, i_at, u_low_at, byte_at, length-le_bytes, IsBytes,
  to_bytes_of_IsBytes,
}

-- A leg's record of 144 bytes: the fields that the terminal reads, and what stands between them.
pub record Leg : Type 0 where
  pub active : ℕ
  pub asset_index : ℕ
  pub skipped : Bytes
  pub side : ℕ
  pub basis : ℤ
  pub tail : Bytes

pub record IsLeg (l : Leg) : Type 0 where
  pub asset_fits : l.asset_index < 256 ^ 4
  pub basis_fits : FitsI128 l.basis
  pub skipped_len : length l.skipped ≡ 8
  pub tail_len : length l.tail ≡ 114

-- The bytes of a leg, in front of `rest`.
unfoldable pub encode_leg : Leg → Bytes → Bytes
encode_leg l rest =
    l.active
    ∷ (le_bytes 4 l.asset_index
        ++ (l.skipped ++ (l.side ∷ (le_bytes 16 (pattern_of 16 l.basis) ++ (l.tail ++ rest)))))

unfoldable pub encode_legs : List Leg → Bytes → Bytes
encode_legs [] rest = rest
encode_legs (l ∷ ls) rest = encode_leg l (encode_legs ls rest)

-- The position that a leg stands for: none if it is inactive or of size zero.
unfoldable pub position_of : Leg → Option KernelPosition
position_of l =
    if not (l.active == 1)
    then none
    else (if magnitude l.basis == 0
        then none
        else some (record {
          asset_index = l.asset_index;
          is_long = l.side == 0;
          lots = magnitude l.basis / pos_scale;
        }))

unfoldable pub positions_of : List Leg → List KernelPosition
unfolding position_of
positions_of [] = []
positions_of (l ∷ ls) = push (position_of l) (positions_of ls)

abbrev pub AllLegs : List Leg → Type 0
AllLegs [] = Unit
AllLegs (l ∷ ls) = IsLeg l × AllLegs ls

pub length-encode_leg :
    (l : Leg) (rest : Bytes) → IsLeg l → length (encode_leg l rest) ≡ 144 + length rest
unfolding encode_leg
length-encode_leg l rest h = omega (arith, length-append {0}, length-le_bytes)

module _ (pre : Bytes) (l : Leg) (rest : Bytes) (h : IsLeg l) where
  abbrev pub written : Bytes
  written = pre ++ encode_leg l rest

  -- What precedes the asset index, the side and the basis.
  abbrev to_asset : Bytes
  to_asset = pre ++ (l.active ∷ [])

  abbrev to_side : Bytes
  to_side = pre ++ (l.active ∷ (le_bytes 4 l.asset_index ++ l.skipped))

  abbrev to_basis : Bytes
  to_basis = pre ++ (l.active ∷ (le_bytes 4 l.asset_index ++ (l.skipped ++ (l.side ∷ []))))

  pub active_at : byte written (length pre) ≡ l.active
  unfolding encode_leg
  active_at = byte_at pre _ l.active refl refl

  pub asset_at : u written (length pre + 1) 4 ≡ l.asset_index
  unfolding encode_leg
  asset_at =
      u_at to_asset
        (l.skipped ++ (l.side ∷ (le_bytes 16 (pattern_of 16 l.basis) ++ (l.tail ++ rest)))) 4
        l.asset_index (simp append_assoc) (omega (arith, length-append {0})) h.asset_fits

  pub side_at : byte written (length pre + 13) ≡ l.side
  unfolding encode_leg
  side_at =
      byte_at {b = written} to_side (le_bytes 16 (pattern_of 16 l.basis) ++ (l.tail ++ rest)) l.side
        (simp append_assoc) (omega (arith, length-append {0}, length-le_bytes, h.skipped_len))

  basis_at : i written (length pre + 14) 16 ≡ l.basis
  unfolding encode_leg
  basis_at =
      i_at to_basis (l.tail ++ rest) l.basis (simp append_assoc)
        (omega (arith, length-append {0}, length-le_bytes, h.skipped_len)) h.basis_fits

  pub basis_low_at : u written (length pre + 14) 8 ≡ pattern_of 16 l.basis % 2 ^ 64
  unfolding encode_leg
  basis_low_at =
      u_low_at to_basis (l.tail ++ rest) (pattern_of 16 l.basis) (simp append_assoc)
        (omega (arith, length-append {0}, length-le_bytes, h.skipped_len))

  -- One leg, read where the loop's `n`th round looks for it.
  read_leg-written :
      (n : ℕ) → length pre ≡ legs_at + n * leg_stride → read_leg written n ≡ position_of l
  unfolding read_leg position_of
  read_leg-written n at =
      let base : legs_at + n * leg_stride ≡ length pre = sym at in
      let first : length pre + 0 ≡ length pre = add-zero (length pre) in
      rw (base, first, active_at, asset_at, side_at, basis_at) refl

pub encode_leg-append :
    (l : Leg) (pre rest : Bytes) → pre ++ encode_leg l rest ≡ (pre ++ encode_leg l []) ++ rest
unfolding encode_leg
encode_leg-append l pre rest = simp append_assoc

read_legs-written :
    (ls : List Leg) (pre post : Bytes) (n : ℕ)
    → AllLegs ls
    → length pre ≡ legs_at + n * leg_stride
    → read_legs (pre ++ encode_legs ls post) (length ls) n ≡ positions_of ls
unfolding read_legs positions_of encode_legs
read_legs-written [] pre post n h at = refl
read_legs-written (l ∷ ls) pre post n (h, hs) at =
    let rest = encode_legs ls post in
    let here = read_leg-written pre l rest h n at in
    let later =
      read_legs-written ls (pre ++ encode_leg l []) post (suc n) hs
        (omega (arith, length-append {0} pre (encode_leg l []), length-encode_leg l [] h)) in
    let fits : ltb (length (pre ++ encode_leg l rest)) (legs_at + n * leg_stride + leg_stride)
        ≡ false =
      le→ltb _ _
        (omega (arith, length-append {0} pre (encode_leg l rest), length-encode_leg l rest h)) in
    rw (fits, here)
      (ap (push (position_of l))
        (ap (λ b. read_legs b (length ls) (suc n)) (encode_leg-append l pre rest) ∙ later))

-- Where the kernel's bytes hold four well-formed legs at offset 340, `readKernel` lists exactly the
-- active legs of nonzero size, in order, each with its asset, its side and its size in whole lots;
-- whatever the bytes before and after the legs are.
pub read_kernel-encode_legs :
    (ls : List Leg) (pre post : Bytes)
    → AllLegs ls
    → length ls ≡ max_legs
    → length pre ≡ legs_at
    → IsBytes (pre ++ encode_legs ls post)
    → (read_kernel (pre ++ encode_legs ls post)).positions ≡ positions_of ls
unfolding read_kernel
read_kernel-encode_legs ls pre post h four at bytes =
    ap (λ b. read_legs b max_legs 0) (to_bytes_of_IsBytes _ bytes)
    ∙ ap (λ n. read_legs (pre ++ encode_legs ls post) n 0) (sym four)
    ∙ read_legs-written ls pre post 0 h (omega arith)
