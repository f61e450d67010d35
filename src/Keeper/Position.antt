-- ===== src/Keeper/Position.antt =====
-- The keeper's own reader of a position, `readPosition` of app/keeper.ts, off a whole account, and
-- its agreement with the terminal's `readKernel`.
use anqa_core.Common.{
  ℕ, zero, suc, ◌+◌, ◌*◌, ◌/◌, ◌%◌, ◌≤◌, ◌<◌, ◌^◌, ◌≡◌, refl, sym, ap, ◌∙◌, Bool, false, not,
  Option, none, some, List, [], ◌∷◌, ◌++◌, length, length-append, ltb, le→ltb, ◌==◌, if◌then◌else◌,
  arith,
}
use mathlib.Core.List.{append_assoc}
use anqa_core.Common.Int.{ℤ, pos, negsuc, pos_part, neg_part}
use anqa_core.Portfolio.{
  Bytes, byte, u, signed, magnitude, pos_scale, max_legs, leg_stride, legs_at, KernelPosition, push,
  read_kernel,
}
use anqa_core.Portfolio.Words.{pattern_of, IsBytes}
use anqa_core.Portfolio.Legs

-- The keeper's copy of the layout.
abbrev pub header : ℕ
header = 8 + 32 + 8 + 1 + 16 + 8

abbrev pub max_assets_slots : ℕ
max_assets_slots = 12

abbrev pub collateral_at : ℕ
collateral_at = header

abbrev pub entry_at : ℕ
entry_at = collateral_at + max_assets_slots * 16

abbrev pub inner_at : ℕ
inner_at = entry_at + max_assets_slots * 16

abbrev pub keeper_legs : ℕ
keeper_legs = inner_at + 340

-- `account.readUInt32LE`, `account.readBigUInt64LE` and `account.readBigInt64LE`; `none` is the RangeError.
unfoldable pub read_u32_le : Bytes → ℕ → Option ℕ
read_u32_le b at = if ltb (length b) (at + 4) then none else some (u b at 4)

unfoldable pub read_u64_le : Bytes → ℕ → Option ℕ
read_u64_le b at = if ltb (length b) (at + 8) then none else some (u b at 8)

unfoldable pub read_i64_le : Bytes → ℕ → Option ℤ
read_i64_le b at = if ltb (length b) (at + 8) then none else some (signed 8 (u b at 8))

pub record Held : Type 0 where
  pub is_long : Bool
  pub lots : ℕ

-- What one round finds in the leg at `base`: `none` is a thrown RangeError, `some none` is
-- `continue`.
unfoldable pub leg_held : Bytes → ℕ → ℕ → Option (Option Held)
unfolding read_u32_le read_i64_le
leg_held account idx base =
    if not (byte account base == 1) then some none else elim (read_u32_le account (base + 1)) [
      | none ↦ none
      | some asset ↦
          if not (asset == idx) then some none else elim (read_i64_le account (base + 14)) [
            | none ↦ none
            | some raw ↦
                if magnitude raw == 0
                then some none
                else some (
                    some (record {
                      is_long = byte account (base + 13) == 0;
                      lots = magnitude raw / pos_scale;
                    }))
          ]
    ]

-- The loop of `readPosition`: `k` rounds are left, from leg `n` on.
unfoldable pub position_from : Bytes → ℕ → ℕ → ℕ → Option (Option Held)
unfolding leg_held
position_from account idx zero n = some none
position_from account idx (suc k) n = elim (leg_held account idx (keeper_legs + n * leg_stride)) [
  | none ↦ none
  | some (some held) ↦ some (some held)
  | some none ↦ position_from account idx k (suc n)
]

unfoldable pub read_position : Bytes → ℕ → Option (Option Held)
unfolding position_from
read_position account idx = position_from account idx 4 0

-- `kernel.positions.find((x) => x.assetIndex === idx)`, of web/lib/useAllPositions.ts.
unfoldable pub find_position : ℕ → List KernelPosition → Option Held
find_position idx [] = none
find_position idx (p ∷ ps) =
    if p.asset_index == idx
    then some (record { is_long = p.is_long; lots = p.lots })
    else find_position idx ps

-- A size that an i64 holds.
abbrev pub FitsI64 : ℤ → Type 0
FitsI64 z = (pos_part z < 2 ^ 63) × (neg_part z ≤ 2 ^ 63)

abbrev pub AllFitI64 : List Legs.Leg → Type 0
AllFitI64 [] = Unit
AllFitI64 (l ∷ ls) = FitsI64 l.basis × AllFitI64 ls

signed-low : (z : ℤ) → FitsI64 z → signed 8 (pattern_of 16 z % 2 ^ 64) ≡ z
unfolding signed pattern_of
signed-low (pos v) h = ground arith
signed-low (negsuc v) h = ground arith

-- What the keeper should find in a leg.
held_of : ℕ → Legs.Leg → Option Held
held_of idx l =
    if not (l.active == 1)
    then none
    else (if not (l.asset_index == idx)
        then none
        else (if magnitude l.basis == 0
            then none
            else some (record { is_long = l.side == 0; lots = magnitude l.basis / pos_scale })))

module _ (idx : ℕ) (pre : Bytes) (l : Legs.Leg) (rest : Bytes) (h : Legs.IsLeg l) where
  leg_held-written :
      FitsI64 l.basis
      → leg_held (pre ++ Legs.encode_leg l rest) idx (length pre) ≡ some (held_of idx l)
  unfolding leg_held held_of
  leg_held-written fits =
      let account = pre ++ Legs.encode_leg l rest in
      let len : length account ≡ length pre + 144 + length rest =
        omega (
          arith,
          length-append {0} pre (Legs.encode_leg l rest),
          Legs.length-encode_leg l rest h,
        ) in
      let room : ltb (length account) (length pre + 1 + 4) ≡ false =
        le→ltb _ _ (omega (arith, len)) in
      let room' : ltb (length account) (length pre + 14 + 8) ≡ false =
        le→ltb _ _ (omega (arith, len)) in
      let active = Legs.active_at pre l rest h in
      let asset = Legs.asset_at pre l rest h in
      let side = Legs.side_at pre l rest h in
      let low = Legs.basis_low_at pre l rest h in
      ground (arith, active, room, asset, room', low, signed-low l.basis fits, side)

-- `find` over one more leg.
abbrev or_else : Option Held → Option Held → Option Held
or_else none o = o
or_else (some held) o = some held

find_position-push :
    (idx : ℕ) (l : Legs.Leg) (ps : List KernelPosition)
    → find_position idx (push (Legs.position_of l) ps)
      ≡ or_else (held_of idx l) (find_position idx ps)
unfolding find_position held_of Legs.position_of
find_position-push idx l ps = ground arith

position_from-written :
    (idx : ℕ) (ls : List Legs.Leg) (pre post : Bytes) (n : ℕ)
    → Legs.AllLegs ls
    → AllFitI64 ls
    → length pre ≡ keeper_legs + n * leg_stride
    → position_from (pre ++ Legs.encode_legs ls post) idx (length ls) n
      ≡ some (find_position idx (Legs.positions_of ls))
unfolding position_from Legs.encode_legs Legs.positions_of
position_from-written idx [] pre post n h fit at = unfold find_position in refl
position_from-written idx (l ∷ ls) pre post n (h, hs) (fit, fits) at =
    let rest = Legs.encode_legs ls post in
    let here = leg_held-written idx pre l rest h fit in
    let later = position_from-written idx ls (pre ++ Legs.encode_leg l []) post (suc n) hs fits (
      omega (arith, length-append {0} pre (Legs.encode_leg l []), Legs.length-encode_leg l [] h)) in
    let moved =
      ap (λ b. position_from b idx (length ls) (suc n)) (Legs.encode_leg-append l pre rest) in
    ground (
      arith,
      ap (leg_held (pre ++ Legs.encode_leg l rest) idx) at,
      here,
      moved ∙ later,
      find_position-push idx l (Legs.positions_of ls),
    )

-- The keeper and the terminal read the same position out of an account: where four well-formed legs
-- stand at the kernel's offset, and their sizes fit the 64 bits that the keeper reads, the keeper's
-- `readPosition` does not throw and gives what the terminal finds for the asset in `readKernel`.
pub read_position-eq-read_kernel :
    (idx : ℕ) (ls : List Legs.Leg) (wrapper pre post : Bytes)
    → Legs.AllLegs ls
    → AllFitI64 ls
    → length ls ≡ max_legs
    → length wrapper ≡ inner_at
    → length pre ≡ legs_at
    → IsBytes (pre ++ Legs.encode_legs ls post)
    → read_position (wrapper ++ (pre ++ Legs.encode_legs ls post)) idx
      ≡ some (find_position idx (read_kernel (pre ++ Legs.encode_legs ls post)).positions)
unfolding read_position
read_position-eq-read_kernel idx ls wrapper pre post h fit four outer at bytes =
    ap (λ b. position_from b idx 4 0) (sym (append_assoc wrapper pre (Legs.encode_legs ls post)))
    ∙ ap (λ k. position_from ((wrapper ++ pre) ++ Legs.encode_legs ls post) idx k 0) (sym four)
    ∙ position_from-written idx ls (wrapper ++ pre) post 0 h fit
        (omega (arith, length-append {0} wrapper pre))
    ∙ ap (λ ps. some (find_position idx ps))
        (sym (Legs.read_kernel-encode_legs ls pre post h four at bytes))
