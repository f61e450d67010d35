-- ===== src/Maker/Position.antt =====
-- `readPosition` of app/maker-daemon.ts: the maker's own inventory, long positive and short negative,
-- and the keeper's reading of the same account.
use anqa_core.Common.{
  ℕ, zero, suc, ◌+◌, ◌*◌, ◌/◌, ◌≡◌, refl, Bool, true, false, not, Option, none, some, ◌==◌,
  if◌then◌else◌, arith, Bool-cases, Option-cases, inl, inr, ◌⊎◌,
}
use anqa_core.Common.Int.{ℤ, pos, ◌-ℤ◌}
use anqa_core.Portfolio.{Bytes, byte, magnitude, pos_scale, leg_stride}
use anqa_core.Keeper.Position.{
  Held, keeper_legs, read_u32_le, read_i64_le, leg_held, position_from, read_position,
}

-- `isLong ? lots : -lots`
abbrev pub signed_lots : Bool → ℕ → ℤ
signed_lots true lots = pos lots
signed_lots false lots = pos 0 -ℤ pos lots

-- One round of the loop: `none` is a thrown RangeError, `some none` is `continue`.
unfoldable pub leg_lots : Bytes → ℕ → ℕ → Option (Option ℤ)
unfolding read_u32_le read_i64_le
leg_lots account idx base =
    if not (byte account base == 1) then some none else elim (read_u32_le account (base + 1)) [
      | none ↦ none
      | some asset ↦
          if not (asset == idx) then some none else elim (read_i64_le account (base + 14)) [
            | none ↦ none
            | some raw ↦
                if magnitude raw == 0
                then some none
                else some
                    (some (signed_lots (byte account (base + 13) == 0) (magnitude raw / pos_scale)))
          ]
    ]

unfoldable pub lots_from : Bytes → ℕ → ℕ → ℕ → Option ℤ
unfolding leg_lots
lots_from account idx zero n = some (pos 0)
lots_from account idx (suc k) n = elim (leg_lots account idx (keeper_legs + n * leg_stride)) [
  | none ↦ none
  | some (some lots) ↦ some lots
  | some none ↦ lots_from account idx k (suc n)
]

unfoldable pub net_position : Bytes → ℕ → Option ℤ
unfolding lots_from
net_position account idx = lots_from account idx 4 0

-- What the keeper's answer comes to as a signed number of lots.
abbrev pub signed_held : Option (Option Held) → Option ℤ
signed_held none = none
signed_held (some none) = some (pos 0)
signed_held (some (some h)) = some (signed_lots h.is_long h.lots)

abbrev signed_leg : Option (Option Held) → Option (Option ℤ)
signed_leg none = none
signed_leg (some none) = some none
signed_leg (some (some h)) = some (some (signed_lots h.is_long h.lots))

leg_lots-signed :
    (account : Bytes) (idx base : ℕ)
    → leg_lots account idx base ≡ signed_leg (leg_held account idx base)
unfolding leg_lots leg_held
leg_lots-signed account idx base = elim (Bool-cases (byte account base == 1)) [
  | inr idle ↦ rw idle refl
  | inl live ↦ elim (Option-cases (read_u32_le account (base + 1))) [
    | inl short ↦ rw (live, short) refl
    | inr (asset, e) ↦ elim (Bool-cases (asset == idx)) [
      | inr other ↦ rw (live, e, other) refl
      | inl mine ↦ elim (Option-cases (read_i64_le account (base + 14))) [
        | inl short ↦ rw (live, e, mine, short) refl
        | inr (raw, e') ↦ elim (Bool-cases (magnitude raw == 0)) [
          | inl flat ↦ rw (live, e, mine, e', flat) refl
          | inr held ↦ rw (live, e, mine, e', held) refl
        ]
      ]
    ]
  ]
]

Held-cases :
    (h : Option (Option Held)) → (h ≡ none) ⊎ ((h ≡ some none) ⊎ ((a : Held) × (h ≡ some (some a))))
Held-cases none = inl refl
Held-cases (some none) = inr (inl refl)
Held-cases (some (some h)) = inr (inr (h, refl))

lots_from-signed :
    (account : Bytes) (idx k n : ℕ)
    → lots_from account idx k n ≡ signed_held (position_from account idx k n)
unfolding lots_from position_from
lots_from-signed account idx zero n = refl
lots_from-signed account idx (suc k) n =
    let base = keeper_legs + n * leg_stride in
    let same = leg_lots-signed account idx base in
    let later = lots_from-signed account idx k (suc n) in
    elim (Held-cases (leg_held account idx base)) [
      | inl short ↦ ground (arith, same, short)
      | inr (inl skip) ↦ ground (arith, same, skip, later)
      | inr (inr (h, found)) ↦ ground (arith, same, found)
    ]

-- The maker and the keeper read the same position, of every account and asset, and throw alike.
pub net_position-eq-read_position :
    (account : Bytes) (idx : ℕ) → net_position account idx ≡ signed_held (read_position account idx)
unfolding net_position read_position
net_position-eq-read_position account idx = lots_from-signed account idx 4 0
