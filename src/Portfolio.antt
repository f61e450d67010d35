-- ===== src/Portfolio.antt =====
-- web/lib/portfolio.ts: decoding the risk kernel's bytes. A byte array is a list of numbers below
-- 256 (`IsBytes`); a `bigint` is an ℕ or a ℤ. Amounts in USD are kept in quote atoms, before the
-- division by 1e6, and `Number` of a bigint is the number itself.
pub mod Words
pub mod Legs
pub mod Raw
pub mod Margin
pub mod Tests
use anqa_core.Common.{
  ℕ, zero, suc, ◌+◌, ◌-◌, ◌*◌, ◌/◌, ◌%◌, ◌^◌, Bool, true, false, not, ◌&&◌, Option, none, some,
  List, [], ◌∷◌, map, length, get_or, ltb, leb, ◌==◌, if◌then◌else◌,
}
use anqa_core.Common.Int.{ℤ, pos, pos_part, neg_part, sub_ℕ, ◌+ℤ◌, ◌-ℤ◌, ltb_ℤ, leb_ℤ}

abbrev pub Bytes : Type 0
Bytes = List ℕ

-- Layout of the wrapper account.
abbrev pub pf_header : ℕ
pf_header = 8 + 32 + 8 + 1 + 16 + 8

abbrev pub pf_max_assets : ℕ
pf_max_assets = 12

abbrev pub pf_collateral : ℕ
pf_collateral = pf_header

abbrev pub pf_entry : ℕ
pf_entry = pf_collateral + pf_max_assets * 16

abbrev pub pf_inner : ℕ
pf_inner = pf_entry + pf_max_assets * 16

abbrev pub pf_reserved : ℕ
pf_reserved = 8 + 32 + 8 + 1

-- Layout of the kernel's bytes.
abbrev pub capital_at : ℕ
capital_at = 132

abbrev pub pnl_at : ℕ
pnl_at = 148

abbrev pub legs_at : ℕ
legs_at = 340

abbrev pub leg_stride : ℕ
leg_stride = 144

abbrev pub leg_active : ℕ
leg_active = 0

abbrev pub leg_asset_index : ℕ
leg_asset_index = 1

abbrev pub leg_side : ℕ
leg_side = 13

abbrev pub leg_basis_pos_q : ℕ
leg_basis_pos_q = 14

abbrev pub health_cert : ℕ
health_cert = 2484

abbrev pub cert_equity : ℕ
cert_equity = 0

abbrev pub cert_initial_req : ℕ
cert_initial_req = 16

abbrev pub cert_valid : ℕ
cert_valid = 120

abbrev pub max_legs : ℕ
max_legs = 4

abbrev pub pos_scale : ℕ
pos_scale = 1_000_000

-- `bytes[i] ?? 0`
abbrev pub byte : Bytes → ℕ → ℕ
byte b i = get_or b i 0

-- The loop of `u`, from the top byte down. The low eight bits of `v << 8n` are clear and the
-- element is a byte, so `|` adds.
unfoldable pub u_from : Bytes → ℕ → ℕ → ℕ → ℕ
u_from b offset zero v = v
u_from b offset (suc i) v = u_from b offset i (v * 256 + byte b (offset + i))

unfoldable pub u : Bytes → ℕ → ℕ → ℕ
unfolding u_from
u b offset len = u_from b offset len 0

-- Two's complement: `v >= 1n << (bits - 1n) ? v - (1n << bits) : v`.
unfoldable pub signed : ℕ → ℕ → ℤ
signed len v = if leb (2 ^ (len * 8 - 1)) v then sub_ℕ v (2 ^ (len * 8)) else pos v

unfoldable pub i : Bytes → ℕ → ℕ → ℤ
unfolding signed u
i b offset len = signed len (u b offset len)

-- `DataView.getBigUint64(at, true)`; `none` is its RangeError.
unfoldable pub get_big_uint64 : Bytes → ℕ → Option ℕ
unfolding u
get_big_uint64 b at = if ltb (length b) (at + 8) then none else some (u b at 8)

-- A read that the source guards by the length of the data.
unfoldable pub guarded_u64 : Bytes → ℕ → Option ℕ
unfolding get_big_uint64
guarded_u64 b at = if ltb (length b) (at + 8) then some 0 else get_big_uint64 b at

unfoldable pub reserved_of_raw : Bytes → Option ℕ
unfolding guarded_u64
reserved_of_raw b = guarded_u64 b pf_reserved

unfoldable pub collateral_of_raw : Bytes → ℕ → Option ℕ
unfolding guarded_u64
collateral_of_raw b asset_index = guarded_u64 b (pf_collateral + asset_index * 16)

unfoldable pub entry_of_raw : Bytes → ℕ → Option ℕ
unfolding guarded_u64
entry_of_raw b asset_index = guarded_u64 b (pf_entry + asset_index * 16)

-- `total += collateralOfRaw(data, i)`: a throw ends the sum.
abbrev pub add_read : ℕ → Option ℕ → Option ℕ
add_read total none = none
add_read total (some v) = some (total + v)

-- The loop of `committedTotalRaw`: `k` rounds are left, from asset `n` on.
unfoldable pub committed_from : Bytes → ℕ → ℕ → ℕ → Option ℕ
unfolding collateral_of_raw
committed_from b zero n total = some total
committed_from b (suc k) n total = elim (add_read total (collateral_of_raw b n)) [
  | none ↦ none
  | some t ↦ committed_from b k (suc n) t
]

unfoldable pub committed_total_raw : Bytes → Option ℕ
unfolding committed_from
committed_total_raw b = committed_from b pf_max_assets 0 0

pub record KernelPosition : Type 0 where
  pub asset_index : ℕ
  pub is_long : Bool
  pub lots : ℕ

pub record KernelState : Type 0 where
  pub capital : ℕ
  pub pnl : ℤ
  pub certified_equity : ℤ
  pub initial_requirement : ℕ
  pub cert_is_valid : Bool
  pub positions : List KernelPosition

-- `basis < 0n ? -basis : basis`
abbrev pub magnitude : ℤ → ℕ
magnitude z = pos_part z + neg_part z

-- One round of the loop over the legs: `none` is `continue`.
unfoldable pub read_leg : Bytes → ℕ → Option KernelPosition
unfolding u i
read_leg b n =
    let base = legs_at + n * leg_stride in
    let basis = i b (base + leg_basis_pos_q) 16 in
    if not (byte b (base + leg_active) == 1)
    then none
    else (if magnitude basis == 0
        then none
        else some (record {
          asset_index = u b (base + leg_asset_index) 4;
          is_long = byte b (base + leg_side) == 0;
          lots = magnitude basis / pos_scale;
        }))

abbrev pub push : {A : Type 0} → Option A → List A → List A
push none xs = xs
push (some x) xs = x ∷ xs

-- The loop over the legs; it breaks where a leg would pass the end.
unfoldable pub read_legs : Bytes → ℕ → ℕ → List KernelPosition
unfolding read_leg
read_legs b zero n = []
read_legs b (suc k) n =
    let rest = push (read_leg b n) (read_legs b k (suc n)) in
    if ltb (length b) (legs_at + n * leg_stride + leg_stride) then [] else rest

-- `Uint8Array.from` reduces each element to a byte.
abbrev pub to_bytes : List ℕ → Bytes
to_bytes = map (λ x. x % 256)

unfoldable pub read_kernel : List ℕ → KernelState
unfolding u i read_legs
read_kernel inner =
    let b = to_bytes inner in
    record {
      capital = u b capital_at 16;
      pnl = i b pnl_at 16;
      certified_equity = i b (health_cert + cert_equity) 16;
      initial_requirement = u b (health_cert + cert_initial_req) 16;
      cert_is_valid = byte b (health_cert + cert_valid) == 1;
      positions = read_legs b max_legs 0;
    }

-- Where the engine's asset slot keeps the long open interest.
abbrev pub oi_base : ℕ
oi_base = 8 + 8 + 273

-- Open interest in lots; `none` is null, for data that is too short.
unfoldable pub read_open_interest : Bytes → Option ℕ
unfolding u
read_open_interest b =
    if ltb (length b) (oi_base + 16) then none else some (u b oi_base 16 / pos_scale)

unfoldable pub equity_is_estimated : KernelState → Bool
equity_is_estimated k = not (k.cert_is_valid && ltb_ℤ (pos 0) k.certified_equity)

unfoldable pub equity : KernelState → ℤ
unfolding ◌+ℤ◌
equity k =
    if k.cert_is_valid && ltb_ℤ (pos 0) k.certified_equity
    then k.certified_equity
    else pos k.capital +ℤ k.pnl

unfoldable pub free_margin : KernelState → ℕ → ℤ
unfolding equity ◌-ℤ◌
free_margin k reserved_by_orders =
    let eq = equity k in
    let committed = k.initial_requirement + reserved_by_orders in
    let free = eq -ℤ pos committed in
    if leb_ℤ eq (pos 0) then pos 0 else (if ltb_ℤ (pos 0) free then free else pos 0)
