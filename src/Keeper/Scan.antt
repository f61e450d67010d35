-- ===== src/Keeper/Scan.antt =====
-- `scanHolders` of app/keeper.ts: which of the program's accounts are portfolios of the hub, which of them hold a
-- position, and whose they are.
mod Tests
use anqa_core.Common.{
  ℕ, zero, suc, ◌+◌, ◌*◌, ◌<◌, ◌≡◌, ◌⊎◌, inl, inr, refl, sym, ap, ◌∙◌, Bool, true, false, not, ◌&&◌,
  ◌||◌, Option, none, some, List, [], ◌∷◌, map, take, drop, ltb, leb, ◌==◌, if◌then◌else◌, arith,
  Bool-cases, Option-cases,
}
use anqa_core.Portfolio.{Bytes, byte, legs_at, leg_stride}
use anqa_core.Keeper.Position.{inner_at, keeper_legs, read_u64_le}

-- An account as `getProgramAccounts` returns it.
pub record Found : Type 0 where
  pub pubkey : ℕ
  pub account : Bytes

pub record Scanned : Type 0 where
  pub position_holders : List ℕ
  pub group_portfolios : List ℕ
  pub group_owners : List Bytes

abbrev pub in_hub : ℕ → ℕ → Bool
in_hub group tag = not (ltb tag group || leb (group + 16) tag)

-- The loop over the four legs.
abbrev pub has_leg : Bytes → Bool
has_leg account =
    (byte account keeper_legs == 1)
    || ((byte account (keeper_legs + leg_stride) == 1)
        || ((byte account (keeper_legs + 2 * leg_stride) == 1)
            || (byte account (keeper_legs + 3 * leg_stride) == 1)))

abbrev pub entered : Bool → Bool → ℕ → List ℕ × List ℕ → List ℕ × List ℕ
entered false holds key lists = lists
entered true false key (holders, portfolios) = (holders, key ∷ portfolios)
entered true true key (holders, portfolios) = (key ∷ holders, key ∷ portfolios)

-- A round: the tag that was read, and what the rounds after it come to; `none` is a thrown RangeError.
abbrev pub round_of : ℕ → Found → Option ℕ → Option (List ℕ × List ℕ) → Option (List ℕ × List ℕ)
round_of group a (some tag) (some lists) =
    some (entered (in_hub group tag) (has_leg a.account) a.pubkey lists)
round_of group a (some tag) none = none
round_of group a none rest = none

-- The loop over the accounts.
unfoldable pub scan_from : ℕ → List Found → Option (List ℕ × List ℕ)
scan_from group [] = some ([], [])
scan_from group (a ∷ accounts) =
    round_of group a (read_u64_le a.account 40) (scan_from group accounts)

abbrev pub is_listed : ℕ → List ℕ → Bool
is_listed key [] = false
is_listed key (k ∷ keys) = (k == key) || is_listed key keys

abbrev pub owner_of_account : Found → Bytes
owner_of_account a = take 32 (drop 8 a.account)

unfoldable pub owners_among : List ℕ → List Found → List Bytes
owners_among portfolios [] = []
owners_among portfolios (a ∷ accounts) =
    let rest = owners_among portfolios accounts in
    if is_listed a.pubkey portfolios then owner_of_account a ∷ rest else rest

abbrev pub scanned : List Found → Scanned → Option (List ℕ × List ℕ) → Scanned
scanned accounts old none = old
scanned accounts old (some (holders, portfolios)) = record {
  position_holders = holders;
  group_portfolios = portfolios;
  group_owners = owners_among portfolios accounts;
}

unfoldable pub scan_holders : ℕ → List Found → Scanned → Scanned
unfolding scan_from owners_among
scan_holders group accounts old = scanned accounts old (scan_from group accounts)

-- What the scan is for: the accounts that pass a test.
abbrev pub kept : (Found → Bool) → List Found → List Found
kept test [] = []
kept test (a ∷ accounts) = if test a then a ∷ kept test accounts else kept test accounts

abbrev pub keys : List Found → List ℕ
keys [] = []
keys (a ∷ accounts) = a.pubkey ∷ keys accounts

abbrev pub owners : List Found → List Bytes
owners [] = []
owners (a ∷ accounts) = owner_of_account a ∷ owners accounts

-- The markets of a hub: `n` ids from its first one on.
abbrev pub hub_markets : ℕ → ℕ → List ℕ
hub_markets first zero = []
hub_markets first (suc n) = first ∷ hub_markets (suc first) n

abbrev pub tag_in_hub : ℕ → Option ℕ → Bool
tag_in_hub group none = false
tag_in_hub group (some tag) = is_listed tag (hub_markets group 16)

-- Whether one of the first `n` legs of the kernel is marked active; the kernel's legs stand at 340.
abbrev pub some_leg : Bytes → ℕ → Bool
some_leg account zero = false
some_leg account (suc n) =
    some_leg account n || (byte account (inner_at + legs_at + n * leg_stride) == 1)

abbrev pub is_portfolio : ℕ → Found → Bool
is_portfolio group a = tag_in_hub group (read_u64_le a.account 40)

abbrev pub is_holder : ℕ → Found → Bool
is_holder group a = is_portfolio group a && some_leg a.account 4

abbrev pub IsReadable : List Found → Type 0
IsReadable [] = Unit
IsReadable (a ∷ accounts) =
    ((tag : ℕ) × (read_u64_le a.account 40 ≡ some tag)) × IsReadable accounts

-- No key twice.
abbrev pub IsDistinct : List Found → Type 0
IsDistinct [] = Unit
IsDistinct (a ∷ accounts) = (is_listed a.pubkey (keys accounts) ≡ false) × IsDistinct accounts

in_hub-listed :
    (tag first n : ℕ)
    → is_listed tag (hub_markets first n) ≡ not (ltb tag first || leb (first + n) tag)
in_hub-listed tag first zero = ground arith
in_hub-listed tag first (suc n) = ground (arith, in_hub-listed tag (suc first) n)

has_leg-some : (account : Bytes) → has_leg account ≡ some_leg account 4
has_leg-some account = ground arith

entered-kept :
    (group : ℕ) (a : Found) (tag : ℕ) (accounts : List Found)
    → read_u64_le a.account 40 ≡ some tag
    → is_listed tag (hub_markets group 16) ≡ in_hub group tag
    → round_of group a
        (some tag)
        (some (keys (kept (is_holder group) accounts), keys (kept (is_portfolio group) accounts)))
      ≡ some (
        keys (kept (is_holder group) (a ∷ accounts)),
        keys (kept (is_portfolio group) (a ∷ accounts)),
      )
entered-kept group a tag accounts e same =
    let portfolio : is_portfolio group a ≡ in_hub group tag = ap (tag_in_hub group) e ∙ same in
    let holder : is_holder group a ≡ (in_hub group tag && has_leg a.account) =
      ap (λ b. b && some_leg a.account 4) portfolio
      ∙ ap (λ b. in_hub group tag && b) (sym (has_leg-some a.account)) in
    entered-lists (in_hub group tag) (has_leg a.account) (is_portfolio group a) (is_holder group a)
      portfolio holder
  where
    entered-lists :
        (inside holds portfolio holder : Bool)
        → portfolio ≡ inside
        → holder ≡ (inside && holds)
        → let holders = kept (is_holder group) accounts in
          let portfolios = kept (is_portfolio group) accounts in
          some (entered inside holds a.pubkey (keys holders, keys portfolios))
          ≡ some (
            keys (if holder then a ∷ holders else holders),
            keys (if portfolio then a ∷ portfolios else portfolios),
          )
    entered-lists inside holds portfolio holder p h = ground (arith, p, h)

scan_from-kept :
    (group : ℕ) (accounts : List Found)
    → IsReadable accounts
    → scan_from group accounts
      ≡ some (keys (kept (is_holder group) accounts), keys (kept (is_portfolio group) accounts))
unfolding scan_from
scan_from-kept group [] h = refl
scan_from-kept group (a ∷ accounts) ((tag, e), h) =
    let holders = keys (kept (is_holder group) accounts) in
    let portfolios = keys (kept (is_portfolio group) accounts) in
    let step : scan_from group (a ∷ accounts)
        ≡ round_of group a (some tag) (some (holders, portfolios)) =
      ap (round_of group a (read_u64_le a.account 40)) (scan_from-kept group accounts h)
      ∙ ap (λ t. round_of group a t (some (holders, portfolios))) e in
    step ∙ entered-kept group a tag accounts e (in_hub-listed tag group 16)

kept-unlisted :
    (test : Found → Bool) (key : ℕ) (accounts : List Found)
    → is_listed key (keys accounts) ≡ false
    → is_listed key (keys (kept test accounts)) ≡ false
kept-unlisted test key [] h = refl
kept-unlisted test key (a ∷ accounts) h =
    let rest = kept-unlisted test key accounts (ground (arith, h)) in ground (arith, rest, h)

owners_among-unlisted :
    (key : ℕ) (portfolios : List ℕ) (accounts : List Found)
    → is_listed key (keys accounts) ≡ false
    → owners_among (key ∷ portfolios) accounts ≡ owners_among portfolios accounts
unfolding owners_among
owners_among-unlisted key portfolios [] h = refl
owners_among-unlisted key portfolios (a ∷ accounts) h =
    let rest = owners_among-unlisted key portfolios accounts (ground (arith, h)) in
    ground (arith, rest, h)

owners_among-kept :
    (test : Found → Bool) (accounts : List Found)
    → IsDistinct accounts
    → owners_among (keys (kept test accounts)) accounts ≡ owners (kept test accounts)
unfolding owners_among
owners_among-kept test [] h = refl
owners_among-kept test (a ∷ accounts) h =
    let rest = owners_among-kept test accounts h.1 in
    let same = owners_among-unlisted a.pubkey (keys (kept test accounts)) accounts h.0 in
    let apart = kept-unlisted test a.pubkey accounts h.0 in
    elim (Bool-cases (test a)) [
      | inl passes ↦ ground (arith, passes, same, rest)
      | inr fails ↦ ground (arith, fails, apart, rest)
    ]

abbrev list_all : List ℕ → List ℕ → List Bytes → Scanned
list_all holders portfolios os = record {
  position_holders = holders;
  group_portfolios = portfolios;
  group_owners = os;
}

-- If no key comes twice among the accounts, and the market tag of every account can be read: the scan lists the
-- keys of the accounts whose tag is one of the hub's sixteen, of those among them with an active
-- leg, and the owners of just the former, all in the order of the accounts.
pub scan_holders-kept :
    (group : ℕ) (accounts : List Found) (old : Scanned)
    → IsDistinct accounts
    → IsReadable accounts
    → scan_holders group accounts old ≡ record {
      position_holders = keys (kept (is_holder group) accounts);
      group_portfolios = keys (kept (is_portfolio group) accounts);
      group_owners = owners (kept (is_portfolio group) accounts);
    }
unfolding scan_holders
scan_holders-kept group accounts old distinct readable =
    let holders = keys (kept (is_holder group) accounts) in
    let portfolios = keys (kept (is_portfolio group) accounts) in
    ap (scanned accounts old) (scan_from-kept group accounts readable)
    ∙ ap (list_all holders portfolios) (owners_among-kept (is_portfolio group) accounts distinct)
