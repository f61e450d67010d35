-- ===== src/Keeper/Deposits.antt =====
-- app/keeper.ts: `claimDeposits`, the rail that credits what the ledgers on base layer record. An owner
-- is the number that the 32 bytes of the key spell.
use anqa_core.Common.{
  ℕ, ◌+◌, ◌≡◌, inl, inr, refl, Bool, true, false, Option, none, some, List, [], ◌∷◌, length, leb,
  ltb, ◌==◌, if◌then◌else◌, arith, Option-cases,
}
use anqa_core.Portfolio.{Bytes, u}
use anqa_core.Keeper.Position.{read_u64_le}

-- What the rollup shows of each owner, `claimedHighWater` or no account, and the claims that were
-- submitted, the last one first.
pub record Rail : Type 0 where
  pub credited : ℕ → Option ℕ
  pub claims : List ℕ

-- What the rollup does in a pass: whether it takes the claim of an owner, and whether the read of the
-- portfolio succeeds.
pub record Answers : Type 0 where
  pub takes : ℕ → Bool
  pub reads : ℕ → Bool

abbrev pub owner_of : Bytes → ℕ
owner_of ledger = u ledger 8 32

abbrev pub raised : (ℕ → Option ℕ) → ℕ → ℕ → ℕ → Option ℕ
raised credited owner deposited o = if o == owner then some deposited else credited o

-- The claim of one owner. The rollup takes it or refuses it, and one that is taken credits everything
-- that the ledger records; a refusal is swallowed.
unfoldable pub submit : Answers → ℕ → ℕ → Rail → Rail
submit er owner deposited rail = record {
  credited = if er.takes owner then raised rail.credited owner deposited else rail.credited;
  claims = owner ∷ rail.claims;
}

abbrev pub consider : Answers → ℕ → ℕ → Option ℕ → Rail → Rail
consider er owner deposited none rail = rail
consider er owner deposited (some claimed) rail =
    if leb deposited claimed then rail else submit er owner deposited rail

-- `portfolio.fetch(…).catch(() => null)`: a read that fails shows no account.
abbrev pub portfolio_seen : Answers → ℕ → Rail → Option ℕ
portfolio_seen er owner rail = if er.reads owner then rail.credited owner else none

abbrev pub settle_owner : Answers → ℕ → ℕ → Rail → Rail
settle_owner er owner deposited rail =
    if deposited == 0 then rail else consider er owner deposited (portfolio_seen er owner rail) rail

-- One round of the loop; `none` is a RangeError.
unfoldable pub claim_one : Answers → Bytes → Rail → Option Rail
unfolding read_u64_le submit
claim_one er ledger rail = elim (read_u64_le ledger (8 + 32 + 8)) [
  | none ↦ none
  | some deposited ↦ some (settle_owner er (owner_of ledger) deposited rail)
]

unfoldable pub claim_deposits : Answers → List Bytes → Rail → Option Rail
unfolding claim_one
claim_deposits er [] rail = some rail
claim_deposits er (ledger ∷ ledgers) rail = elim (claim_one er ledger rail) [
  | none ↦ none
  | some next ↦ claim_deposits er ledgers next
]

-- More is deposited than an owner's account has been credited with.
abbrev pub due : ℕ → Option ℕ → Bool
due deposited none = false
due deposited (some claimed) = ltb claimed deposited

-- Nothing is owed on this ledger.
abbrev pub Settled : Rail → Bytes → Type 0
Settled rail ledger =
    (d : ℕ)
    → read_u64_le ledger (8 + 32 + 8) ≡ some d
    → due d (rail.credited (owner_of ledger)) ≡ false

abbrev pub AllSettled : Rail → List Bytes → Type 0
AllSettled rail [] = Unit
AllSettled rail (ledger ∷ ledgers) = Settled rail ledger × AllSettled rail ledgers

abbrev pub AllLedgers : List Bytes → Type 0
AllLedgers [] = Unit
AllLedgers (ledger ∷ ledgers) = (length ledger ≡ 73) × AllLedgers ledgers

-- Whatever was credited in full stays so.
abbrev Grown : Rail → Rail → Type 0
Grown rail next = (o d : ℕ) → due d (rail.credited o) ≡ false → due d (next.credited o) ≡ false

deposit_read :
    (ledger : Bytes) → length ledger ≡ 73 → read_u64_le ledger (8 + 32 + 8) ≡ some (u ledger 48 8)
unfolding read_u64_le
deposit_read ledger h = ground arith

-- A ledger on which nothing is owed is left alone.
claim_one-Settled :
    (er : Answers) (ledger : Bytes) (rail : Rail)
    → length ledger ≡ 73
    → Settled rail ledger
    → claim_one er ledger rail ≡ some rail
unfolding claim_one
claim_one-Settled er ledger rail h settled =
    let at = deposit_read ledger h in
    let fine = settled (u ledger 48 8) at in
    elim (Option-cases (rail.credited (owner_of ledger))) [
      | inl missing ↦ ground (arith, at)
      | inr (c, there) ↦ ground (arith, at, fine)
    ]

module _ (er : Answers) (all : (o : ℕ) → er.takes o ≡ true)
    (clear : (o : ℕ) → er.reads o ≡ true) where
  settle_owner_lem :
      (owner deposited : ℕ) (rail : Rail)
      → Grown rail (settle_owner er owner deposited rail)
        × (due deposited ((settle_owner er owner deposited rail).credited owner) ≡ false)
  unfolding submit
  settle_owner_lem owner deposited rail =
      let taken = all owner in
      let shown = clear owner in
      elim (Option-cases (rail.credited owner)) [
        | inl missing ↦ (λ o d e. ground (arith, e, missing, shown), ground (arith, missing, shown))
        | inr (c, there) ↦
            (λ o d e. ground (arith, e, there, taken, shown), ground (arith, there, taken, shown))
      ]

  claim_one_lem :
      (ledger : Bytes) (rail : Rail)
      → length ledger ≡ 73
      → (next : Rail) × (claim_one er ledger rail ≡ some next)
        × Grown rail next
        × Settled next ledger
  unfolding claim_one
  claim_one_lem ledger rail h =
      let at = deposit_read ledger h in
      let (grown, paid) = settle_owner_lem (owner_of ledger) (u ledger 48 8) rail in
      (
        settle_owner er (owner_of ledger) (u ledger 48 8) rail,
        rw (at, claim_one) refl,
        grown,
        λ d e. ground (arith, at, e, paid),
      )

  claim_deposits_lem :
      (ledgers : List Bytes) (rail : Rail)
      → AllLedgers ledgers
      → (next : Rail) × (claim_deposits er ledgers rail ≡ some next)
        × Grown rail next
        × AllSettled next ledgers
  unfolding claim_deposits
  claim_deposits_lem [] rail h = (rail, refl, λ o d e. e, tt)
  claim_deposits_lem (ledger ∷ ledgers) rail h =
      let (mid, e1, g1, s1) = claim_one_lem ledger rail h.0 in
      let (next, e2, g2, s2) = claim_deposits_lem ledgers mid h.1 in
      (
        next,
        rw (e1, claim_deposits) e2,
        λ o d e. g2 o d (g1 o d e),
        (λ d e. g2 (owner_of ledger) d (s1 d e), s2),
      )

claim_deposits-AllSettled :
    (er : Answers) (ledgers : List Bytes) (rail : Rail)
    → AllLedgers ledgers
    → AllSettled rail ledgers
    → claim_deposits er ledgers rail ≡ some rail
unfolding claim_deposits
claim_deposits-AllSettled er [] rail h s = refl
claim_deposits-AllSettled er (ledger ∷ ledgers) rail h s =
    rw (claim_one-Settled er ledger rail h.0 s.0, claim_deposits)
      (claim_deposits-AllSettled er ledgers rail h.1 s.1)

-- If the rollup takes every claim and no read of a portfolio fails, one pass over the ledgers, of 73
-- bytes each, ends without a throw and leaves no account owed anything; and the next pass, whatever
-- the rollup would answer and whatever reads fail, submits nothing.
pub claim_deposits-settles :
    (er later : Answers) (ledgers : List Bytes) (rail : Rail)
    → ((o : ℕ) → er.takes o ≡ true)
    → ((o : ℕ) → er.reads o ≡ true)
    → AllLedgers ledgers
    → (next : Rail) × (claim_deposits er ledgers rail ≡ some next)
      × AllSettled next ledgers
      × (claim_deposits later ledgers next ≡ some next)
claim_deposits-settles er later ledgers rail all clear h =
    let (next, e, _, s) = claim_deposits_lem er all clear ledgers rail h in
    (next, e, s, claim_deposits-AllSettled later ledgers next h s)
