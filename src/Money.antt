-- ===== src/Money.antt =====
-- web/lib/margin.ts: the money model. USD amounts are whole quote atoms (one USD is 1,000,000), so a
-- `Math.round(x * 1e6)` is the amount itself. What the network answers is a parameter: a stream for
-- each kind of read, indexed by the number of awaits before it.
pub mod Hiding
pub mod Funding
pub mod Pending
pub mod Exit
pub mod Tests
use anqa_core.Common.{
  ℕ, zero, suc, ◌+◌, ◌-◌, ◌≤◌, Bool, true, false, not, ◌&&◌, ◌||◌, Option, none, some, List, [],
  ◌∷◌, ltb, leb, ◌==◌, if◌then◌else◌,
}
use anqa_core.Common.Int.{ℤ, pos, pos_part, neg_part, sub_ℕ, ◌+ℤ◌, ◌-ℤ◌, ltb_ℤ, leb_ℤ}
use anqa_core.Common.Async.{Async, Result, ok, err, pure, throw, ◌>>=◌, ◌>>◌}
use anqa_core.Portfolio.{KernelPosition, KernelState, read_kernel, equity}

-- `need` of a market that is set up.
pub record Need : Type 0 where
  pub opens : Bool
  pub deposits : Bool
  pub delegates : Bool
  pub grants : Bool
  pub permits : Bool

-- A transaction that was submitted, landed or not.
pub data Sent : Type 0 where
  setup : ℕ → Need → Sent
  claim : Sent
  permission : Sent
  undelegate : Sent
  delegate : Sent
  request_withdraw : ℕ → Sent
  authorize_withdraw : Sent
  settle_withdraw : Sent
  close_position : ℕ → Sent

pub data Failure : Type 0 where
  rejected : Failure
  pending_credit : ℕ → Failure
  credit_lagging : Failure
  withdrawal_slow : Failure
  not_settled : Failure

-- A portfolio as the rollup shows it.
pub record Account : Type 0 where
  pub claimed_high_water : ℕ
  pub inner : List ℕ

-- The owner of an account on base layer.
pub data Holder : Type 0 where
  program : Holder
  delegation_program : Holder
  other : Holder

-- What the `n`th await is answered, if it is of that kind; `none` is a failed read, or an account
-- that is not there; what the code does where a read throws is in each read below. `rejects` says
-- that a submitted transaction throws, `unreadable` that a read of the receipt does.
pub record Net : Type 0 where
  pub portfolio : ℕ → Option Account
  pub ledger : ℕ → Option ℕ
  pub is_private : ℕ → Bool
  pub holder : ℕ → Option Holder
  pub rejects : ℕ → Bool
  pub unreadable : ℕ → Bool

-- The number of awaits so far, what has been submitted, the last one first, and whether the owner
-- is in `hiddenThisSession`.
pub record Session : Type 0 where
  pub awaits : ℕ
  pub log : List Sent
  pub hidden : Bool

abbrev pub Act : Type 0 → Type 0
Act = Async Session Failure

abbrev pub read : {A : Type 0} → (ℕ → A) → Act A
read f s = (ok (f s.awaits), record s { awaits = s.awaits + 1 })

abbrev pub send : Net → Sent → Act (Unit {0})
send net e s = (
  if net.rejects s.awaits then err rejected else ok tt,
  record s { awaits = s.awaits + 1; log = e ∷ s.log },
)

-- `send` whose failure is swallowed, or which is not awaited at all.
abbrev pub send_quietly : Sent → Act (Unit {0})
send_quietly e s = (ok tt, record s { awaits = s.awaits + 1; log = e ∷ s.log })

abbrev pub hide : Act (Unit {0})
hide s = (ok tt, record s { hidden = true })

abbrev pub dollar : ℕ
dollar = 1_000_000

-- `collateralOf`, of one answer.
unfoldable pub collateral_seen : Option Account → ℤ
collateral_seen none = pos 0
collateral_seen (some pf) = equity (read_kernel pf.inner)

-- `uncredited`, of the two answers that it reads: nothing where the ledger cannot be read,
-- everything that was deposited where the portfolio cannot.
unfoldable pub uncredited_seen : Option ℕ → Option Account → ℕ
uncredited_seen none pf = 0
uncredited_seen (some deposited) none = deposited
uncredited_seen (some deposited) (some pf) = deposited - pf.claimed_high_water

pub data PrivacyResult : Type 0 where
  private : PrivacyResult
  failed : PrivacyResult

abbrev pub is_delegated : Option Holder → Bool
is_delegated (some delegation_program) = true
is_delegated _ = false

abbrev pub is_home : Option Holder → Bool
is_home none = false
is_home (some delegation_program) = false
is_home (some _) = true

-- `shortfall`, of which at least 0 is deposited.
abbrev pub shortfall_of : ℕ → ℤ → ℤ
shortfall_of usd already = pos usd -ℤ already

-- The setup transaction: what is deposited, and what else it carries.
abbrev pub setup_for : ℕ → Need → ℤ → Bool → Sent
setup_for usd need already hidden = setup (pos_part (shortfall_of usd already)) (record need {
  deposits = ltb_ℤ (pos dollar) (shortfall_of usd already);
  permits = need.delegates && not hidden;
})

-- `k.positions.some((x) => x.assetIndex === assetIndex)`
unfoldable pub holds_asset : ℕ → List KernelPosition → Bool
holds_asset idx [] = false
holds_asset idx (p ∷ ps) = (p.asset_index == idx) || holds_asset idx ps

unfoldable pub is_flat : ℕ → Option Account → Bool
unfolding holds_asset
is_flat idx none = false
is_flat idx (some pf) = not (holds_asset idx (read_kernel pf.inner).positions)

module _ (net : Net) where
  unfoldable pub collateral_of : Act ℤ
  collateral_of = read (λ t. collateral_seen (net.portfolio t))

  -- The second read is not made where the first one failed.
  unfoldable pub uncredited : Act ℕ
  uncredited s = elim (net.ledger s.awaits) [
    | none ↦ (ok 0, record s { awaits = s.awaits + 1 })
    | some deposited ↦ (
      ok (uncredited_seen (some deposited) (net.portfolio (s.awaits + 1))),
      record s { awaits = s.awaits + 2 },
    )
  ]

  -- A poll of at most `k` rounds that ends when a read passes the test.
  unfoldable pub poll : {A : Type 0} → (ℕ → A) → (A → Bool) → ℕ → Act Bool
  poll f test zero s = (ok false, s)
  poll f test (suc k) s =
      let more = poll f test k (record s { awaits = s.awaits + 1 }) in
      if test (f s.awaits) then (ok true, record s { awaits = s.awaits + 1 }) else more

  -- `try { await m } catch { … }`, as whether it went through.
  abbrev pub attempt : Act (Unit {0}) → Act Bool
  attempt m s = let (r, s') = m s in elim r [ ok _ ↦ (ok true, s') | err _ ↦ (ok false, s') ]

  abbrev pub conclude : Bool → Act PrivacyResult
  conclude true = hide >> pure private
  conclude false = pure failed

  abbrev pub after_permission : Bool → Act PrivacyResult
  after_permission true = poll net.is_private (λ b. b) 8 >>= conclude
  after_permission false = pure failed

  abbrev pub ensure_visible : Bool → Act PrivacyResult
  ensure_visible true = conclude true
  ensure_visible false = attempt (send net permission) >>= after_permission

  unfoldable pub ensure_portfolio_private : Act PrivacyResult
  ensure_portfolio_private s = elim s.hidden [
    | true ↦ (ok private, s)
    | false ↦ (read net.is_private >>= ensure_visible) s
  ]

  abbrev pub return_to_rollup : Bool → Act PrivacyResult
  return_to_rollup true = do
    send net delegate
    back ← poll net.holder is_delegated 20
    conclude back
  return_to_rollup false = pure failed

  abbrev pub permit_at_home : Bool → Act PrivacyResult
  permit_at_home true = do
    send net permission
    _ ← poll net.is_private (λ b. b) 10
    sure ← read net.is_private
    return_to_rollup sure
  permit_at_home false = pure failed

  abbrev pub bring_home : Bool → Act Bool
  bring_home true = do send net undelegate; poll net.holder is_home 30
  bring_home false = pure true

  abbrev pub migrate_from : Option Holder → Act PrivacyResult
  migrate_from none = pure failed
  migrate_from (some h) = bring_home (is_delegated (some h)) >>= permit_at_home

  abbrev pub migrate_visible : Bool → Act PrivacyResult
  migrate_visible true = conclude true
  migrate_visible false = read net.holder >>= migrate_from

  unfoldable pub migrate_to_private : Act PrivacyResult
  migrate_to_private = read net.is_private >>= migrate_visible

  -- `claim()` of `fundMarket`: nothing without a rollup connection, and no failure is seen.
  abbrev pub claim_once : Bool → Act (Unit {0})
  claim_once true = send_quietly claim
  claim_once false = pure tt

  -- `for (…8…) { if (await uncredited <= 1) break; }`
  unfoldable pub await_credit : ℕ → Act (Unit {0})
  unfolding uncredited
  await_credit zero s = (ok tt, s)
  await_credit (suc k) s =
      let (r, s') = uncredited s in
      let more = await_credit k s' in
      elim r [ ok left ↦ if leb left dollar then (ok tt, s') else more | err e ↦ (err e, s') ]

  abbrev pub judge_pending : ℕ → Act ℤ
  judge_pending still = if ltb dollar still then throw (pending_credit still) else collateral_of

  -- A deposit that is on its way: recover it, and submit nothing new.
  unfoldable pub recover_pending : Bool → Act ℤ
  recover_pending has_er = do
    claim_once has_er
    await_credit 8
    still ← uncredited
    judge_pending still

  -- The last loop: claim and look, until the collateral covers `usd` but for a dollar.
  unfoldable pub await_margin : Bool → ℕ → ℕ → Act (Option ℤ)
  await_margin has_er usd zero = pure none
  await_margin has_er usd (suc k) = do
    claim_once has_er
    now ← collateral_of
    if leb_ℤ (pos usd) (now +ℤ pos dollar) then pure (some now) else await_margin has_er usd k

  -- After the deposit.
  unfoldable pub settle_margin : Bool → ℕ → Option ℤ → Act ℤ
  settle_margin has_er usd (some now) = pure now
  settle_margin has_er usd none = do
    settled ← collateral_of
    if ltb_ℤ (settled +ℤ pos dollar) (pos usd) then throw credit_lagging else pure settled

  -- `await portfolioIsPrivate`, asked only where the account is about to be delegated.
  unfoldable pub already_hidden : Need → Act Bool
  already_hidden need = if need.delegates then read net.is_private else pure true

  -- After the setup transaction.
  unfoldable pub after_setup : Bool → ℕ → ℤ → Act ℤ
  after_setup has_er usd already =
      if leb_ℤ (shortfall_of usd already) (pos dollar)
      then pure already
      else (await_margin has_er usd 10 >>= settle_margin has_er usd)

  -- The setup transaction and what follows it.
  unfoldable pub top_up : Bool → ℕ → Need → ℤ → Act ℤ
  top_up has_er usd need already = do
    hidden ← already_hidden need
    send net (setup_for usd need already hidden)
    after_setup has_er usd already

  -- The part after the checks for a pending deposit.
  unfoldable pub fund_shortfall : Bool → ℕ → Need → Act ℤ
  fund_shortfall has_er usd need = do
    already ← collateral_of
    if leb_ℤ (shortfall_of usd already) (pos dollar)
          && not (need.opens || (need.delegates || need.grants))
        then pure already
        else top_up has_er usd need already

  -- `!need.open && (await uncredited(…))`
  unfoldable pub ask_uncredited : Need → Act ℕ
  ask_uncredited need = if need.opens then pure 0 else uncredited

  unfoldable pub fund_checked : Bool → ℕ → Need → Act ℤ
  fund_checked has_er usd need = do
    left ← ask_uncredited need
    if ltb dollar left then recover_pending has_er else fund_shortfall has_er usd need

  -- `fundMarket`; `has_er` says that there is a rollup connection.
  unfoldable pub fund_market : Bool → ℕ → Need → Act ℤ
  fund_market has_er usd need =
      if need.opens || (need.delegates || need.grants) then fund_checked has_er usd need else (do
        funded ← collateral_of
        if leb_ℤ (pos usd) (funded +ℤ pos dollar)
            then pure funded
            else fund_checked has_er usd need)

  -- `conn.getAccountInfo(receipt)`, which is not caught.
  abbrev pub look : Act (Option Holder)
  look s = (
    if net.unreadable s.awaits then err rejected else ok (net.holder s.awaits),
    record s { awaits = s.awaits + 1 },
  )

  -- The poll of `defundMarket`: gone, home, or `k` rounds.
  unfoldable pub await_receipt : ℕ → Act (Unit {0})
  await_receipt zero = throw withdrawal_slow
  await_receipt (suc k) = do
    info ← look
    elim info [
      | none ↦ pure tt
      | some program ↦ send net settle_withdraw
      | some delegation_program ↦ await_receipt k
      | some other ↦ await_receipt k
    ]

  -- `defundMarket`; `usd <= 0.01` is 10,000 atoms. The race with the timer: a rejection of the
  -- authorisation is thrown, where it comes before the timer.
  unfoldable pub defund_market : ℕ → Act (Unit {0})
  defund_market usd = do
    if leb usd 10_000
        then pure tt
        else (do send net (request_withdraw usd); send net authorize_withdraw; await_receipt 40)

  unfoldable pub close_and_sweep : ℕ → ℕ → Act (Unit {0})
  close_and_sweep worst idx = do
    send net (close_position worst)
    flat ← poll net.portfolio (is_flat idx) 24
    if flat then pure tt else throw not_settled
