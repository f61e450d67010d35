-- ===== src/Actions/Setup.antt =====
-- What `setupMarket` of web/lib/actions.ts sends, and in which order.
use Prim.Native.String.{String}
use anqa_core.Common.{ℕ, Bool, true, false, List, [], ◌∷◌, ◌++◌, if◌then◌else◌, map, ◌≡◌, refl, ap}
use anqa_core.Actions.{
  Key, Ctx, Instruction, Need, open_account, open_portfolio, initialize_ledger,
  permission_portfolio, deposit, delegate_portfolio, grant_session, float_fees, setup_market,
}

-- The timetable: every instruction there is, in order, with the need that asks for it.
abbrev pub timetable : Need → List (String × Bool)
timetable need =
    ("openPortfolio", need.opens)
    ∷ ("initializeLedger", need.opens)
    ∷ ("deposit", need.deposits)
    ∷ ("createPortfolioPermission", need.permits)
    ∷ ("delegatePortfolio", need.delegates)
    ∷ ("grantSession", need.grants)
    ∷ ("transfer", need.grants)
    ∷ []

abbrev pub called_for : List (String × Bool) → List String
called_for [] = []
called_for ((n, b) ∷ rest) = if b then n ∷ called_for rest else called_for rest

abbrev pub names : List Instruction → List String
names = map (λ ix. ix.name)

last_pair :
    (t : Bool) (a b : Instruction)
    → names (if t then a ∷ b ∷ [] else []) ≡ called_for ((a.name, t) ∷ (b.name, t) ∷ [])
last_pair true a b = refl
last_pair false a b = refl

single :
    (t : Bool) (a : Instruction) (ixs : List Instruction) (rest : List (String × Bool))
    → names ixs ≡ called_for rest
    → names ((if t then a ∷ [] else []) ++ ixs) ≡ called_for ((a.name, t) ∷ rest)
single true a ixs rest e = ap (λ ns. a.name ∷ ns) e
single false a ixs rest e = e

pair :
    (t : Bool) (a b : Instruction) (ixs : List Instruction) (rest : List (String × Bool))
    → names ixs ≡ called_for rest
    → names ((if t then a ∷ b ∷ [] else []) ++ ixs) ≡ called_for ((a.name, t) ∷ (b.name, t) ∷ rest)
pair true a b ixs rest e = ap (λ ns. a.name ∷ b.name ∷ ns) e
pair false a b ixs rest e = e

-- The names of the instructions that `setup_market` sends are the timetable's that are asked for, in
-- the timetable's order: in particular the permission comes before the delegation, and the
-- deposit after the account is opened. So the transaction is empty exactly when nothing is needed.
pub setup_market-timetable :
    (c : Ctx) (mint atoms : ℕ) (key : Key) (duration : ℕ) (need : Need)
    → names (setup_market c mint atoms key duration need) ≡ called_for (timetable need)
unfolding setup_market open_account open_portfolio initialize_ledger permission_portfolio deposit
    delegate_portfolio grant_session float_fees
setup_market-timetable c mint atoms key duration need =
    let r4 = ("grantSession", need.grants) ∷ ("transfer", need.grants) ∷ [] in
    let r3 = ("delegatePortfolio", need.delegates) ∷ r4 in
    let r2 = ("createPortfolioPermission", need.permits) ∷ r3 in
    let r1 = ("deposit", need.deposits) ∷ r2 in
    let granted = last_pair need.grants _ _ in
    let delegated = single need.delegates _ _ r4 granted in
    let permitted = single need.permits _ _ r3 delegated in
    let deposited = single need.deposits _ _ r2 permitted in pair need.opens _ _ _ r1 deposited
