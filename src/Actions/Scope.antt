-- ===== src/Actions/Scope.antt =====
-- Whose accounts the instructions of web/lib/actions.ts name: what depends on the market that is
-- selected, and what on the key that signs.
use Prim.Native.String.{String}
use anqa_core.Common.{ℕ, Option, List, [], ◌∷◌, map, ◌≡◌, refl}
use anqa_core.Actions.{
  Key, Ctx, Arg, Instruction, delegate_portfolio, permission_portfolio, open_portfolio,
}
use anqa_core.Actions.Trading.{
  Side, OrderArgs, TriggerArgs, place_order, cancel_order, cancel_all, close_position,
  add_collateral, remove_collateral, place_trigger, cancel_trigger,
}
use anqa_core.Actions.Custody.{
  request_withdraw, authorize_withdraw, settle_withdraw, undelegate_portfolio,
}

-- The context of a one-click session and the owner's own, on another market.
abbrev pub on_market : Ctx → ℕ → Ctx
on_market c id = record {
  market_id = id;
  group_id = c.group_id;
  owner = c.owner;
  trader = c.trader;
  session = c.session;
}

abbrev pub signed_by : Ctx → Option Key → Option Key → Ctx
signed_by c trader session = record {
  market_id = c.market_id;
  group_id = c.group_id;
  owner = c.owner;
  trader = trader;
  session = session;
}

-- Custody is the hub's: the account opened and hidden, its delegation and its return, and
-- the three legs of a withdrawal are the same instructions whichever market is selected and
-- whichever key signs for the session.
pub custody-hub_scoped :
    (c : Ctx) (id : ℕ) (trader session : Option Key) (mint amount : ℕ)
    → let d = signed_by (on_market c id) trader session in
      (open_portfolio d ≡ open_portfolio c)
      × (permission_portfolio d ≡ permission_portfolio c)
      × (delegate_portfolio d ≡ delegate_portfolio c)
      × (undelegate_portfolio d ≡ undelegate_portfolio c)
      × (request_withdraw d mint amount ≡ request_withdraw c mint amount)
      × (authorize_withdraw d ≡ authorize_withdraw c)
      × (settle_withdraw d mint ≡ settle_withdraw c mint)
unfolding open_portfolio permission_portfolio delegate_portfolio undelegate_portfolio
    request_withdraw authorize_withdraw settle_withdraw
custody-hub_scoped c id trader session mint amount = (refl, refl, refl, refl, refl, refl, refl)

-- What an instruction names after its first two accounts, the signer and the session.
abbrev pub beyond_signer : Instruction → String × (List Arg × List (String × Key))
beyond_signer ix = (ix.name, (ix.args, without_two ix.accounts))
  where
    without_two : List (String × Key) → List (String × Key)
    without_two (a ∷ b ∷ rest) = rest
    without_two _ = []

-- Signing with a session key changes nothing else: each of the eight instructions that trade,
-- cancel, move collateral or arm a trigger acts on the same accounts with the same arguments,
-- the owner's portfolio among them, whichever key signs and whichever session it names.
pub trading-keeps_accounts :
    (c : Ctx) (trader session : Option Key) (order : OrderArgs) (trigger : TriggerArgs)
    (side : Side) (n m : ℕ) (makers : List Key)
    → let d = signed_by c trader session in
      let same = λ (xs ys : List Instruction). map beyond_signer xs ≡ map beyond_signer ys in
      same (place_order d order) (place_order c order)
      × same (cancel_order d side n) (cancel_order c side n)
      × same (cancel_all d) (cancel_all c)
      × same (close_position d n m makers) (close_position c n m makers)
      × same (add_collateral d n) (add_collateral c n)
      × same (remove_collateral d n) (remove_collateral c n)
      × same (place_trigger d trigger) (place_trigger c trigger)
      × same (cancel_trigger d n) (cancel_trigger c n)
unfolding place_order cancel_order cancel_all close_position add_collateral remove_collateral
    place_trigger cancel_trigger
trading-keeps_accounts c trader session order trigger side n m makers =
    (refl, refl, refl, refl, refl, refl, refl, refl)
