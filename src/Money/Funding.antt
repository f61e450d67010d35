-- ===== src/Money/Funding.antt =====
-- Funding a market: how many transactions one call submits, and what its result covers.
use mathlib.Core.Path.{subst, ap, ◌∙◌}
use anqa_core.Common.{
  ℕ, zero, suc, ◌+◌, ◌<◌, ◌≤◌, ◌≡◌, ◌⊎◌, inl, inr, refl, Bool, true, false, not, ◌&&◌, ◌||◌, Option,
  none, some, List, [], ◌∷◌, ltb, leb→le, ltb→ge, if◌then◌else◌, arith, Bool-cases, Option-cases,
}
use anqa_core.Common.Int.{ℤ, pos, ◌+ℤ◌, ◌≤ℤ◌, ltb_ℤ, leb_ℤ, int_laws}
use anqa_core.Common.Async.{Result, ok, err, >>=-cases, ◌>>=◌, ◌>>◌}
use anqa_core.Money.{
  Net, Need, Sent, setup, claim, Session, Failure, dollar, send, collateral_of, collateral_seen,
  uncredited, await_credit, recover_pending, judge_pending, await_margin, settle_margin,
  shortfall_of, setup_for, already_hidden, after_setup, top_up, fund_shortfall, fund_checked,
  fund_market, ask_uncredited,
}

-- How many setup transactions were submitted.
unfoldable pub setups : List Sent → ℕ
setups [] = 0
setups (setup _ _ ∷ es) = suc (setups es)
setups (_ ∷ es) = setups es

-- The collateral covers `usd` but for a dollar.
abbrev pub Covers : ℕ → ℤ → Type 0
Covers usd v = pos usd ≤ℤ v +ℤ pos dollar

-- The collateral that one of the last `late` awaits of a session was shown.
abbrev pub Shown : Net → ℕ → ℤ → Session → Type 0
Shown net late v s =
    (t : ℕ) × (v ≡ collateral_seen (net.portfolio t)) × (t < s.awaits) × (s.awaits ≤ t + late)

module _ (net : Net) (usd : ℕ) where
  abbrev CoversSome : Result Failure (Option ℤ) → Session → Type 0
  CoversSome (ok none) s = Unit
  CoversSome (ok (some v)) s = Covers usd v × Shown net 3 v s
  CoversSome (err _) s = Unit

  abbrev pub CoversOk : Result Failure ℤ → Session → Type 0
  CoversOk (ok v) s = Covers usd v × Shown net 3 v s
  CoversOk (err _) s = Unit

-- What one call has done from `s`: at most one more setup transaction, and a result that covers the
-- amount, but for a dollar, and was shown just before.
pub record IsFunded (net : Net) (usd : ℕ) (s : Session) (end : Result Failure ℤ × Session)
    : Type 0 where
  pub one_setup : setups end.1.log ≤ setups s.log + 1
  pub covered : CoversOk net usd end.0 end.1

Covers-small : (usd : ℕ) (v : ℤ) → leb_ℤ (shortfall_of usd v) (pos dollar) ≡ true → Covers usd v
Covers-small usd v h = omega (int_laws, leb→le _ _ h)

module _ (net : Net) where
  uncredited-same_log : (s : Session) → (uncredited net s).1.log ≡ s.log
  unfolding uncredited
  uncredited-same_log s = elim (Option-cases (net.ledger s.awaits)) [
    | inl e ↦ ground arith
    | inr (d, e) ↦ ground arith
  ]

  await_credit-same_log : (k : ℕ) (s : Session) → (await_credit net k s).1.log ≡ s.log
  unfolding await_credit
  await_credit-same_log zero s = refl
  await_credit-same_log (suc k) s = elim (Option-cases (net.ledger s.awaits)) [
    | inl e ↦ ground (arith, await_credit-same_log k (record s { awaits = s.awaits + 1 }))
    | inr (d, e) ↦ ground (arith, await_credit-same_log k (record s { awaits = s.awaits + 2 }))
  ]

  await_margin_lem :
      (has_er : Bool) (usd k : ℕ) (s : Session)
      → (setups (await_margin net has_er usd k s).1.log ≡ setups s.log)
        × CoversSome net usd (await_margin net has_er usd k s).0 (await_margin net has_er usd k s).1
  unfolding await_margin setups collateral_of
  await_margin_lem has_er usd zero s = (refl, tt)
  await_margin_lem true usd (suc k) s =
      let v = collateral_seen (net.portfolio (s.awaits + 1)) in
      let ih =
        await_margin_lem true usd k (record s { awaits = s.awaits + 1 + 1; log = claim ∷ s.log }) in
      elim (Bool-cases (leb_ℤ (pos usd) (v +ℤ pos dollar))) [
        | inl enough ↦
            rw enough (refl, (leb→le _ _ enough, (s.awaits + 1, refl, omega arith, omega arith)))
        | inr short ↦ rw short ih
      ]
  await_margin_lem false usd (suc k) s =
      let v = collateral_seen (net.portfolio s.awaits) in
      let ih = await_margin_lem false usd k (record s { awaits = s.awaits + 1 }) in
      elim (Bool-cases (leb_ℤ (pos usd) (v +ℤ pos dollar))) [
        | inl enough ↦
            rw enough (refl, (leb→le _ _ enough, (s.awaits, refl, omega arith, omega arith)))
        | inr short ↦ rw short ih
      ]

  settle_margin_lem :
      (has_er : Bool) (usd : ℕ) (o : Option ℤ) (s : Session)
      → CoversSome net usd (ok o) s
      → ((settle_margin net has_er usd o s).1.log ≡ s.log)
        × CoversOk net usd (settle_margin net has_er usd o s).0 (settle_margin net has_er usd o s).1
  unfolding settle_margin collateral_of
  settle_margin_lem has_er usd (some now) s h = (refl, h)
  settle_margin_lem has_er usd none s h =
      let v = collateral_seen (net.portfolio s.awaits) in
      elim (Bool-cases (ltb_ℤ (v +ℤ pos dollar) (pos usd))) [
        | inl short ↦ rw short (refl, tt)
        | inr enough ↦
            rw enough (refl, (ltb→ge _ _ enough, (s.awaits, refl, omega arith, omega arith)))
      ]

  after_setup_lem :
      (has_er : Bool) (usd : ℕ) (already : ℤ) (s : Session)
      → Shown net 3 already s
      → (setups (after_setup net has_er usd already s).1.log ≡ setups s.log)
        × CoversOk net usd
            (after_setup net has_er usd already s).0
            (after_setup net has_er usd already s).1
  unfolding after_setup
  after_setup_lem has_er usd already s shown =
      let waited = await_margin_lem has_er usd 10 s in
      elim (Bool-cases (leb_ℤ (shortfall_of usd already) (pos dollar))) [
        | inl small ↦ rw small (refl, (Covers-small usd already small, shown))
        | inr large ↦ rw large (
            >>=-cases (λ end. (setups end.1.log ≡ setups s.log) × CoversOk net usd end.0 end.1)
              (await_margin net has_er usd 10) (settle_margin net has_er usd) s
              (λ e h. (waited.0, tt))
              (λ o h.
                let done = settle_margin_lem has_er usd o (await_margin net has_er usd 10 s).1 (
                  subst (λ r. CoversSome net usd r (await_margin net has_er usd 10 s).1) h
                    waited.1) in
                (ap setups done.0 ∙ waited.0, done.1)))
      ]

  already_hidden-same_log : (need : Need) (s : Session) → (already_hidden net need s).1.log ≡ s.log
  unfolding already_hidden
  already_hidden-same_log need s = elim (Bool-cases need.delegates) [
    | inl e ↦ rw e refl
    | inr e ↦ rw e refl
  ]

  already_hidden-awaits :
      (need : Need) (s : Session)
      → (s.awaits ≤ (already_hidden net need s).1.awaits)
        × ((already_hidden net need s).1.awaits ≤ s.awaits + 1)
  unfolding already_hidden
  already_hidden-awaits need s = elim (Bool-cases need.delegates) [
    | inl e ↦ rw e (omega arith, omega arith)
    | inr e ↦ rw e (omega arith, omega arith)
  ]

  pub ask_uncredited-same_log :
      (need : Need) (s : Session) → (ask_uncredited net need s).1.log ≡ s.log
  unfolding ask_uncredited
  ask_uncredited-same_log need s = elim (Bool-cases need.opens) [
    | inl e ↦ rw e refl
    | inr e ↦ rw e (uncredited-same_log s)
  ]

  top_up-IsFunded :
      (has_er : Bool) (usd : ℕ) (need : Need) (already : ℤ) (s : Session)
      → Shown net 1 already s
      → IsFunded net usd s (top_up net has_er usd need already s)
  unfolding setups top_up
  top_up-IsFunded has_er usd need already s (t, e, after, before) =
      let s1 = (already_hidden net need s).1 in
      let (low, high) = already_hidden-awaits need s in
      let same = ap setups (already_hidden-same_log need s) in
      >>=-cases (IsFunded net usd s) (already_hidden net need)
        (λ hidden.
          send net (setup_for usd need already hidden) >> after_setup net has_er usd already)
        s (λ e h. record { one_setup = omega (arith, same); covered = tt })
        (λ hidden h.
          >>=-cases (IsFunded net usd s) (send net (setup_for usd need already hidden))
            (λ _. after_setup net has_er usd already) s1
            (λ e h. record { one_setup = omega (arith, same); covered = tt })
            (λ _ h.
              let s2 : Session = (send net (setup_for usd need already hidden) s1).1 in
              let done = after_setup_lem has_er usd already s2 (t, e, omega arith, omega arith) in
              record { one_setup = omega (arith, same, done.0); covered = done.1 }))

  -- The part of a recovery after the claim.
  check_pending :
      (s : Session)
      → let end = (await_credit net 8 >> (uncredited net >>= judge_pending net)) s in
        end.1.log ≡ s.log
  unfolding collateral_of
  check_pending s =
      let polled = await_credit-same_log 8 s in
      let s1 = (await_credit net 8 s).1 in
      let end = λ (e : Result Failure ℤ × Session). e.1.log ≡ s.log in
      >>=-cases end (await_credit net 8) (λ _. uncredited net >>= judge_pending net) s
        (λ e h. polled)
        (λ _ h.
          >>=-cases end (uncredited net) (judge_pending net) s1
            (λ e h. uncredited-same_log s1 ∙ polled)
            (λ left h. judged left (uncredited net s1).1 ∙ uncredited-same_log s1 ∙ polled))
    where
      judged : (left : ℕ) (t : Session) → (judge_pending net left t).1.log ≡ t.log
      judged left t = elim (Bool-cases (ltb dollar left)) [ inl e ↦ rw e refl | inr e ↦ rw e refl ]

  -- A recovery submits nothing but a claim.
  pub recover_pending_lem :
      (has_er : Bool) (s : Session) → setups (recover_pending net has_er s).1.log ≡ setups s.log
  unfolding setups recover_pending
  recover_pending_lem true s =
      ap setups (check_pending (record s { awaits = s.awaits + 1; log = claim ∷ s.log }))
  recover_pending_lem false s = ap setups (check_pending s)

-- The result of a whole call. One that is neither a recovery nor a failure covers the amount.
pub record IsCall (net : Net) (usd : ℕ) (s : Session) (end : Result Failure ℤ × Session)
    : Type 0 where
  pub one_setup : setups end.1.log ≤ setups s.log + 1
  pub covered : (setups end.1.log ≡ setups s.log) ⊎ CoversOk net usd end.0 end.1

module _ (net : Net) where
  fund_shortfall-IsCall :
      (has_er : Bool) (usd : ℕ) (need : Need) (s : Session)
      → IsCall net usd s (fund_shortfall net has_er usd need s)
  unfolding fund_shortfall collateral_of
  fund_shortfall-IsCall has_er usd need s =
      let v = collateral_seen (net.portfolio s.awaits) in
      let topped =
        top_up-IsFunded net has_er usd need v (record s { awaits = s.awaits + 1 })
          (s.awaits, refl, omega arith, omega arith) in
      elim (Bool-cases (
        leb_ℤ (shortfall_of usd v) (pos dollar)
        && not (need.opens || (need.delegates || need.grants)))) [
          | inl e ↦ rw e (record { one_setup = omega arith; covered = inl refl })
          | inr e ↦ rw e (record { one_setup = topped.one_setup; covered = inr topped.covered })
        ]

  fund_checked-IsCall :
      (has_er : Bool) (usd : ℕ) (need : Need) (s : Session)
      → IsCall net usd s (fund_checked net has_er usd need s)
  unfolding fund_checked
  fund_checked-IsCall has_er usd need s =
      let s1 = (ask_uncredited net need s).1 in
      let same = ap setups (ask_uncredited-same_log net need s) in
      >>=-cases (IsCall net usd s) (ask_uncredited net need)
        (λ left.
          if ltb dollar left
          then recover_pending net has_er
          else fund_shortfall net has_er usd need)
        s (λ e h. record { one_setup = omega (arith, same); covered = inl same })
        (λ left h. elim (Bool-cases (ltb dollar left)) [
          | inl e ↦
              let r = recover_pending_lem net has_er s1 in
              rw e (record { one_setup = omega (arith, r, same); covered = inl (r ∙ same) })
          | inr e ↦
              let c = fund_shortfall-IsCall has_er usd need s1 in
              rw e (record {
                one_setup = omega (arith, c.one_setup, same);
                covered = rw same at c.covered;
              })
        ])

  -- One call of `fundMarket` submits at most one setup transaction, so at most one deposit; and if
  -- it has submitted one and returns, what it returns is the collateral that one of its last three
  -- awaits was shown, and covers the amount, but for a dollar.
  pub fund_market-IsCall :
      (has_er : Bool) (usd : ℕ) (need : Need) (s : Session)
      → IsCall net usd s (fund_market net has_er usd need s)
  unfolding fund_market collateral_of
  fund_market-IsCall has_er usd need s =
      let v = collateral_seen (net.portfolio s.awaits) in
      elim (Bool-cases (need.opens || (need.delegates || need.grants))) [
        | inl e ↦ rw e (fund_checked-IsCall has_er usd need s)
        | inr e ↦ elim (Bool-cases (leb_ℤ (pos usd) (v +ℤ pos dollar))) [
          | inl rich ↦ rw (e, rich) (record { one_setup = omega arith; covered = inl refl })
          | inr poor ↦
              let c = fund_checked-IsCall has_er usd need (record s { awaits = s.awaits + 1 }) in
              rw (e, poor) (record { one_setup = c.one_setup; covered = c.covered })
        ]
      ]
