-- ===== src/Money/Pending.antt =====
-- Funding a market while an earlier deposit is still on its way.
use mathlib.Core.Path.{sym, ap, ◌∙◌}
use anqa_core.Common.{
  ℕ, zero, suc, ◌+◌, ◌<◌, ◌≡◌, ◌⊎◌, inl, inr, refl, Bool, true, false, ◌||◌, some, ◌∷◌, ltb, leb→le,
  lt→ltb, if◌then◌else◌, arith, Bool-cases,
}
use anqa_core.Common.Int.{ℤ, pos, ◌+ℤ◌, leb_ℤ}
use anqa_core.Common.Async.{Result, ok, err, >>=-cases, ◌>>=◌, ◌>>◌}
use anqa_core.Money.{
  Net, Need, claim, Session, Failure, pending_credit, dollar, collateral_of, collateral_seen,
  uncredited, uncredited_seen, await_credit, recover_pending, judge_pending, fund_shortfall,
  fund_checked, fund_market, ask_uncredited,
}
use anqa_core.Money.Funding.{setups, Covers, ask_uncredited-same_log, recover_pending_lem}

seen_same : (a b : ℕ) → ◌≡◌ {A = Result Failure ℕ} (ok a) (ok b) → a ≡ b
seen_same a b h = cc

-- At every moment the ledger shows a deposit, of which more than a dollar is not credited.
abbrev pub PendingAlways : Net → Type 0
PendingAlways net =
    (t : ℕ)
    → (d : ℕ) × (net.ledger t ≡ some d)
      × (dollar < uncredited_seen (some d) (net.portfolio (t + 1)))

-- The call fails with what is not credited yet.
abbrev pub Refused : Result Failure ℤ × Session → Type 0
Refused end = (left : ℕ) × (end.0 ≡ err (pending_credit left)) × (dollar < left)

abbrev pub NothingSent : Session → Result Failure ℤ × Session → Type 0
NothingSent s end = (setups end.1.log ≡ setups s.log) × Refused end

-- The account needs nothing, and the first read shows enough.
pub record IsRich (net : Net) (usd : ℕ) (need : Need) (s : Session)
    (end : Result Failure ℤ × Session) : Type 0 where
  pub nothing : (need.opens || (need.delegates || need.grants)) ≡ false
  pub covers : Covers usd (collateral_seen (net.portfolio s.awaits))
  pub at_once :
      end ≡ (ok (collateral_seen (net.portfolio s.awaits)), record s { awaits = s.awaits + 1 })

module _ (net : Net) (pending : PendingAlways net) where
  uncredited_pending :
      (s : Session) → (left : ℕ) × ((uncredited net s).0 ≡ ok left) × (dollar < left)
  unfolding uncredited
  uncredited_pending s =
      let (d, e, more) = pending s.awaits in
      (uncredited_seen (some d) (net.portfolio (s.awaits + 1)), ground arith, more)

  await_credit-ok : (k : ℕ) (s : Session) → (await_credit net k s).0 ≡ ok tt
  unfolding await_credit
  await_credit-ok zero s = refl
  await_credit-ok (suc k) s =
      let (d, e, more) = pending s.awaits in
      ground (arith, await_credit-ok k (record s { awaits = s.awaits + 2 }))

  check_pending-Refused :
      (s : Session) → Refused ((await_credit net 8 >> (uncredited net >>= judge_pending net)) s)
  check_pending-Refused s =
      let s1 = (await_credit net 8 s).1 in
      let (left, e, more) = uncredited_pending s1 in
      >>=-cases Refused (await_credit net 8) (λ _. uncredited net >>= judge_pending net) s
        (λ err_now h. absurd (cc (await_credit-ok 8 s)))
        (λ _ h.
          >>=-cases Refused (uncredited net) (judge_pending net) s1 (λ err_now h'. absurd (cc))
            (λ left' h'.
              let m : dollar < left' = omega (arith, more, seen_same left' left (sym h' ∙ e)) in
              (left', rw (lt→ltb dollar left' m) refl, m)))

  recover_pending-Refused : (has_er : Bool) (s : Session) → Refused (recover_pending net has_er s)
  unfolding recover_pending
  recover_pending-Refused true s =
      check_pending-Refused (record s { awaits = s.awaits + 1; log = claim ∷ s.log })
  recover_pending-Refused false s = check_pending-Refused s

  asked_pending :
      (need : Need) (s : Session)
      → need.opens ≡ false
      → (left : ℕ) × ((ask_uncredited net need s).0 ≡ ok left) × (dollar < left)
  unfolding ask_uncredited
  asked_pending need s closed = rw closed (uncredited_pending s)

  fund_checked-Refused :
      (has_er : Bool) (usd : ℕ) (need : Need) (s : Session)
      → need.opens ≡ false
      → NothingSent s (fund_checked net has_er usd need s)
  unfolding fund_checked
  fund_checked-Refused has_er usd need s closed =
      let s1 = (ask_uncredited net need s).1 in
      let same = ap setups (ask_uncredited-same_log net need s) in
      let (left, e, more) = asked_pending need s closed in
      >>=-cases (NothingSent s) (ask_uncredited net need)
        (λ left.
          if ltb dollar left
          then recover_pending net has_er
          else fund_shortfall net has_er usd need)
        s (λ err_now h. absurd (cc))
        (λ left' h'.
          let m : dollar < left' = omega (arith, more, seen_same left' left (sym h' ∙ e)) in
          rw (lt→ltb dollar left' m)
            (recover_pending_lem net has_er s1 ∙ same, recover_pending-Refused has_er s1))

  -- While a deposit of an account that is open is on its way, `fundMarket` takes no second one: if at
  -- every moment the ledger shows more than a dollar that is not credited, and the account need not be
  -- opened, it submits no setup transaction, and it fails with what is pending, unless the account
  -- needs nothing and the collateral that its first read shows covers the amount, but for a dollar:
  -- that is then the result of this one read.
  pub fund_market-pending :
      (has_er : Bool) (usd : ℕ) (need : Need) (s : Session)
      → need.opens ≡ false
      → let end = fund_market net has_er usd need s in
        (setups end.1.log ≡ setups s.log) × (Refused end ⊎ IsRich net usd need s end)
  unfolding fund_market collateral_of
  fund_market-pending has_er usd need s closed =
      let v = collateral_seen (net.portfolio s.awaits) in
      let c = fund_checked-Refused has_er usd need s closed in
      let c' = fund_checked-Refused has_er usd need (record s { awaits = s.awaits + 1 }) closed in
      elim (Bool-cases (need.opens || (need.delegates || need.grants))) [
        | inl e ↦ rw e (c.0, inl c.1)
        | inr e ↦ elim (Bool-cases (leb_ℤ (pos usd) (v +ℤ pos dollar))) [
          | inl rich ↦
              rw (e, rich)
                (refl, inr (record { nothing = e; covers = leb→le _ _ rich; at_once = refl }))
          | inr poor ↦ rw (e, poor) (c'.0, inl c'.1)
        ]
      ]
