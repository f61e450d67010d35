-- ===== src/Money/Exit.antt =====
-- Taking money out, and closing a position.
use anqa_core.Common.{
  ℕ, zero, suc, ◌+◌, ◌≤◌, ◌<◌, ◌≡◌, ◌⊎◌, inl, inr, refl, Bool, true, false, Option, none, some, ◌∷◌,
  leb, arith, Bool-cases,
}
use anqa_core.Common.Async.{>>=-cases, pure, Result, ok, err}
use anqa_core.Money.{
  send, Net, request_withdraw, authorize_withdraw, settle_withdraw, close_position, Session,
  Failure, Holder, program, delegation_program, other, rejected, await_receipt, look, defund_market,
  is_flat, close_and_sweep,
}
use anqa_core.Money.Hiding.{Observed, poll-IsPoll}

abbrev pub is_gone : Option Holder → Bool
is_gone none = true
is_gone (some _) = false

abbrev pub is_with_program : Option Holder → Bool
is_with_program (some program) = true
is_with_program _ = false

-- The end of a wait for the receipt: untouched, or paid out once it was seen at home.
abbrev Waited : Net → Session → Result Failure (Unit {0}) × Session → Type 0
Waited net s end =
    ((end.1.log ≡ s.log)
      ⊎ ((end.1.log ≡ settle_withdraw ∷ s.log) × Observed net.holder is_with_program))
    × (end.0 ≡ ok tt
        → ((end.1.log ≡ s.log) × Observed net.holder is_gone)
          ⊎ (end.1.log ≡ settle_withdraw ∷ s.log))

module _ (net : Net) where
  look-holder :
      (s : Session) (info : Option Holder) → (look net s).0 ≡ ok info → net.holder s.awaits ≡ info
  look-holder s info h = elim (Bool-cases (net.unreadable s.awaits)) [
    | inl lost ↦ ground arith
    | inr fine ↦ ground arith
  ]

  await_receipt-Waited : (k : ℕ) (s : Session) → Waited net s (await_receipt net k s)
  unfolding await_receipt
  await_receipt-Waited zero s = (inl refl, λ e. cc)
  await_receipt-Waited (suc k) s =
      >>=-cases (Waited net s) (look net) (on_look k) s (λ e h. (inl refl, λ done. cc))
        (λ info h.
          by_holder info (look-holder s info h)
            (await_receipt-Waited k (record s { awaits = s.awaits + 1 })))
    where
      on_look : ℕ → Option Holder → Session → Result Failure (Unit {0}) × Session
      on_look k info = elim info [
        | none ↦ pure tt
        | some program ↦ send net settle_withdraw
        | some delegation_program ↦ await_receipt net k
        | some other ↦ await_receipt net k
      ]

      by_holder :
          (info : Option Holder)
          → net.holder s.awaits ≡ info
          → Waited net s (await_receipt net k (record s { awaits = s.awaits + 1 }))
          → Waited net s (on_look k info (record s { awaits = s.awaits + 1 }))
      by_holder none e more =
          let seen : is_gone (net.holder s.awaits) ≡ true = rw e refl in
          (inl refl, λ done. inl (refl, ∣ (s.awaits, seen) ∣₁))
      by_holder (some program) e more =
          let seen : is_with_program (net.holder s.awaits) ≡ true = rw e refl in
          (inr (refl, ∣ (s.awaits, seen) ∣₁), λ done. inr refl)
      by_holder (some delegation_program) e more = more
      by_holder (some other) e more = more

-- What a withdrawal of more than a cent submits, from `s`, and what its success rests on.
abbrev pub Withdrawn : Net → ℕ → Session → Result Failure (Unit {0}) × Session → Type 0
Withdrawn net usd s end =
    ((end.1.log ≡ request_withdraw usd ∷ s.log)
      ⊎ ((end.1.log ≡ authorize_withdraw ∷ request_withdraw usd ∷ s.log)
          ⊎ ((end.1.log ≡ settle_withdraw ∷ authorize_withdraw ∷ request_withdraw usd ∷ s.log)
              × Observed net.holder is_with_program)))
    × (end.0 ≡ ok tt
        → ((end.1.log ≡ authorize_withdraw ∷ request_withdraw usd ∷ s.log)
            × Observed net.holder is_gone)
          ⊎ (end.1.log ≡ settle_withdraw ∷ authorize_withdraw ∷ request_withdraw usd ∷ s.log))

abbrev pub IsDefund : Net → ℕ → Session → Result Failure (Unit {0}) × Session → Type 0
IsDefund net usd s end =
    ((usd ≤ 10_000) × (end ≡ (ok tt, s))) ⊎ ((10_000 < usd) × Withdrawn net usd s end)

module _ (net : Net) where
  -- A withdrawal of a cent or less does nothing. Any other requests the amount once, then asks for the
  -- verdict, and pays out at most once, only after the receipt was seen back with the program; it
  -- reports success only if it has paid out, or the receipt was seen to be gone.
  pub defund_market-IsDefund :
      (usd : ℕ) (s : Session) → IsDefund net usd s (defund_market net usd s)
  unfolding defund_market
  defund_market-IsDefund usd s =
      let s2 : Session = record s {
        awaits = s.awaits + 1 + 1;
        log = authorize_withdraw ∷ request_withdraw usd ∷ s.log;
      } in
      let waited = await_receipt-Waited net 40 s2 in
      elim (Bool-cases (leb usd 10_000)) [
        | inl dust ↦ ground arith
        | inr real ↦ elim (Bool-cases (net.rejects s.awaits)) [
          | inl bad ↦ ground arith
          | inr sent ↦ elim (Bool-cases (net.rejects (s.awaits + 1))) [
            | inl bad ↦ ground arith
            | inr sent' ↦ ground (arith, waited)
          ]
        ]
      ]

  -- If the authorisation of a withdrawal is rejected, the call fails and never looks at the receipt:
  -- the request stands and nothing is paid out, even where the receipt has come home.
  pub defund_market-rejected :
      (usd : ℕ) (s : Session)
      → 10_000 < usd
      → net.rejects s.awaits ≡ false
      → net.rejects (s.awaits + 1) ≡ true
      → ((defund_market net usd s).0 ≡ err rejected)
        × ((defund_market net usd s).1.log ≡ authorize_withdraw ∷ request_withdraw usd ∷ s.log)
  unfolding defund_market
  defund_market-rejected usd s real sent bad = ground (arith, await_receipt-Waited net 40 s)

  -- Closing submits the close and nothing else, so no collateral goes to the wallet; it succeeds only
  -- if a read of the portfolio showed no position in the asset.
  pub close_and_sweep_lem :
      (worst idx : ℕ) (s : Session)
      → ((close_and_sweep net worst idx s).1.log ≡ close_position worst ∷ s.log)
        × ((close_and_sweep net worst idx s).0 ≡ ok tt → Observed net.portfolio (is_flat idx))
  unfolding close_and_sweep
  close_and_sweep_lem worst idx s =
      let polled =
        poll-IsPoll net net.portfolio (is_flat idx) 24
          (record s { awaits = s.awaits + 1; log = close_position worst ∷ s.log }) in
      elim (Bool-cases (net.rejects s.awaits)) [
        | inl bad ↦ ground arith
        | inr sent ↦ ground (arith, polled)
      ]
