-- ===== src/Money/Hiding.antt =====
-- Hiding an account: what is submitted, in which order, and what "private" rests on.
use mathlib.Core.Path.{sym, subst}
use anqa_core.Common.{
  ℕ, zero, suc, ◌+◌, ◌≡◌, ◌⊎◌, inl, inr, refl, Bool, true, false, some, ◌∷◌, arith, Bool-cases,
  Option-cases,
}
use anqa_core.Common.Async.{Result, ok, err, ◌>>=◌, >>=-cases}
use anqa_core.Money.{
  Net, permission, delegate, undelegate, Session, PrivacyResult, private, failed, Failure, poll,
  ensure_portfolio_private, migrate_to_private, is_home, is_delegated, permit_at_home,
  return_to_rollup, read, bring_home, conclude, send,
}

-- Some read passed the test.
abbrev pub Observed : {A : Type 0} → (ℕ → A) → (A → Bool) → Type 0
Observed f test = ∥ ((t : ℕ) × (test (f t) ≡ true)) ∥₁

-- The last await was a read that passed the test.
abbrev pub LastSeen : {A : Type 0} → (ℕ → A) → (A → Bool) → Session → Type 0
LastSeen f test s = ∥ ((t : ℕ) × (t + 1 ≡ s.awaits) × (test (f t) ≡ true)) ∥₁

-- A poll submits nothing and remembers nothing; it says true only for a read that passed the test, its
-- last one.
pub record IsPoll {A : Type 0} (f : ℕ → A) (test : A → Bool) (s : Session)
    (end : Result Failure Bool × Session) : Type 0 where
  pub same_log : end.1.log ≡ s.log
  pub same_hidden : end.1.hidden ≡ s.hidden
  pub found : (end.0 ≡ ok false) ⊎ ((end.0 ≡ ok true) × Observed f test × LastSeen f test end.1)

module _ (net : Net) {A : Type 0} (f : ℕ → A) (test : A → Bool) where
  pub poll-IsPoll : (k : ℕ) (s : Session) → IsPoll f test s (poll net f test k s)
  unfolding poll
  poll-IsPoll zero s = record { same_log = refl; same_hidden = refl; found = inl refl }
  poll-IsPoll (suc k) s = elim (Bool-cases (test (f s.awaits))) [
    | inl yes_now ↦ rw yes_now (record {
      same_log = refl;
      same_hidden = refl;
      found = inr (refl, ∣ (s.awaits, yes_now) ∣₁, ∣ (s.awaits, refl, yes_now) ∣₁);
    })
    | inr not_yet ↦
        let ih = poll-IsPoll k (record s { awaits = s.awaits + 1 }) in
        rw not_yet
          (record { same_log = ih.same_log; same_hidden = ih.same_hidden; found = ih.found })
  ]

-- `ensurePortfolioPrivate`, from `s`.
pub record IsEnsured (net : Net) (s : Session) (end : Result Failure PrivacyResult × Session)
    : Type 0 where
  pub never_throws : (end.0 ≡ ok private) ⊎ (end.0 ≡ ok failed)
  pub witnessed :
      end.0 ≡ ok private
      → (end.1.hidden ≡ true) × ((s.hidden ≡ true) ⊎ Observed net.is_private (λ b. b))
  pub one_prompt : (end.1.log ≡ s.log) ⊎ (end.1.log ≡ permission ∷ s.log)
  pub no_prompt : (s.hidden ≡ true) ⊎ (net.is_private s.awaits ≡ true) → end.1.log ≡ s.log

module _ (net : Net) where
  -- Hiding an account never throws; it says "private" only of an owner who was hidden before in this
  -- session, or whose permission record it has read, and then remembers the owner; it asks for one
  -- permission at most, and for none where the owner is known to be hidden or the record is there.
  pub ensure_portfolio_private-IsEnsured :
      (s : Session) → IsEnsured net s (ensure_portfolio_private net s)
  unfolding ensure_portfolio_private
  ensure_portfolio_private-IsEnsured s =
      let s' : Session = record s { awaits = s.awaits + 2; log = permission ∷ s.log } in
      let polled = poll-IsPoll net net.is_private (λ b. b) 8 s' in
      elim (Bool-cases s.hidden) [
        | inl hidden ↦ ground arith
        | inr open_still ↦ elim (Bool-cases (net.is_private s.awaits)) [
          | inl seen ↦
              let o : Observed net.is_private (λ b. b) = ∣ (s.awaits, seen) ∣₁ in ground (arith, o)
          | inr unseen ↦ elim (Bool-cases (net.rejects (s.awaits + 1))) [
            | inl bad ↦ ground arith
            | inr sent ↦ ground (arith, polled)
          ]
        ]
      ]

-- From an account at home: the permission goes first, and the account is delegated again only after
-- the permission was seen.
record IsReturned (net : Net) (s : Session) (end : Result Failure PrivacyResult × Session)
    : Type 0 where
  trail :
      (end.1.log ≡ permission ∷ s.log)
      ⊎ ((end.1.log ≡ delegate ∷ permission ∷ s.log) × Observed net.is_private (λ b. b))
  success :
      end.0 ≡ ok private
      → (end.1.log ≡ delegate ∷ permission ∷ s.log) × LastSeen net.holder is_delegated end.1

module _ (net : Net) where
  return_to_rollup_lem :
      (s : Session)
      → ((return_to_rollup net true s).1.log ≡ delegate ∷ s.log)
        × ((return_to_rollup net true s).0 ≡ ok private
            → LastSeen net.holder is_delegated (return_to_rollup net true s).1)
  return_to_rollup_lem s =
      let s1 : Session = record s { awaits = s.awaits + 1; log = delegate ∷ s.log } in
      >>=-cases IsBack (send net delegate)
        (λ _. poll net net.holder is_delegated 20 >>= conclude net) s (λ e h. (refl, λ e'. cc))
        (λ _ _.
          >>=-cases IsBack (poll net net.holder is_delegated 20) (conclude net) s1
            (λ e h. ((poll-IsPoll net net.holder is_delegated 20 s1).same_log, λ e'. cc))
            (λ back h. concluded back s1 h))
    where
      IsBack : Result Failure PrivacyResult × Session → Type 0
      IsBack end =
          (end.1.log ≡ delegate ∷ s.log)
          × (end.0 ≡ ok private → LastSeen net.holder is_delegated end.1)

      concluded :
          (back : Bool) (s1 : Session)
          → (poll net net.holder is_delegated 20 s1).0 ≡ ok back
          → let end = conclude net back (poll net net.holder is_delegated 20 s1).1 in
            (end.1.log ≡ s1.log) × (end.0 ≡ ok private → LastSeen net.holder is_delegated end.1)
      concluded false s1 h = ((poll-IsPoll net net.holder is_delegated 20 s1).same_log, λ e. cc)
      concluded true s1 h =
          let polled = poll-IsPoll net net.holder is_delegated 20 s1 in
          elim polled.found [
            | inl none_seen ↦ cc (h, none_seen)
            | inr (_, _, last) ↦ (polled.same_log, λ e. last)
          ]

  -- The check after the poll.
  after_poll :
      (s : Session)
      → IsReturned net
          (record s { log = s.log })
          ((read net.is_private >>= return_to_rollup net) (record s { log = permission ∷ s.log }))
  after_poll s =
      let back =
        return_to_rollup_lem (record s { awaits = s.awaits + 1; log = permission ∷ s.log }) in
      elim (Bool-cases (net.is_private s.awaits)) [
        | inl sure ↦
            let o : Observed net.is_private (λ b. b) = ∣ (s.awaits, sure) ∣₁ in
            ground (arith, o, back)
        | inr unsure ↦ ground arith
      ]

  permit_at_home-IsReturned : (s : Session) → IsReturned net s (permit_at_home net true s)
  permit_at_home-IsReturned s =
      let s1 : Session = record s { awaits = s.awaits + 1; log = permission ∷ s.log } in
      let polled = poll-IsPoll net net.is_private (λ b. b) 10 s1 in
      let s2 : Session = (poll net net.is_private (λ b. b) 10 s1).1 in
      let later = after_poll (record s2 { log = s.log }) in
      elim (Bool-cases (net.rejects s.awaits)) [
        | inl bad ↦ ground arith
        | inr sent ↦ ground (arith, polled, later)
      ]

-- `migrateToPrivate`, from `s`, by what it submits.
pub record IsMigrated (net : Net) (s : Session) (end : Result Failure PrivacyResult × Session)
    : Type 0 where
  pub trail :
      (end.1.log ≡ s.log)
      ⊎ ((end.1.log ≡ undelegate ∷ s.log)
          ⊎ ((end.1.log ≡ permission ∷ s.log)
              ⊎ ((end.1.log ≡ permission ∷ undelegate ∷ s.log)
                  ⊎ (((end.1.log ≡ delegate ∷ permission ∷ s.log)
                        ⊎ (end.1.log ≡ delegate ∷ permission ∷ undelegate ∷ s.log))
                      × Observed net.is_private (λ b. b)))))
  pub success :
      end.0 ≡ ok private
      → ((end.1.log ≡ s.log) × Observed net.is_private (λ b. b))
        ⊎ (((end.1.log ≡ delegate ∷ permission ∷ s.log)
              ⊎ (end.1.log ≡ delegate ∷ permission ∷ undelegate ∷ s.log))
            × LastSeen net.holder is_delegated end.1)

module _ (net : Net) where
  bring_home_lem :
      (s : Session)
      → ((bring_home net true s).1.log ≡ undelegate ∷ s.log)
        × ((bring_home net true s).0 ≡ ok true → Observed net.holder is_home)
  bring_home_lem s =
      let polled =
        poll-IsPoll net net.holder is_home 30
          (record s { awaits = s.awaits + 1; log = undelegate ∷ s.log }) in
      elim (Bool-cases (net.rejects s.awaits)) [
        | inl bad ↦ ground arith
        | inr sent ↦ ground (arith, polled)
      ]

  migrate_out : (s : Session) → IsMigrated net s ((bring_home net true >>= permit_at_home net) s)
  migrate_out s = by_result ((bring_home net true s).0) refl
    where
      by_result :
          (r : Result Failure Bool)
          → (bring_home net true s).0 ≡ r
          → IsMigrated net s ((bring_home net true >>= permit_at_home net) s)
      by_result (err e) h = ground (arith, bring_home_lem s)
      by_result (ok false) h = ground (arith, bring_home_lem s)
      by_result (ok true) h =
          ground (arith, bring_home_lem s, permit_at_home-IsReturned net (bring_home net true s).1)

  -- Moving a readable account into the dark submits at most an undelegation, a permission and a
  -- delegation, in this order, and delegates only after the permission record was seen; it reports
  -- "private" only if the record was there at once, or the last await of the call, after all that, was a
  -- read that shows the account in the rollup.
  pub migrate_to_private-IsMigrated : (s : Session) → IsMigrated net s (migrate_to_private net s)
  unfolding migrate_to_private
  migrate_to_private-IsMigrated s =
      let away = migrate_out (record s { awaits = s.awaits + 2 }) in
      let back = permit_at_home-IsReturned net (record s { awaits = s.awaits + 2 }) in
      elim (Bool-cases (net.is_private s.awaits)) [
        | inl seen ↦
            let o : Observed net.is_private (λ b. b) = ∣ (s.awaits, seen) ∣₁ in ground (arith, o)
        | inr unseen ↦ elim (Option-cases (net.holder (s.awaits + 1))) [
          | inl missing ↦ ground arith
          | inr (h, there) ↦ elim (Bool-cases (is_delegated (some h))) [
            | inl in_rollup ↦
                let e : migrate_to_private net s
                    ≡ (bring_home net true >>= permit_at_home net)
                        (record s { awaits = s.awaits + 2 }) =
                  ground arith in
                subst (IsMigrated net s) (sym e)
                  (record { trail = away.trail; success = away.success })
            | inr at_base ↦ ground (arith, back)
          ]
        ]
      ]
