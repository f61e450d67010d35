-- ===== src/Sessions/Grants.antt =====
-- The wait for a grant, and what a page submits for its trades.
use mathlib.Core.Path.{subst}
use anqa_core.Common.{
  ℕ, zero, suc, ◌+◌, ◌*◌, ◌<◌, ◌≡◌, ◌⊎◌, inl, inr, refl, ap, sym, ◌∙◌, Bool, true, false, ◌||◌,
  Option, none, some, ◌==◌, if◌then◌else◌, arith, Bool-cases, Option-cases,
}
use anqa_core.Common.Async.{Result, ok, err, ◌>>◌, >>=-ok, >>=-err}
use anqa_core.Sessions.{
  Grant, Net, Page, Trouble, rejected, still_syncing, good, session_grant_is_fresh,
  wait_for_session_grant, grant_session_only, await_grant, require_trading_session,
}

-- How a wait of `k` reads ends: at the first good read, which is kept, or with all of them bad.
pub record FoundAt (net : Net) (key k : ℕ) (s : Page) (end : Bool × Page) : Type 0 where
  pub round : ℕ
  pub grant : Grant
  pub in_time : round < k
  pub is_good : good net key (s.awaits + round) ≡ some grant
  pub is_first : (i : ℕ) → i < round → good net key (s.awaits + i) ≡ none
  pub result : end ≡ (true, record s { awaits = s.awaits + (round + 1); verified = some grant })

pub record NotFound (net : Net) (key k : ℕ) (s : Page) (end : Bool × Page) : Type 0 where
  pub all_bad : (i : ℕ) → i < k → good net key (s.awaits + i) ≡ none
  pub result : end ≡ (false, record s { awaits = s.awaits + k })

-- What holds now and in each of the next `k` rounds holds in each of `k + 1`.
from_now :
    (P : ℕ → Type 0) (n k : ℕ)
    → P n
    → ((i : ℕ) → i < k → P (n + 1 + i))
    → (i : ℕ) → i < suc k
    → P (n + i)
from_now P n k here later zero h = let same : n ≡ n + 0 = ground arith in subst P same here
from_now P n k here later (suc j) h =
    let below : j < k = ground (arith, h) in
    let same : n + 1 + j ≡ n + suc j = ground arith in subst P same (later j below)

module _ (net : Net) (key : ℕ) where
  -- The wait ends at the first read of a grant of this key that lasts another minute, and keeps that grant;
  -- where none of its reads is one, it says so and keeps what it had.
  pub wait_for_session_grant-Ends :
      (k : ℕ) (s : Page)
      → FoundAt net key k s (wait_for_session_grant net key k s)
        ⊎ NotFound net key k s (wait_for_session_grant net key k s)
  unfolding wait_for_session_grant
  wait_for_session_grant-Ends zero s =
      let same : s.awaits ≡ s.awaits + 0 = ground arith in
      inr (record {
        all_bad = λ i h. ground (arith, h);
        result = ap (λ n. (false, record s { awaits = n })) same;
      })
  wait_for_session_grant-Ends (suc k) s = elim (Option-cases (good net key s.awaits)) [
    | inr (g, e) ↦
        let same : s.awaits ≡ s.awaits + 0 = ground arith in
        inl (record {
          round = 0;
          grant = g;
          in_time = ground arith;
          is_good = subst (λ n. good net key n ≡ some g) same e;
          is_first = λ i h. ground (arith, h);
          result = rw (e, wait_for_session_grant) refl;
        })
    | inl e ↦ elim (wait_for_session_grant-Ends k (record s { awaits = s.awaits + 1 })) [
      | inl f ↦
          let same : s.awaits + 1 + f.round ≡ s.awaits + suc f.round = ground arith in
          let count : s.awaits + 1 + (f.round + 1) ≡ s.awaits + (suc f.round + 1) = ground arith in
          inl (record {
            round = suc f.round;
            grant = f.grant;
            in_time = ground (arith, f.in_time);
            is_good = subst (λ n. good net key n ≡ some f.grant) same f.is_good;
            is_first = from_now (λ n. good net key n ≡ none) s.awaits f.round e f.is_first;
            result =
                rw (e, wait_for_session_grant)
                  (f.result
                    ∙ ap (λ n. (true, record s { awaits = n; verified = some f.grant })) count);
          })
      | inr f ↦
          let count : s.awaits + 1 + k ≡ s.awaits + suc k = ground arith in
          inr (record {
            all_bad = from_now (λ n. good net key n ≡ none) s.awaits k e f.all_bad;
            result =
                rw (e, wait_for_session_grant)
                  (f.result ∙ ap (λ n. (false, record s { awaits = n })) count);
          })
    ]
  ]

-- How a call for a trading session ends: nothing is submitted, since the session is there; or one grant
-- is, which is then seen; or one is, and the call throws.
pub data Readied (net : Net) (key : ℕ) (active : Bool) (s : Page)
    : Result Trouble (Unit {0}) × Page → Type 0 where
  ready :
      active || session_grant_is_fresh s.verified key (net.now s.awaits) ≡ true
      → Readied net key active s (ok tt, s)
  renewed :
      (round : ℕ) (g : Grant)
      → active || session_grant_is_fresh s.verified key (net.now s.awaits) ≡ false
      → net.rejects s.awaits ≡ false
      → round < 12
      → good net key (s.awaits + 1 + round) ≡ some g
      → Readied net key active s (
        ok tt,
        record {
          awaits = s.awaits + 1 + (round + 1);
          verified = some g;
          submitted = s.submitted + 1;
        },
      )
  refused :
      net.rejects s.awaits ≡ true
      → Readied net key active s
          (err rejected, record s { awaits = s.awaits + 1; submitted = s.submitted + 1 })
  unseen :
      ((i : ℕ) → i < 12 → good net key (s.awaits + 1 + i) ≡ none)
      → Readied net key active s
          (err still_syncing, record s { awaits = s.awaits + 1 + 12; submitted = s.submitted + 1 })

abbrev conclude : Bool × Page → Result Trouble (Unit {0}) × Page
conclude z = (if z.0 then ok tt else err still_syncing, z.1)

pub good-covers :
    (net : Net) (key n : ℕ) (g : Grant) → good net key n ≡ some g → (g.session_key == key) ≡ true
good-covers net key n g e = ground (arith, e)

Readied-key :
    {net : Net} {key : ℕ} {active : Bool} {s : Page} {end : Result Trouble (Unit {0}) × Page}
    → Readied net key active s end
    → end.0 ≡ ok tt
    → active || session_grant_is_fresh s.verified key (net.now s.awaits) ≡ false
    → (g : Grant) × ((end.1.verified ≡ some g) × ((g.session_key == key) ≡ true))
Readied-key (ready e) done stale = ground (arith, e, stale)
Readied-key {net} {key} {active} {s} (renewed round g e fine in_time is_good) done stale =
    (g, (refl, good-covers net key (s.awaits + 1 + round) g is_good))
Readied-key (refused bad) done stale = ground (arith, done)
Readied-key (unseen bad) done stale = ground (arith, done)

module _ (net : Net) (key : ℕ) where
  still_fresh :
      (verified : Option Grant) (now : ℕ) (g : Grant)
      → verified ≡ some g
      → (g.session_key == key) ≡ true
      → now + 60_000 < g.expires_at * 1_000
      → session_grant_is_fresh verified key now ≡ true
  unfolding session_grant_is_fresh
  still_fresh verified now g kept own lasts = ground (arith, kept, own, lasts)

  fresh_call :
      (active : Bool) (s : Page)
      → session_grant_is_fresh s.verified key (net.now s.awaits) ≡ true
      → require_trading_session net key active s ≡ (ok tt, s)
  unfolding require_trading_session
  fresh_call true s e = refl
  fresh_call false s e = rw (e) refl

  -- A call for a trading session submits nothing where it is active or a fresh grant was verified, and else
  -- one grant: it throws if the grant is rejected or not seen in twelve reads, and otherwise keeps the
  -- grant that it saw.
  pub require_trading_session-Readied :
      (active : Bool) (s : Page)
      → Readied net key active s (require_trading_session net key active s)
  unfolding require_trading_session await_grant
  require_trading_session-Readied active s =
      let fresh = active || session_grant_is_fresh s.verified key (net.now s.awaits) in
      let sent = record s { awaits = s.awaits + 1; submitted = s.submitted + 1 } in
      let call = require_trading_session net key active s in
      let opens : fresh ≡ false → call ≡ (grant_session_only net key >> await_grant net key) s =
        λ e. rw (e) refl in
      elim (Bool-cases fresh) [
        | inl e ↦
            let at : call ≡ (ok tt, s) = rw (e) refl in
            subst (Readied net key active s) (sym at) (ready e)
        | inr e ↦ elim (Bool-cases (net.rejects s.awaits)) [
          | inl bad ↦
              let refusal : grant_session_only net key s ≡ (err rejected, sent) = rw (bad) refl in
              let at : call ≡ (err rejected, sent) =
                opens e
                ∙ >>=-err (grant_session_only net key) (λ _. await_grant net key) s sent rejected
                    refusal in
              subst (Readied net key active s) (sym at) (refused bad)
          | inr fine ↦
              let landed : grant_session_only net key s ≡ (ok tt, sent) = rw (fine) refl in
              let goes_on : call ≡ await_grant net key sent =
                opens e
                ∙ >>=-ok (grant_session_only net key) (λ _. await_grant net key) s sent tt landed in
              elim (wait_for_session_grant-Ends net key 12 sent) [
                | inl f ↦
                    let at = goes_on ∙ ap conclude f.result in
                    subst (Readied net key active s) (sym at)
                      (renewed f.round f.grant e fine f.in_time f.is_good)
                | inr f ↦
                    let at = goes_on ∙ ap conclude f.result in
                    subst (Readied net key active s) (sym at) (unseen f.all_bad)
              ]
        ]
      ]

  -- The second of two calls submits nothing, if the first one went through by a new grant, and if that
  -- grant still lasts more than a minute when the second is made.
  pub require_trading_session-once :
      (active : Bool) (s : Page)
      → let end = require_trading_session net key false s in
        end.0 ≡ ok tt
        → session_grant_is_fresh s.verified key (net.now s.awaits) ≡ false
        → ((g : Grant)
            → end.1.verified ≡ some g
            → net.now end.1.awaits + 60_000 < g.expires_at * 1_000)
        → require_trading_session net key active end.1 ≡ (ok tt, end.1)
  require_trading_session-once active s done stale lasts =
      let end = require_trading_session net key false s in
      let (g, (kept, own)) = Readied-key (require_trading_session-Readied false s) done stale in
      let fresh = still_fresh end.1.verified (net.now end.1.awaits) g kept own (lasts g kept) in
      fresh_call active end.1 fresh
