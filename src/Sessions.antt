-- ===== src/Sessions.antt =====
-- web/lib/session.ts and web/lib/teeSession.ts: the browser's two sessions. Here is the grant of a trading
-- key, as one page sees that of its owner: `verifiedGrants.get(address)`, the wait for the rollup's clone,
-- and `requireTradingSession` of web/components/BottomTabs.tsx; Token is the login on the private rollup.
-- What the network answers and the clock are streams, indexed by the number of awaits before.
pub mod Grants
pub mod Token
pub mod Tests
use anqa_core.Common.{
  ℕ, zero, suc, ◌+◌, ◌*◌, Bool, true, false, not, ◌&&◌, ◌||◌, Option, none, some, ltb, ◌==◌,
  if◌then◌else◌,
}
use anqa_core.Common.Async.{Async, Result, ok, err, pure, throw, ◌>>=◌, ◌>>◌}

-- Expiry is in seconds.
pub record Grant : Type 0 where
  pub session_key : ℕ
  pub expires_at : ℕ

-- `fetch` is none where the read failed; times are in milliseconds.
pub record Net : Type 0 where
  pub fetch : ℕ → Option Grant
  pub now : ℕ → ℕ
  pub rejects : ℕ → Bool

-- The number of awaits, the grant that was verified, and the grants that were submitted.
pub record Page : Type 0 where
  pub awaits : ℕ
  pub verified : Option Grant
  pub submitted : ℕ

pub data Trouble : Type 0 where
  rejected still_syncing : Trouble

abbrev pub covers : ℕ → ℕ → Grant → Bool
covers key now g = (g.session_key == key) && ltb (now + 60_000) (g.expires_at * 1_000)

unfoldable pub session_grant_is_fresh : Option Grant → ℕ → ℕ → Bool
session_grant_is_fresh none key now = false
session_grant_is_fresh (some g) key now = covers key now g

-- A read of the grant that is good enough.
abbrev pub good : Net → ℕ → ℕ → Option Grant
good net key n = elim (net.fetch n) [
  | none ↦ none
  | some g ↦ if covers key (net.now n) g then some g else none
]

module _ (net : Net) (key : ℕ) where
  unfoldable pub wait_for_session_grant : ℕ → Page → Bool × Page
  wait_for_session_grant zero s = (false, s)
  wait_for_session_grant (suc k) s =
      let after = record s { awaits = s.awaits + 1 } in
      let more = wait_for_session_grant k after in
      elim (good net key s.awaits) [
        | none ↦ more
        | some g ↦ (true, record after { verified = some g })
      ]

  abbrev pub grant_session_only : Async Page Trouble (Unit {0})
  grant_session_only s = (
    if net.rejects s.awaits then err rejected else ok tt,
    record s { awaits = s.awaits + 1; submitted = s.submitted + 1 },
  )

  -- The wait as the callers end it.
  unfoldable pub await_grant : Async Page Trouble (Unit {0})
  unfolding wait_for_session_grant
  await_grant s =
      let (visible, s') = wait_for_session_grant 12 s in
      (if visible then ok tt else err still_syncing, s')

  -- `requireTradingSession`, with a wallet, a key and both programs there; `active` is `sessionActive`.
  unfoldable pub require_trading_session : Bool → Async Page Trouble (Unit {0})
  unfolding await_grant session_grant_is_fresh
  require_trading_session active s =
      if active || session_grant_is_fresh s.verified key (net.now s.awaits)
      then (ok tt, s)
      else (grant_session_only >> await_grant) s
