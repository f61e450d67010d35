-- ===== src/Maker/Cycle/Refines.antt =====
-- What a cycle promises of the book over a wire on which every write succeeds, as a relation on what the
-- exchange shows: it is left alone, or it shows the ladder of the mark and the position that were read.
use mathlib.Core.Path.{subst, fun_ext}
use anqa_core.Common.{
  ℕ, ◌+◌, ◌/◌, ◌<◌, ◌≡◌, ◌⊎◌, inl, inr, refl, sym, ap, ◌∙◌, Bool, true, false, not, ◌&&◌, Option,
  none, some, List, ltb, ◌==◌, if◌then◌else◌, arith, Bool-cases, Option-cases, ==_iff,
}
use anqa_core.Common.Int.{ℤ}
use anqa_core.Common.Dict.{lookup, AllEntries, IsDict}
use anqa_core.Maker.{
  Rung, Rungs, Quoting, Rounder, bid_base, ask_base, bid_rung, ask_rung, desired_bids, desired_asks,
  mid_of,
}
use anqa_core.Maker.Send.{Wire, IsPerfect, send-perfect}
use anqa_core.Maker.Cycle.{
  Market, Seen, lay, reconcile, requote, reconcile_due, calm, position_seen, quote_at, quote_market,
}
use anqa_core.Maker.Cycle.Steps.{
  IsNamed, lookup-rungs_from, rungs_from-IsDict, rungs_from-AllEntries,
}
use anqa_core.Maker.Cycle.Exact.{IsExact, IsKept, shown}
use anqa_core.Maker.Cycle.Laid.{side-IsKept}

-- What rests for the maker under the ids of each side, by level.
abbrev pub View : Type 0
View = (ℕ → List Rung) × (ℕ → List Rung)

abbrev pub view : Market → View
view m = (λ j. m.bids.book (bid_base + j), λ j. m.asks.book (ask_base + j))

-- The levels from 1 to `levels` with the rungs that they have, and nothing else.
abbrev pub side_of : (ℕ → Option Rung) → ℕ → ℕ → List Rung
side_of rung levels j = shown (if not (ltb j 1) && ltb j (1 + levels) then rung j else none)

abbrev pub ladder : Rounder → Quoting → ℕ → ℤ → View
ladder round q mark_ticks position = (
  side_of (bid_rung round q mark_ticks position) q.levels,
  side_of (ask_rung round q mark_ticks position) q.levels,
)

-- The cooldown, for the ladder around a mark.
abbrev pub may_rest : Rounder → Quoting → Seen → Market → ℕ → ℤ → Bool
may_rest round q seen m mark_ticks position =
    calm q seen (desired_bids round q mark_ticks position)
      (desired_asks round q mark_ticks position) (mid_of round q mark_ticks position) mark_ticks m

-- Without a mark, without a position in the portfolio and under the cooldown the book is left alone; otherwise it
-- shows the ladder.
pub data Cycle (round : Rounder) (q : Quoting) (tick asset : ℕ) (seen : Seen) (m : Market)
    : View → Type 0 where
  no_mark : (seen.mark ≡ none) ⊎ (seen.mark ≡ some 0) → Cycle round q tick asset seen m (view m)
  no_position : position_seen seen.portfolio asset ≡ none → Cycle round q tick asset seen m (view m)
  rests :
      (mark : ℕ) (position : ℤ)
      → seen.mark ≡ some mark
      → position_seen seen.portfolio asset ≡ some position
      → may_rest round q seen m (mark / tick) position ≡ true
      → Cycle round q tick asset seen m (view m)
  quotes :
      (mark : ℕ) (position : ℤ)
      → seen.mark ≡ some mark
      → 0 < mark
      → position_seen seen.portfolio asset ≡ some position
      → may_rest round q seen m (mark / tick) position ≡ false
      → Cycle round q tick asset seen m (ladder round q (mark / tick) position)

-- Both models say what the book shows.
pub record IsSynced (m : Market) : Type 0 where
  pub bids_exact : IsExact bid_base m.bids
  pub asks_exact : IsExact ask_base m.asks

record IsLaid (bids asks : Rungs) (m : Market) : Type 0 where
  bids_kept : IsKept bid_base (λ j. lookup j bids) m.bids
  asks_kept : IsKept ask_base (λ j. lookup j asks) m.asks

lay-IsLaid :
    (w : Wire) (bids asks : Rungs) (m : Market)
    → IsPerfect w
    → IsSynced m
    → AllEntries (IsNamed bid_base) bids
    → IsDict bids
    → AllEntries (IsNamed ask_base) asks
    → IsDict asks
    → IsLaid bids asks (lay w bids asks m)
unfolding lay
lay-IsLaid w bids asks m perfect h bids-IsNamed bids_once asks-IsNamed asks_once = record {
  bids_kept = side-IsKept w perfect bid_base bids _ _ refl h.bids_exact bids-IsNamed bids_once;
  asks_kept = side-IsKept w perfect ask_base asks _ _ refl h.asks_exact asks-IsNamed asks_once;
}

reconciled-IsSynced :
    (w : Wire) (seen : Seen) (m : Market)
    → IsPerfect w
    → IsSynced m ⊎ (reconcile_due seen m ≡ true)
    → IsSynced (if reconcile_due seen m then reconcile w seen m else m)
unfolding reconcile lookup
reconciled-IsSynced w seen m perfect h = elim (Bool-cases (reconcile_due seen m)) [
  | inl due ↦
      rw (due, send-perfect w m.attempts perfect)
        (record {
          bids_exact = record { named = tt; exact = λ lvl. refl };
          asks_exact = record { named = tt; exact = λ lvl. refl };
        })
  | inr later ↦
      rw later (elim h [ inl synced ↦ synced | inr due ↦ absurd (ground (arith, due, later)) ])
]

module _ (round : Rounder) (q : Quoting) (few : q.levels < 65_535) (mark_ticks : ℕ)
    (position : ℤ) where
  pub bids-IsNamed : AllEntries (IsNamed bid_base) (desired_bids round q mark_ticks position)
  unfolding desired_bids bid_rung
  bids-IsNamed =
      rungs_from-AllEntries (IsNamed bid_base) (bid_rung round q mark_ticks position) q.levels 1
        (λ j r low high e. ground (arith, e, high, few))

  pub asks-IsNamed : AllEntries (IsNamed ask_base) (desired_asks round q mark_ticks position)
  unfolding desired_asks ask_rung
  asks-IsNamed =
      rungs_from-AllEntries (IsNamed ask_base) (ask_rung round q mark_ticks position) q.levels 1
        (λ j r low high e. ground (arith, e, high, few))

  laid-ladder :
      (m : Market)
      → IsLaid
          (desired_bids round q mark_ticks position)
          (desired_asks round q mark_ticks position)
          m
      → view m ≡ ladder round q mark_ticks position
  unfolding desired_bids desired_asks
  laid-ladder m h =
      let (bids, asks) = ladder round q mark_ticks position in
      let bids_eq : (view m).0 ≡ bids = fun_ext (λ j.
        h.bids_kept.is_exact.exact j
        ∙ ap shown (
            h.bids_kept.shows j
            ∙ lookup-rungs_from (bid_rung round q mark_ticks position) q.levels 1 j)) in
      let asks_eq : (view m).1 ≡ asks = fun_ext (λ j.
        h.asks_kept.is_exact.exact j
        ∙ ap shown (
            h.asks_kept.shows j
            ∙ lookup-rungs_from (ask_rung round q mark_ticks position) q.levels 1 j)) in
      ap (λ b. (b, (view m).1)) bids_eq ∙ ap (λ a. (bids, a)) asks_eq

  lay-ladder :
      (w : Wire) (m : Market)
      → IsPerfect w
      → IsSynced m
      → IsLaid
          (desired_bids round q mark_ticks position)
          (desired_asks round q mark_ticks position)
          (lay w
            (desired_bids round q mark_ticks position)
            (desired_asks round q mark_ticks position)
            m)
  unfolding desired_bids desired_asks
  lay-ladder w m perfect h =
      lay-IsLaid w _ _ m perfect h bids-IsNamed
        (rungs_from-IsDict (bid_rung round q mark_ticks position) q.levels 1) asks-IsNamed
        (rungs_from-IsDict (ask_rung round q mark_ticks position) q.levels 1)

  requote-ladder :
      (w : Wire) (seen : Seen) (m : Market)
      → IsPerfect w
      → IsSynced m ⊎ (reconcile_due seen m ≡ true)
      → let m' =
          requote w seen
            (desired_bids round q mark_ticks position)
            (desired_asks round q mark_ticks position)
            (mid_of round q mark_ticks position)
            m in
        IsSynced m' × (view m' ≡ ladder round q mark_ticks position)
  requote-ladder w seen m perfect h =
      let fresh = if reconcile_due seen m then reconcile w seen m else m in
      let synced = reconciled-IsSynced w seen m perfect h in
      let laid = lay-ladder w fresh perfect synced in
      (
        record { bids_exact = laid.bids_kept.is_exact; asks_exact = laid.asks_kept.is_exact },
        laid-ladder _ laid,
      )

module _ (w : Wire) (round : Rounder) (q : Quoting) (tick asset : ℕ) (seen : Seen) (m : Market)
    (perfect : IsPerfect w) (few : q.levels < 65_535) where
  quote_market-eq :
      (mark : ℕ) (position : ℤ)
      → seen.mark ≡ some mark
      → (mark == 0) ≡ false
      → position_seen seen.portfolio asset ≡ some position
      → quote_market w round q tick asset seen m ≡ quote_at w round q seen (mark / tick) position m
  unfolding quote_market
  quote_market-eq mark position read priced known = rw (read, priced, known) refl

  -- If every write succeeds, the levels are fewer than 65,535, and the models say what the book shows:
  -- they still do after a cycle. The book is left alone where no mark but 0 can be read, where a position
  -- cannot be read out of the portfolio that was read, and while the mid has hardly moved since the last
  -- quote, no side is short of rungs and no reconcile is due; otherwise it shows, under the id of each
  -- level, the rung of the ladder around the mark and the position that were read, and none at the other
  -- levels; a portfolio that cannot be read counts as the position 0.
  pub quote_market-refines :
      IsSynced m
      → IsSynced (quote_market w round q tick asset seen m)
        × Cycle round q tick asset seen m (view (quote_market w round q tick asset seen m))
  unfolding quote_market
  quote_market-refines h =
      let goes = λ (m' : Market). IsSynced m' × Cycle round q tick asset seen m (view m') in
      let end = quote_market w round q tick asset seen m in
      elim (Option-cases seen.mark) [
        | inl unread ↦
            let e : end ≡ m = rw (unread, quote_market) refl in
            subst goes (sym e) (h, no_mark (inl unread))
        | inr (mark, read) ↦ elim (Bool-cases (mark == 0)) [
          | inl unpriced ↦
              let free : seen.mark ≡ some 0 = read ∙ ap some ((==_iff mark 0).0 unpriced) in
              let e : end ≡ m = rw (read, quote_market, unpriced) refl in
              subst goes (sym e) (h, no_mark (inr free))
          | inr priced ↦ elim (Option-cases (position_seen seen.portfolio asset)) [
            | inl failed ↦
                let e : end ≡ m = rw (read, quote_market, priced, failed) refl in
                subst goes (sym e) (h, no_position failed)
            | inr (position, known) ↦
                let e = quote_market-eq mark position read priced known in
                elim (Bool-cases (may_rest round q seen m (mark / tick) position)) [
                  | inl calm_now ↦
                      subst goes (sym (e ∙ (rw calm_now refl)))
                        (h, rests mark position read known calm_now)
                  | inr moved ↦
                      let (synced, shows) =
                        requote-ladder round q few (mark / tick) position w seen m perfect
                          (inl h) in
                      subst goes (sym (e ∙ (rw moved refl))) (
                        synced,
                        subst (Cycle round q tick asset seen m) (sym shows)
                            (quotes mark position read (ground (arith, priced)) known moved),
                      )
                ]
          ]
        ]
      ]

  -- If every write succeeds, the levels are fewer than 65,535, a mark and a position can be read and
  -- a reconcile is due: whatever the models and the book were, the book then shows, under the id of each level, the
  -- rung of the ladder and none at the other levels, and the models say what it shows.
  pub quote_market-heals :
      (mark : ℕ) (position : ℤ)
      → seen.mark ≡ some mark
      → (mark == 0) ≡ false
      → position_seen seen.portfolio asset ≡ some position
      → reconcile_due seen m ≡ true
      → IsSynced (quote_market w round q tick asset seen m)
        × (view (quote_market w round q tick asset seen m) ≡ ladder round q (mark / tick) position)
  unfolding quote_market
  quote_market-heals mark position read priced known due =
      let e = quote_market-eq mark position read priced known in
      let moved : may_rest round q seen m (mark / tick) position ≡ false = ground (arith, due) in
      subst (λ m'. IsSynced m' × (view m' ≡ ladder round q (mark / tick) position))
        (sym (e ∙ (rw moved refl)))
        (requote-ladder round q few (mark / tick) position w seen m perfect (inr due))
