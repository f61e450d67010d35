-- ===== src/Maker/Cycle/Backed.antt =====
-- The loops of a cycle, and a whole cycle, over a wire on which writes may fail: the models go on saying what
-- rests in the book.
use mathlib.Core.Path.{subst}
use anqa_core.Common.{
  ℕ, ◌/◌, ◌%◌, ◌<◌, ◌≡◌, inl, inr, refl, sym, [], ◌∷◌, ◌==◌, if◌then◌else◌, Bool-cases,
  Option-cases,
}
use anqa_core.Common.Int.{ℤ}
use anqa_core.Common.Dict.{lookup, AllEntries}
use anqa_core.Maker.{
  Rung, Rungs, Quoting, Rounder, bid_base, ask_base, mid_of, desired_bids, desired_asks,
}
use anqa_core.Maker.Send.{Wire, IsHonest}
use anqa_core.Maker.Cycle.{
  Place, Market, Seen, same_rung, want_one, want_all, cancel_rung, drop_all, apply_side, place_one,
  place_all, lay, reconcile, reconcile_due, calm, quote_at, quote_market, position_seen,
}
use anqa_core.Maker.Cycle.Steps.{IsNamed, append-AllEntries}
use anqa_core.Maker.Cycle.Sound.{
  IsBacked, modify_rung-IsBacked, cancel_rung-IsBacked, place_one-IsBacked,
}
use anqa_core.Maker.Cycle.Refines.{bids-IsNamed, asks-IsNamed}

module _ (w : Wire) (honest : IsHonest w) (base : ℕ) where
  abbrev IsQueued : Place × Rungs → Type 0
  IsQueued (p, queue) = IsBacked base p.0 × AllEntries (IsNamed base) queue

  want_one-IsQueued :
      (lvl : ℕ) (want : Rung) (p : Place)
      → IsBacked base p.0
      → IsNamed base lvl want
      → IsQueued (want_one w lvl want p)
  unfolding want_one
  want_one-IsQueued lvl want p h named = elim (Option-cases (lookup lvl p.0.model)) [
    | inl absent ↦ rw (absent, want_one) (h, (named, tt))
    | inr (have, there) ↦ elim (Bool-cases (same_rung have want)) [
      | inl same ↦ rw (there, want_one, same) (h, tt)
      | inr differs ↦
          rw (there, want_one, differs)
            (modify_rung-IsBacked w honest base lvl want have p h named there, tt)
    ]
  ]

  want_all-IsQueued :
      (wants : Rungs) (p : Place)
      → IsBacked base p.0
      → AllEntries (IsNamed base) wants
      → IsQueued (want_all w wants p)
  unfolding want_all
  want_all-IsQueued [] p h named = (h, tt)
  want_all-IsQueued ((lvl, want) ∷ wants) p h named =
      let (first, queue) = want_one w lvl want p in
      let one = want_one-IsQueued lvl want p h named.0 in
      let rest = want_all-IsQueued wants first one.0 named.1 in
      (rest.0, append-AllEntries (IsNamed base) queue (want_all w wants first).1 one.1 rest.1)

  drop_all-IsBacked :
      (wants haves : Rungs) (p : Place)
      → IsBacked base p.0
      → AllEntries (IsNamed base) haves
      → IsBacked base (drop_all w wants haves p).0
  unfolding drop_all
  drop_all-IsBacked wants [] p h named = h
  drop_all-IsBacked wants ((lvl, have) ∷ haves) p h named = elim (Option-cases (lookup lvl wants)) [
    | inl absent ↦
        let next = cancel_rung-IsBacked w honest base lvl have p h named.0 in
        let e : drop_all w wants ((lvl, have) ∷ haves) p
            ≡ drop_all w wants haves (cancel_rung w lvl have p) =
          rw (absent, drop_all) refl in
        subst (λ p. IsBacked base p.0) (sym e) (drop_all-IsBacked wants haves _ next named.1)
    | inr (want, there) ↦
        let e : drop_all w wants ((lvl, have) ∷ haves) p ≡ drop_all w wants haves p =
          rw (there, drop_all) refl in
        subst (λ p. IsBacked base p.0) (sym e) (drop_all-IsBacked wants haves p h named.1)
  ]

  apply_side-IsQueued :
      (wants : Rungs) (p : Place)
      → IsBacked base p.0
      → AllEntries (IsNamed base) wants
      → IsQueued (apply_side w wants p)
  unfolding apply_side
  apply_side-IsQueued wants p h named =
      let first = want_all-IsQueued wants p h named in
      let (q, queue) = want_all w wants p in
      (drop_all-IsBacked wants q.0.model q first.0 first.0.named, first.1)

  place_all-IsBacked :
      (queue : Rungs) (p : Place)
      → base % 65_536 ≡ 0
      → IsBacked base p.0
      → AllEntries (IsNamed base) queue
      → IsBacked base (place_all w queue p).0
  unfolding place_all
  place_all-IsBacked [] p aligned h named = h
  place_all-IsBacked ((lvl, r) ∷ queue) p aligned h named =
      place_all-IsBacked queue (place_one w r p) aligned
        (place_one-IsBacked w honest base lvl r p aligned h named.0) named.1

-- Every rung of both models rests in the book.
pub record IsKnown (m : Market) : Type 0 where
  pub bids_backed : IsBacked bid_base m.bids
  pub asks_backed : IsBacked ask_base m.asks

module _ (w : Wire) (honest : IsHonest w) where
  lay-IsKnown :
      (bids asks : Rungs) (m : Market)
      → IsKnown m
      → AllEntries (IsNamed bid_base) bids
      → AllEntries (IsNamed ask_base) asks
      → IsKnown (lay w bids asks m)
  unfolding lay
  lay-IsKnown bids asks m h bids_ok asks_ok =
      let b =
        apply_side-IsQueued w honest bid_base bids (m.bids, m.attempts) h.bids_backed bids_ok in
      let n = (apply_side w bids (m.bids, m.attempts)).0.1 in
      let a = apply_side-IsQueued w honest ask_base asks (m.asks, n) h.asks_backed asks_ok in
      record {
        bids_backed = place_all-IsBacked w honest bid_base _ _ refl b.0 b.1;
        asks_backed = place_all-IsBacked w honest ask_base _ _ refl a.0 a.1;
      }

  reconcile-IsKnown : (seen : Seen) (m : Market) → IsKnown (reconcile w seen m)
  unfolding reconcile lookup
  reconcile-IsKnown seen m = record {
    bids_backed = record { named = tt; backed = λ lvl r e. absurd (cc) };
    asks_backed = record { named = tt; backed = λ lvl r e. absurd (cc) };
  }

  fresh-IsKnown :
      (seen : Seen) (m : Market)
      → IsKnown m
      → IsKnown (if reconcile_due seen m then reconcile w seen m else m)
  fresh-IsKnown seen m h = elim (Bool-cases (reconcile_due seen m)) [
    | inl due ↦ rw due (reconcile-IsKnown seen m)
    | inr later ↦ rw later h
  ]

  module _ (round : Rounder) (q : Quoting) (few : q.levels < 65_535) where
    quote_at-IsKnown :
        (seen : Seen) (mark_ticks : ℕ) (position : ℤ) (m : Market)
        → IsKnown m
        → IsKnown (quote_at w round q seen mark_ticks position m)
    quote_at-IsKnown seen mark_ticks position m h =
        let bids = desired_bids round q mark_ticks position in
        let asks = desired_asks round q mark_ticks position in
        let laid =
          lay-IsKnown bids asks _ (fresh-IsKnown seen m h)
            (bids-IsNamed round q few mark_ticks position)
            (asks-IsNamed round q few mark_ticks position) in
        elim (Bool-cases
          (calm q seen bids asks (mid_of round q mark_ticks position) mark_ticks m)) [
            | inl still ↦ rw still h
            | inr moved ↦
                rw moved (record { bids_backed = laid.bids_backed; asks_backed = laid.asks_backed })
          ]

    -- If an attempt that throws nothing has taken effect, the levels are fewer than 65,535 and nobody else
    -- acts on the maker's orders: when every rung of both models rests in the book under its id, so it
    -- does after a cycle, whatever fails in it, and whatever takes effect more than once.
    pub quote_market-IsKnown :
        (tick asset : ℕ) (seen : Seen) (m : Market)
        → IsKnown m
        → IsKnown (quote_market w round q tick asset seen m)
    unfolding quote_market
    quote_market-IsKnown tick asset seen m h = elim (Option-cases seen.mark) [
      | inl unread ↦ rw unread h
      | inr (mark, read) ↦ elim (Bool-cases (mark == 0)) [
        | inl unpriced ↦ rw (read, unpriced) h
        | inr priced ↦ elim (Option-cases (position_seen seen.portfolio asset)) [
          | inl failed ↦ rw (read, priced, failed) h
          | inr (position, known) ↦
              rw (read, priced, known) (quote_at-IsKnown seen (mark / tick) position m h)
        ]
      ]
    ]
