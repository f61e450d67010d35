-- ===== src/Keeper/Requote/Decision.antt =====
-- What the watchdog's decision means for the book.
use anqa_core.Common.{
  ℕ, ◌+◌, ◌*◌, ◌/◌, ◌≤◌, ◌<◌, ◌≡◌, ◌⊎◌, inl, inr, refl, false, ◌&&◌, ◌||◌, Option, none, some, List,
  [], ◌∷◌, ltb, leb, arith, Bool-cases, Option-cases,
}
use anqa_core.Keeper.Requote.{
  Book, Config, Reason, healthy, short_ladder, off_mark, reason_of, visible_levels, live, best_bid,
  best_ask, dist, drifted, check_drift,
}

-- `p` is among the prices.
abbrev pub Among : ℕ → List ℕ → Type 0
Among p [] = ⊥
Among p (q ∷ qs) = (p ≡ q) ⊎ Among p qs

abbrev pub AllLe : List ℕ → ℕ → Type 0
AllLe [] b = Unit
AllLe (p ∷ ps) b = (p ≤ b) × AllLe ps b

abbrev pub AllGe : List ℕ → ℕ → Type 0
AllGe [] b = Unit
AllGe (p ∷ ps) b = (b ≤ p) × AllGe ps b

AllLe-mono : (ps : List ℕ) (a b : ℕ) → a ≤ b → AllLe ps a → AllLe ps b
AllLe-mono [] a b h k = tt
AllLe-mono (p ∷ ps) a b h k = (omega arith, AllLe-mono ps a b h k.1)

AllGe-mono : (ps : List ℕ) (a b : ℕ) → b ≤ a → AllGe ps a → AllGe ps b
AllGe-mono [] a b h k = tt
AllGe-mono (p ∷ ps) a b h k = (omega arith, AllGe-mono ps a b h k.1)

abbrev pub IsHighest : List ℕ → ℕ → Type 0
IsHighest ps b = Among b ps × AllLe ps b

abbrev pub IsLowest : List ℕ → ℕ → Type 0
IsLowest ps a = Among a ps × AllGe ps a

best_bid-none : (ps : List ℕ) (b : ℕ) → best_bid ps ≡ none → AllLe ps b
unfolding best_bid
best_bid-none [] b e = tt
best_bid-none (p ∷ ps) b e = absurd (ground arith)

best_ask-none : (ps : List ℕ) (b : ℕ) → best_ask ps ≡ none → AllGe ps b
unfolding best_ask
best_ask-none [] b e = tt
best_ask-none (p ∷ ps) b e = absurd (ground arith)

best_bid-IsHighest : (ps : List ℕ) (b : ℕ) → best_bid ps ≡ some b → IsHighest ps b
unfolding best_bid
best_bid-IsHighest [] b e = cc
best_bid-IsHighest (p ∷ ps) b e = elim (Option-cases (best_bid ps)) [
  | inl empty ↦ ground (arith, best_bid-none ps b empty)
  | inr (q, more) ↦ ground (arith, best_bid-IsHighest ps q more, AllLe-mono ps q b)
]

best_ask-IsLowest : (ps : List ℕ) (a : ℕ) → best_ask ps ≡ some a → IsLowest ps a
unfolding best_ask
best_ask-IsLowest [] a e = cc
best_ask-IsLowest (p ∷ ps) a e = elim (Option-cases (best_ask ps)) [
  | inl empty ↦ ground (arith, best_ask-none ps a empty)
  | inr (q, more) ↦ ground (arith, best_ask-IsLowest ps q more, AllGe-mono ps q a)
]

-- What was seen when the watchdog calls for a requote because of drift: a highest bid, a lowest ask
-- and a mark above zero, the mid off the mark by more than the limit, and the floor passed.
pub record IsDrift (c : Config) (now last_drift : ℕ) (bk : Book) (mark : Option ℕ) : Type 0 where
  pub bid : ℕ
  pub ask : ℕ
  pub price : ℕ
  pub highest : IsHighest (live bk.bids) bid
  pub lowest : IsLowest (live bk.asks) ask
  pub known : (mark ≡ some price) × (0 < price)
  pub far : c.drift_bps * price < dist (500 * (bid + ask)) price * 10_000
  pub rested : last_drift + c.drift_min_ms ≤ now

abbrev pub IsFull : Config → Book → Type 0
IsFull c bk = (c.maker_levels ≤ visible_levels bk.bids) × (c.maker_levels ≤ visible_levels bk.asks)

abbrev pub Means : Config → ℕ → ℕ → Book → Option ℕ → Reason → Type 0
Means c now last_drift bk mark healthy = IsFull c bk
Means c now last_drift bk mark (short_ladder b a) =
    (b ≡ visible_levels bk.bids)
    × (a ≡ visible_levels bk.asks)
    × ((b < c.maker_levels) ⊎ (a < c.maker_levels))
Means c now last_drift bk mark off_mark = IsFull c bk × IsDrift c now last_drift bk mark

check_drift-cases :
    (c : Config) (now last_drift : ℕ) (bk : Book) (mark bid ask : Option ℕ)
    → best_bid (live bk.bids) ≡ bid
    → best_ask (live bk.asks) ≡ ask
    → (check_drift c now last_drift bid ask mark ≡ healthy)
      ⊎ ((check_drift c now last_drift bid ask mark ≡ off_mark) × IsDrift c now last_drift bk mark)
unfolding drifted
check_drift-cases c now last_drift bk mark none ask eb ea = inl refl
check_drift-cases c now last_drift bk mark (some b) none eb ea = inl refl
check_drift-cases c now last_drift bk none (some b) (some a) eb ea = inl refl
check_drift-cases c now last_drift bk (some price) (some b) (some a) eb ea =
    elim (Bool-cases
      (ltb 0 price && (drifted c.drift_bps b a price && leb (last_drift + c.drift_min_ms) now))) [
        | inr stay ↦ inl (rw stay refl)
        | inl go ↦ inr (
          rw go refl,
          record {
            bid = b;
            ask = a;
            price = price;
            highest = best_bid-IsHighest (live bk.bids) b eb;
            lowest = best_ask-IsLowest (live bk.asks) a ea;
            known = (refl, ground arith);
            far = ground arith;
            rested = ground arith;
          },
        )
      ]

-- The watchdog leaves a book alone only if both sides show the target number of distinct prices; it
-- reports a short ladder with the levels that there are; and it calls the quotes off the mark only
-- if the mid of the highest live bid and the lowest live ask is off the mark by more than the limit,
-- and not sooner after the last such call than the floor allows.
pub reason_of-Means :
    (c : Config) (now last_drift : ℕ) (bk : Book) (mark : Option ℕ)
    → Means c now last_drift bk mark (reason_of c now last_drift bk mark)
unfolding reason_of
reason_of-Means c now last_drift bk mark =
    elim (Bool-cases (
      ltb (visible_levels bk.bids) c.maker_levels || ltb (visible_levels bk.asks) c.maker_levels)) [
        | inl short ↦ rw short (ground arith)
        | inr full ↦
            let both : IsFull c bk = ground arith in
            rw full
              (elim (check_drift-cases c now last_drift bk mark (best_bid (live bk.bids))
                (best_ask (live bk.asks)) refl refl) [
                  | inl fine ↦ rw fine both
                  | inr (off, drift) ↦ rw off (both, drift)
                ])
      ]

-- A ladder that was just laid symmetrically around the mark in whole ticks is not called off the
-- mark, if the mark is high enough for the lost fraction of a tick to stay within the limit.
pub symmetric-not-drifted :
    (drift_bps bid ask mark : ℕ)
    → bid + ask ≡ 2 * (mark / 1_000)
    → 9_990_000 ≤ drift_bps * mark
    → drifted drift_bps bid ask mark ≡ false
unfolding drifted
symmetric-not-drifted drift_bps bid ask mark around high =
    let near : dist (500 * (bid + ask)) mark ≤ 999 = omega arith in ground (arith, near)
