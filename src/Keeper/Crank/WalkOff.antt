-- ===== src/Keeper/Crank/WalkOff.antt =====
-- Which market `walkOff` picks.
use anqa_core.Common.{
  ℕ, ◌+◌, ◌≤◌, ◌<◌, ◌≡◌, ◌≢◌, ◌⊎◌, inl, inr, refl, Option, none, some, List, [], ◌∷◌, ltb, arith,
  Bool-cases,
}
use mathlib.Core.List.{Memᴰ}
use anqa_core.Common.Int.{ℤ, pos, ◌≤ℤ◌, ◌<ℤ◌, ltb_ℤ}
use anqa_core.Keeper.Crank.{Debtor, worst_from, worst_of, put_off, deep_debt}

-- No market that may be tried is further behind than `bound`.
abbrev pub AllAtMost : ℕ → ℤ → List Debtor → Type 0
AllAtMost now bound [] = Unit
AllAtMost now bound (d ∷ ds) = ((now < d.retry_at) ⊎ (d.lag ≤ℤ bound)) × AllAtMost now bound ds

-- `d` is one of the markets, may be tried, is behind by more than `bound`, and none is further
-- behind.
pub record IsWorst (now : ℕ) (bound : ℤ) (ds : List Debtor) (d : Debtor) : Type 0 where
  pub listed : Memᴰ d ds
  pub allowed : d.retry_at ≤ now
  pub behind : bound <ℤ d.lag
  pub furthest : AllAtMost now d.lag ds

abbrev pub Picks : ℕ → Option ℕ → ℤ → List Debtor → Option ℕ → Type 0
Picks now worst bound ds r =
    ((r ≡ worst) × AllAtMost now bound ds)
    ⊎ ((d : Debtor) × IsWorst now bound ds d × (r ≡ some d.id))

AllAtMost-mono :
    (now : ℕ) (a b : ℤ) (ds : List Debtor) → a ≤ℤ b → AllAtMost now a ds → AllAtMost now b ds
AllAtMost-mono now a b [] h k = tt
AllAtMost-mono now a b (d ∷ ds) h k = (omega arith, AllAtMost-mono now a b ds h k.1)

-- A market that is skipped, in front.
Picks-skip :
    (now : ℕ) (worst : Option ℕ) (bound : ℤ) (d : Debtor) (ds : List Debtor) (r : Option ℕ)
    → (now < d.retry_at) ⊎ (d.lag ≤ℤ bound)
    → Picks now worst bound ds r
    → Picks now worst bound (d ∷ ds) r
Picks-skip now worst bound d ds r h (inl (e, k)) = inl (e, (h, k))
Picks-skip now worst bound d ds r h (inr (c, w, e)) = inr (
  c,
  record {
    listed = Memᴰ.tail w.listed;
    allowed = w.allowed;
    behind = w.behind;
    furthest = (omega (arith, w.behind), w.furthest);
  },
  e,
)

-- A market that is taken, in front.
Picks-take :
    (now : ℕ) (worst : Option ℕ) (bound : ℤ) (d : Debtor) (ds : List Debtor) (r : Option ℕ)
    → d.retry_at ≤ now
    → bound <ℤ d.lag
    → Picks now (some d.id) d.lag ds r
    → Picks now worst bound (d ∷ ds) r
Picks-take now worst bound d ds r h b (inl (e, k)) = inr (
  d,
  record { listed = Memᴰ.head refl; allowed = h; behind = b; furthest = (inr (omega arith), k) },
  e,
)
Picks-take now worst bound d ds r h b (inr (c, w, e)) = inr (
  c,
  record {
    listed = Memᴰ.tail w.listed;
    allowed = w.allowed;
    behind = omega (arith, w.behind);
    furthest = (inr (omega (arith, w.behind)), w.furthest);
  },
  e,
)

worst_from-Picks :
    (now : ℕ) (worst : Option ℕ) (bound : ℤ) (ds : List Debtor)
    → Picks now worst bound ds (worst_from now worst bound ds)
unfolding worst_from
worst_from-Picks now worst bound [] = inl (refl, tt)
worst_from-Picks now worst bound (d ∷ ds) =
    let skip = Picks-skip now worst bound d ds (worst_from now worst bound ds) in
    let ih = worst_from-Picks now worst bound ds in
    elim (Bool-cases (ltb now d.retry_at)) [
      | inl wait ↦ rw wait (skip (inl (ground arith)) ih)
      | inr due ↦ elim (Bool-cases (ltb_ℤ bound d.lag)) [
        | inr small ↦ rw (due, small) (skip (inr (ground arith)) ih)
        | inl more ↦
            rw (due, more)
              (Picks-take now worst bound d ds _ (ground arith) (ground arith)
                (worst_from-Picks now (some d.id) d.lag ds))
      ]
    ]

-- `walkOff` picks a market exactly when one that may be tried is behind by more than the deep debt,
-- and then one that no other market which may be tried is further behind than.
pub worst_of-Picks :
    (now : ℕ) (ds : List Debtor)
    → ((worst_of now ds ≡ none) × AllAtMost now (pos deep_debt) ds)
      ⊎ ((d : Debtor) × IsWorst now (pos deep_debt) ds d × (worst_of now ds ≡ some d.id))
unfolding worst_of
worst_of-Picks now ds = worst_from-Picks now none (pos deep_debt) ds

worst_from-put_off :
    (now later id : ℕ) (worst : Option ℕ) (bound : ℤ) (ds : List Debtor)
    → later < now + 60_000
    → worst ≢ some id
    → worst_from later worst bound (put_off now id ds) ≢ some id
unfolding worst_from put_off
worst_from-put_off now later id worst bound [] h ne = ne
worst_from-put_off now later id worst bound (d ∷ ds) h ne = ground (
  arith,
  worst_from-put_off now later id worst bound ds h ne,
  worst_from-put_off now later id (some d.id) d.lag ds h,
)

-- A market whose pass has thrown is not picked again for a minute, so one that refuses every crank
-- cannot starve the others.
pub worst_of-put_off :
    (now later id : ℕ) (ds : List Debtor)
    → later < now + 60_000
    → worst_of later (put_off now id ds) ≢ some id
unfolding worst_of
worst_of-put_off now later id ds h = worst_from-put_off now later id none (pos deep_debt) ds h (cc)
