-- ===== src/Keeper/Passes.antt =====
-- app/keeper.ts: `every`, with `forEachMarket` and `guard` in it: one loop over the markets, started by a
-- timer. A pass awaits the work on one market after the other.
use mathlib.Core.Path.{subst}
use anqa_core.Common.{
  ℕ, zero, suc, ◌≡◌, refl, ap, ◌∙◌, Bool, true, false, List, [], ◌∷◌, ◌++◌, length, if◌then◌else◌,
}

-- The flag, the passes under way, each by the markets that it has left, of which it works on the first one,
-- and the works that began, the last one first.
pub record Loop : Type 0 where
  pub running : Bool
  pub passes : List (List ℕ)
  pub begun : List ℕ

-- How a promise ends.
pub data Outcome : Type 0 where
  returned thrown : Outcome

-- `guard`: what its function throws is logged and swallowed.
unfoldable pub guard : Outcome → Outcome
guard returned = returned
guard thrown = returned

-- The `finally` of `every`.
abbrev pub finally : List (List ℕ) → Loop → Loop
finally others s = record s { running = false; passes = others }

-- The loop of `forEachMarket` at its next market, or at its end.
abbrev pub at_market : List ℕ → List (List ℕ) → Loop → Loop
at_market [] others s = finally others s
at_market (m ∷ ms) others s = record s { passes = (m ∷ ms) ∷ others; begun = m ∷ s.begun }

-- What follows `await guard(…)`: a throw would leave the loop.
abbrev pub after_guard : Outcome → List ℕ → List (List ℕ) → Loop → Loop
after_guard returned ms others s = at_market ms others s
after_guard thrown ms others s = finally others s

-- The timer fires.
unfoldable pub fire : List ℕ → Loop → Loop
fire markets s = if s.running then s else at_market markets s.passes (record s { running = true })

-- The work of the `i`th pass on its market returns or throws.
unfoldable pub work_ends : ℕ → Outcome → List (List ℕ) → List (List ℕ) → Loop → Loop
unfolding guard
work_ends i o before [] s = s
work_ends zero o before ([] ∷ others) s = s
work_ends zero o before ((m ∷ ms) ∷ others) s = after_guard (guard o) ms (before ++ others) s
work_ends (suc i) o before (p ∷ others) s = work_ends i o (before ++ p ∷ []) others s

pub data Run (markets : List ℕ) : Loop → Type 0 where
  started : Run markets (record { running = false; passes = []; begun = [] })
  fires : {s : Loop} → Run markets s → Run markets (fire markets s)
  ends :
      (i : ℕ) (o : Outcome) {s : Loop} → Run markets s → Run markets (work_ends i o [] s.passes s)

-- No pass is under way and the flag is clear, or one is, and the flag is set.
pub data IsSolo : Loop → Type 0 where
  resting : (begun : List ℕ) → IsSolo (record { running = false; passes = []; begun = begun })
  passing :
      (m : ℕ) (ms begun : List ℕ)
      → IsSolo (record { running = true; passes = (m ∷ ms) ∷ []; begun = m ∷ begun })

fire-IsSolo : (markets : List ℕ) (s : Loop) → IsSolo s → IsSolo (fire markets s)
unfolding fire
fire-IsSolo [] s (resting begun) = resting begun
fire-IsSolo (m ∷ ms) s (resting begun) = passing m ms begun
fire-IsSolo markets s (passing m ms begun) = passing m ms begun

work_ends-IsSolo :
    (i : ℕ) (o : Outcome) (s : Loop) → IsSolo s → IsSolo (work_ends i o [] s.passes s)
unfolding work_ends
work_ends-IsSolo i o s (resting begun) = resting begun
work_ends-IsSolo zero returned s (passing m [] begun) = resting (m ∷ begun)
work_ends-IsSolo zero returned s (passing m (n ∷ ms) begun) = passing n ms (m ∷ begun)
work_ends-IsSolo zero thrown s (passing m [] begun) = resting (m ∷ begun)
work_ends-IsSolo zero thrown s (passing m (n ∷ ms) begun) = passing n ms (m ∷ begun)
work_ends-IsSolo (suc i) o s (passing m ms begun) = passing m ms begun

Run-alone : {markets : List ℕ} {s : Loop} → Run markets s → IsSolo s
Run-alone started = resting []
Run-alone {markets} (fires {s} r) = fire-IsSolo markets s (Run-alone r)
Run-alone (ends i o {s} r) = work_ends-IsSolo i o s (Run-alone r)

-- The works of a pass end one after the other, each as `how` says.
unfoldable pub works_end : ℕ → (ℕ → Outcome) → Loop → Loop
works_end zero how s = s
works_end (suc k) how s = works_end k (λ n. how (suc n)) (work_ends 0 (how 0) [] s.passes s)

abbrev pub onto : List ℕ → List ℕ → List ℕ
onto [] begun = begun
onto (m ∷ ms) begun = onto ms (m ∷ begun)

work_ends-next :
    (o : Outcome) (m : ℕ) (ms begun : List ℕ)
    → let s : Loop = record { running = true; passes = (m ∷ ms) ∷ []; begun = begun } in
      work_ends 0 o [] s.passes s ≡ at_market ms [] s
unfolding work_ends
work_ends-next returned m ms begun = refl
work_ends-next thrown m ms begun = refl

works_end-reaches :
    (how : ℕ → Outcome) (m : ℕ) (ms begun : List ℕ)
    → works_end
        (suc (length ms))
        how
        (record { running = true; passes = (m ∷ ms) ∷ []; begun = begun })
      ≡ record { running = false; passes = []; begun = onto ms begun }
unfolding works_end
works_end-reaches how m [] begun = work_ends-next (how 0) m [] begun
works_end-reaches how m (n ∷ ms) begun =
    let later = λ (i : ℕ). how (suc i) in
    ap (works_end (suc (length ms)) later) (work_ends-next (how 0) m (n ∷ ms) begun)
    ∙ works_end-reaches later n ms (n ∷ begun)

-- A pass under way begins the work on each market that it has left once, in order, and then clears the
-- flag, however the works end.
abbrev pub Finishes : Loop → Type 0
Finishes s =
    (how : ℕ → Outcome) (m : ℕ) (ms : List ℕ)
    → s.passes ≡ (m ∷ ms) ∷ []
    → works_end (suc (length ms)) how s
      ≡ record { running = false; passes = []; begun = onto ms s.begun }

-- However the timer fires and the works end, by a return or a throw: a loop has at most one pass under
-- way, so that it works on one market at a time, and its flag is set exactly while it has one; and a pass
-- under way begins the work on each market that it has left once, in order, and then clears the flag,
-- whatever these works throw.
pub Run-IsSolo : {markets : List ℕ} {s : Loop} → Run markets s → IsSolo s × Finishes s
Run-IsSolo {s} r = (solo, finishes s solo)
  where
    solo : IsSolo s
    solo = Run-alone r

    finishes : (s : Loop) → IsSolo s → Finishes s
    finishes s (resting begun) how m ms e = cc
    finishes s (passing n ns begun) how m ms e =
        let same : ns ≡ ms = cc in
        subst
          (λ l.
            works_end (suc (length l)) how
              (record { running = true; passes = (n ∷ ns) ∷ []; begun = n ∷ begun })
            ≡ record { running = false; passes = []; begun = onto l (n ∷ begun) })
          same (works_end-reaches how n ns (n ∷ begun))
