-- ===== src/Keeper/Settle/Drained.antt =====
-- What `settle` takes off a book's queue: the rounds of its job, and the whole pass.
use mathlib.Core.Path.{subst}
use mathlib.Core.List.{append_assoc, append-nil}
use anqa_core.Common.{
  ℕ, zero, suc, ◌+◌, ◌≤◌, ◌≡◌, ◌⊎◌, inl, inr, refl, sym, ap, ◌∙◌, Bool, true, false, List, [], ◌∷◌,
  ◌++◌, length, take, drop, take-append-drop, min, ◌==◌, if◌then◌else◌, arith, Bool-cases,
}
use anqa_core.Common.Async.{Async, Result, ok, err, pure, ◌>>=◌, ◌>>◌, >>=-ok, >>=-err}
use anqa_core.Keeper.Settle.{
  Fill, Board, Rollup, IsOrderly, rest_of, popped, passed, fetch_book, crank_current, settle_fill,
  read_outcome, settle_head, settle_rounds, settle_shown, settle_market, IsDrained,
}

-- What a round comes to where the queue begins with `head`: it throws, before or after the head was taken, or
-- it goes on with the head taken and the rest of the queue in place.
abbrev Failed : Fill → Board → Result (Unit {0}) Bool × Board → Type 0
Failed head s end =
    (end.0 ≡ err tt)
    × ((end.1.consumed ≡ s.consumed) ⊎ (end.1.consumed ≡ s.consumed ++ (head ∷ [])))
    × (end.1.prints ≡ s.prints)

abbrev Went : Fill → List Fill → Board → Result (Unit {0}) Bool × Board → Type 0
Went head rest s end =
    (end.0 ≡ ok true)
    × (end.1.consumed ≡ s.consumed ++ (head ∷ []))
    × (s.prints ≤ end.1.prints)
    × (end.1.prints ≤ s.prints + 1)
    × ((new : List Fill) × (end.1.pending ≡ rest ++ new))

length-take : (n : ℕ) (fills : List Fill) → length (take n fills) ≡ min (length fills) n
length-take zero fills = ground arith
length-take (suc n) [] = ground arith
length-take (suc n) (f ∷ fills) = ground (arith, length-take n fills)

popped-Failed :
    (landed : Bool) (head : Fill) (t s : Board)
    → t.consumed ≡ s.consumed
    → t.prints ≡ s.prints
    → Failed head s (err tt, popped landed head t)
popped-Failed true head t s e f = (refl, inr (ap (λ c. c ++ (head ∷ [])) e), f)
popped-Failed false head t s e f = (refl, inl e, f)

module _ (o : Rollup) (h : IsOrderly o) where
  -- The reading of the head, which others cannot take.
  fetched :
      (head : Fill) (rest : List Fill) (s : Board)
      → s.pending ≡ head ∷ rest
      → (new : List Fill) × ((passed o s).pending ≡ head ∷ (rest ++ new))
  fetched head rest s e =
      let (new, grown) = h.appends s.awaits s.pending in (new, grown ∙ ap (λ p. p ++ new) e)

  -- The taking of the head that was read, and the reading of what came of it.
  taken-cases :
      (head : Fill) (rest : List Fill) (s : Board)
      → s.pending ≡ head ∷ rest
      → let end = settle_head o (head ∷ rest) s in Failed head s end ⊎ Went head rest s end
  unfolding settle_fill read_outcome
  taken-cases head rest s e =
      let a = s.awaits in
      let (new, shown) = fetched head rest s e in
      let (new', grown) = h.appends (a + 1) (rest ++ new) in
      let after = popped true head (passed o s) in
      let front : (passed o after).pending ≡ rest ++ (new ++ new') =
        ap (λ p. o.others (a + 1) (rest_of p)) shown ∙ grown ∙ append_assoc rest new new' in
      let ends_in = λ (z : Result (Unit {0}) Bool × Board). Failed head s z ⊎ Went head rest s z in
      let sending = settle_fill o head in
      let reading = sending >> read_outcome o in
      elim (Bool-cases (o.throws a)) [
        | inl refused ↦
            let it = popped (o.lands a) head (passed o s) in
            let e1 : sending s ≡ (err tt, it) = rw (refused, settle_fill) refl in
            let e2 =
              >>=-err reading (λ _. pure true) s it tt
                (>>=-err sending (λ _. read_outcome o) s it tt e1) in
            subst ends_in (sym e2) (inl (popped-Failed (o.lands a) head (passed o s) s refl refl))
        | inr sent ↦
            let e1 : sending s ≡ (ok tt, after) = rw (sent, settle_fill, h.confirmed a sent) refl in
            let e2 : reading s ≡ read_outcome o after =
              >>=-ok sending (λ _. read_outcome o) s after tt e1 in
            elim (Bool-cases (o.throws (a + 1))) [
              | inl unread ↦
                  let e3 : read_outcome o after ≡ (err tt, passed o after) =
                    rw (unread, read_outcome) refl in
                  subst ends_in
                    (sym (>>=-err reading (λ _. pure true) s (passed o after) tt (e2 ∙ e3)))
                    (inl (refl, inr refl, refl))
              | inr known ↦
                  let it = record (passed o after) {
                    prints = if o.filled (a + 1) then s.prints + 1 else s.prints;
                  } in
                  let e3 : read_outcome o after ≡ (ok tt, it) = rw (known, read_outcome) refl in
                  subst ends_in (sym (>>=-ok reading (λ _. pure true) s it tt (e2 ∙ e3)))
                    (inr (refl, refl, ground arith, ground arith, (new ++ new', front)))
            ]
      ]

  abbrev go_on : ℕ → Bool → Async Board (Unit {0}) (Unit {0})
  go_on k more = if more then settle_rounds o k else pure tt

  nothing-IsDrained :
      (fills : List Fill) (s t : Board)
      → t.consumed ≡ s.consumed
      → t.prints ≡ s.prints
      → IsDrained fills s (err tt, t)
  nothing-IsDrained fills s t none_taken e = record {
    taken = [];
    left = fills;
    in_order = refl;
    consumed_taken = none_taken ∙ sym (append-nil s.consumed);
    complete = λ never. absurd (cc);
    printed = (omega arith, omega arith);
  }

  failed-IsDrained :
      (head : Fill) (fills : List Fill) (s t : Board)
      → (t.consumed ≡ s.consumed) ⊎ (t.consumed ≡ s.consumed ++ (head ∷ []))
      → t.prints ≡ s.prints
      → IsDrained (head ∷ fills) s (err tt, t)
  failed-IsDrained head fills s t (inl none_taken) e =
      nothing-IsDrained (head ∷ fills) s t none_taken e
  failed-IsDrained head fills s t (inr one_taken) e = record {
    taken = head ∷ [];
    left = fills;
    in_order = refl;
    consumed_taken = one_taken;
    complete = λ never. absurd (cc);
    printed = (omega arith, omega arith);
  }

  later-IsDrained :
      (head : Fill) (fills : List Fill) (s t : Board) (end : Result (Unit {0}) (Unit {0}) × Board)
      → t.consumed ≡ s.consumed ++ (head ∷ [])
      → s.prints ≤ t.prints
      → t.prints ≤ s.prints + 1
      → IsDrained fills t end
      → IsDrained (head ∷ fills) s end
  later-IsDrained head fills s t end e low high d = record {
    taken = head ∷ d.taken;
    left = d.left;
    in_order = ap (λ fs. head ∷ fs) d.in_order;
    consumed_taken =
        d.consumed_taken ∙ ap (λ c. c ++ d.taken) e ∙ append_assoc s.consumed (head ∷ []) d.taken;
    complete = d.complete;
    printed = (omega (arith, d.printed.0), omega (arith, d.printed.1));
  }

  settle_rounds-IsDrained :
      (fills : List Fill) (s : Board) (later : List Fill)
      → s.pending ≡ fills ++ later
      → IsDrained fills s (settle_rounds o (length fills) s)
  unfolding settle_rounds fetch_book
  settle_rounds-IsDrained [] s later e = record {
    taken = [];
    left = [];
    in_order = refl;
    consumed_taken = sym (append-nil s.consumed);
    complete = λ _. refl;
    printed = (omega arith, omega arith);
  }
  settle_rounds-IsDrained (head ∷ fills) s later e =
      let goes = λ (z : Result (Unit {0}) (Unit {0}) × Board). IsDrained (head ∷ fills) s z in
      let round = fetch_book o >>= settle_head o in
      let on = go_on (length fills) in
      let fetching = fetch_book o in
      elim (Bool-cases (o.throws s.awaits)) [
        | inl lost ↦
            let e0 : fetching s ≡ (err tt, passed o s) = rw (lost, fetch_book) refl in
            let e1 = >>=-err fetching (settle_head o) s (passed o s) tt e0 in
            subst goes (sym (>>=-err round on s (passed o s) tt e1))
              (failed-IsDrained head fills s (passed o s) (inl refl) refl)
        | inr fine ↦
            let (new, shown) = fetched head (fills ++ later) s e in
            let seen = head ∷ ((fills ++ later) ++ new) in
            let e0 : fetching s ≡ (ok seen, passed o s) =
              rw (fine, fetch_book) (ap (λ p. (ok p, passed o s)) shown) in
            let e1 : round s ≡ settle_head o seen (passed o s) =
              >>=-ok fetching (settle_head o) s (passed o s) seen e0 in
            let end = settle_head o seen (passed o s) in
            elim (taken-cases head ((fills ++ later) ++ new) (passed o s) shown) [
              | inl (failed, taken, printed) ↦
                  let e2 : round s ≡ (err tt, end.1) = e1 ∙ ap (λ r. (r, end.1)) failed in
                  subst goes (sym (>>=-err round on s end.1 tt e2))
                    (failed-IsDrained head fills s end.1 taken printed)
              | inr (went, taken, low, high, (new', rest)) ↦
                  let e2 : round s ≡ (ok true, end.1) = e1 ∙ ap (λ r. (r, end.1)) went in
                  let queue =
                    rest
                    ∙ append_assoc (fills ++ later) new new'
                    ∙ append_assoc fills later (new ++ new') in
                  subst goes (sym (>>=-ok round on s end.1 true e2)) (
                    later-IsDrained head fills s end.1 _ taken low high
                      (settle_rounds-IsDrained fills end.1 (later ++ (new ++ new')) queue))
            ]
      ]

  begun-IsDrained :
      (fills : List Fill) (s t : Board) (end : Result (Unit {0}) (Unit {0}) × Board)
      → t.consumed ≡ s.consumed
      → t.prints ≡ s.prints
      → IsDrained fills t end
      → IsDrained fills s end
  begun-IsDrained fills s t end e f d = record {
    taken = d.taken;
    left = d.left;
    in_order = d.in_order;
    consumed_taken = d.consumed_taken ∙ ap (λ c. c ++ d.taken) e;
    complete = d.complete;
    printed = (omega (arith, d.printed.0), omega (arith, d.printed.1));
  }

  shown-IsDrained :
      (fills : List Fill) (s t : Board)
      → t.pending ≡ fills
      → t.consumed ≡ s.consumed
      → t.prints ≡ s.prints
      → IsDrained (take 4 fills) s ((crank_current o >> settle_rounds o (min (length fills) 4)) t)
  unfolding crank_current
  shown-IsDrained fills s t e none_taken none_printed =
      let goes = λ (z : Result (Unit {0}) (Unit {0}) × Board). IsDrained (take 4 fills) s z in
      let cranking = crank_current o in
      let rounds = λ (_ : Unit {0}). settle_rounds o (min (length fills) 4) in
      let u = passed o t in
      elim (Bool-cases (o.throws t.awaits)) [
        | inl lost ↦
            let e0 : cranking t ≡ (err tt, u) = rw (lost, crank_current) refl in
            subst goes (sym (>>=-err cranking rounds t u tt e0))
              (nothing-IsDrained (take 4 fills) s u none_taken none_printed)
        | inr fine ↦
            let e0 : cranking t ≡ (ok tt, u) = rw (fine, crank_current) refl in
            let (new, grown) = h.appends t.awaits t.pending in
            let split : fills ++ new ≡ take 4 fills ++ (drop 4 fills ++ new) =
              ap (λ p. p ++ new) (sym (take-append-drop 4 fills))
              ∙ append_assoc (take 4 fills) (drop 4 fills) new in
            let queue : u.pending ≡ take 4 fills ++ (drop 4 fills ++ new) =
              grown ∙ ap (λ p. p ++ new) e ∙ split in
            let drained = settle_rounds-IsDrained (take 4 fills) u (drop 4 fills ++ new) queue in
            subst goes (sym (>>=-ok cranking rounds t u tt e0)) (
              begun-IsDrained (take 4 fills) s u _ none_taken none_printed (
                subst (λ k. IsDrained (take 4 fills) u (settle_rounds o k u)) (length-take 4 fills)
                  drained))
      ]

  none-IsDrained :
      (fills : List Fill) (s t : Board)
      → (length fills == 0) ≡ true
      → t.consumed ≡ s.consumed
      → t.prints ≡ s.prints
      → IsDrained (take 4 fills) s (ok tt, t)
  none-IsDrained [] s t empty e f = record {
    taken = [];
    left = [];
    in_order = refl;
    consumed_taken = e ∙ sym (append-nil s.consumed);
    complete = λ _. refl;
    printed = (omega arith, omega arith);
  }
  none-IsDrained (_ ∷ fills) s t empty e f = absurd (ground (arith, empty))

  -- If others only add to the queue and a confirmed transaction has taken effect: whatever throws, a pass takes off
  -- the queue fills from its front in order, none but the first four of those that it was shown at
  -- first, and all of these if it does not throw; it reports as filled at most as many as it took.
  pub settle_market-IsDrained :
      (s : Board) → IsDrained (take 4 (o.others s.awaits s.pending)) s (settle_market o s)
  unfolding settle_market fetch_book crank_current
  settle_market-IsDrained s =
      let fills = o.others s.awaits s.pending in
      let goes = λ (z : Result (Unit {0}) (Unit {0}) × Board). IsDrained (take 4 fills) s z in
      let fetching = fetch_book o in
      let cranking = crank_current o in
      let t = passed o s in
      elim (Bool-cases (o.throws s.awaits)) [
        | inl lost ↦
            let e0 : fetching s ≡ (err tt, t) = rw (lost, fetch_book) refl in
            subst goes (sym (>>=-err fetching (settle_shown o) s t tt e0))
              (nothing-IsDrained (take 4 fills) s t refl refl)
        | inr fine ↦
            let e0 : fetching s ≡ (ok fills, t) = rw (fine, fetch_book) refl in
            subst goes (sym (>>=-ok fetching (settle_shown o) s t fills e0))
              (elim (Bool-cases (length fills == 0)) [
                | inl empty ↦ rw empty (none-IsDrained fills s t empty refl refl)
                | inr some_there ↦ rw some_there (shown-IsDrained fills s t refl refl refl)
              ])
      ]
