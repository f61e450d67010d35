-- ===== src/Positions/Closing/Spaced.antt =====
-- One close at a time of a market, and half a minute between two that were accepted.
use mathlib.Core.Path.{subst}
use anqa_core.Common.{
  ℕ, ◌+◌, ◌≤◌, ◌≡◌, inl, inr, refl, sym, Bool, true, false, some, List, [], ◌∷◌, leb, ◌==◌,
  if◌then◌else◌, arith, Bool-cases, Option-cases, leb→le,
}
use anqa_core.Positions.Closing.{
  Stage, sending, settling, Table, is_in, remove_all, click, task_at, without, proceed, go_on,
  Reached, open_page, clicks, goes, waits,
}
use anqa_core.Positions.Closing.Tasks.{
  closes_of, cooled, no_settling, Dues, cooled-later, closes_of-without, closes_of-none,
  no_settling-without, Dues-at, Dues-without, Dues-accepted, is_in-remove_all,
}

-- A log of which each close is accepted half a minute after the last one of the same market.
pub Spaced : List (ℕ × ℕ) → Type 0
Spaced [] = Unit
Spaced (a ∷ log) = (cooled a.0 a.1 log ≡ true) × Spaced log

pub record IsSpaced (s : Table) : Type 0 where
  pub at_most_one : (k : ℕ) → closes_of k s.tasks ≤ 1
  pub held : (k : ℕ) → (if is_in k s.closing then 1 else 0) ≡ closes_of k s.tasks
  pub spaced : Spaced s.accepted
  later : Dues s.accepted s.tasks
  cool : (k : ℕ) → no_settling k s.tasks ≡ true → cooled k s.clock s.accepted ≡ true

click-IsSpaced : (k : ℕ) (s : Table) → IsSpaced s → IsSpaced (click k s)
unfolding click closes_of is_in no_settling Dues
click-IsSpaced k s h = elim (Bool-cases (is_in k s.closing)) [
  | inl e ↦ let same : click k s ≡ s = rw (e, click) refl in subst IsSpaced (sym same) h
  | inr e ↦
      let begun : Table = record s { closing = k ∷ s.closing; tasks = (k, sending) ∷ s.tasks } in
      let same : click k s ≡ begun = rw (e, click) refl in
      subst IsSpaced (sym same) (record {
        at_most_one = λ j. ground (arith, e, h.at_most_one j, h.held j, h.held k);
        held = λ j. ground (arith, e, h.held j, h.held k);
        spaced = h.spaced;
        later = (tt, h.later);
        cool = λ j none_settles. h.cool j (ground (arith, none_settles));
      })
]

module _ (s : Table) (h : IsSpaced s) (i k : ℕ) where
  -- The only close of its market is that one.
  alone : (st : Stage) → task_at i s.tasks ≡ some (k, st) → closes_of k (without i s.tasks) ≡ 0
  alone st e = ground (arith, h.at_most_one k, closes_of-without k i (k, st) s.tasks e)

  -- What is left once a close is over, with its market free again.
  over :
      (st : Stage)
      → task_at i s.tasks ≡ some (k, st)
      → cooled k s.clock s.accepted ≡ true
      → IsSpaced (record s { tasks = without i s.tasks; closing = remove_all k s.closing })
  over st e cold = record {
    at_most_one = λ j. ground (arith, h.at_most_one j, closes_of-without j i (k, st) s.tasks e);
    held = λ j. ground (
      arith,
      h.held j,
      alone st e,
      h.at_most_one j,
      closes_of-without j i (k, st) s.tasks e,
      is_in-remove_all j k s.closing,
    );
    spaced = h.spaced;
    later = Dues-without i s.tasks s.accepted h.later;
    cool = λ j none_settles. elim (Bool-cases (k == j)) [
      | inl same ↦
          let equal : k ≡ j = ground (arith, same) in
          subst (λ x. cooled x s.clock s.accepted ≡ true) equal cold
      | inr other ↦
          h.cool j (ground (arith, other, none_settles, no_settling-without j i (k, st) s.tasks e))
    ];
  }

  sending-cold : task_at i s.tasks ≡ some (k, sending) → cooled k s.clock s.accepted ≡ true
  sending-cold e =
      let gone = closes_of-none k (without i s.tasks) (alone sending e) in
      h.cool k (ground (arith, gone, no_settling-without k i (k, sending) s.tasks e))

  accepts :
      task_at i s.tasks ≡ some (k, sending)
      → IsSpaced (record s {
        tasks = (k, settling (s.clock + 30_000)) ∷ without i s.tasks;
        accepted = (k, s.clock) ∷ s.accepted;
      })
  unfolding closes_of no_settling Dues Spaced cooled
  accepts e =
      let gone = closes_of-none k (without i s.tasks) (alone sending e) in
      record {
        at_most_one =
            λ j. ground (arith, h.at_most_one j, closes_of-without j i (k, sending) s.tasks e);
        held = λ j. ground (arith, h.held j, closes_of-without j i (k, sending) s.tasks e);
        spaced = (sending-cold e, h.spaced);
        later = (
          ground arith,
          Dues-accepted k s.clock (without i s.tasks) s.accepted gone
              (Dues-without i s.tasks s.accepted h.later),
        );
        cool = λ j none_settles.
            ground (arith, none_settles, h.cool j, no_settling-without j i (k, sending) s.tasks e);
      }

  proceed-IsSpaced :
      (is_accepted : Bool) (st : Stage)
      → task_at i s.tasks ≡ some (k, st)
      → IsSpaced (proceed i is_accepted (k, st) s)
  proceed-IsSpaced true sending e = accepts e
  proceed-IsSpaced false sending e = over sending e (sending-cold e)
  proceed-IsSpaced is_accepted (settling due) e = elim (Bool-cases (leb due s.clock)) [
    | inl fires ↦
        let cold = Dues-at i (k, settling due) s.tasks s.accepted e h.later in
        rw (fires) (
          over (settling due) e
            (cooled-later k due s.clock s.accepted (leb→le due s.clock fires) cold))
    | inr early ↦ rw (early) h
  ]

go_on-IsSpaced :
    (i : ℕ) (is_accepted : Bool) (s : Table) → IsSpaced s → IsSpaced (go_on i is_accepted s)
unfolding go_on
go_on-IsSpaced i is_accepted s h = elim (Option-cases (task_at i s.tasks)) [
  | inl e ↦ let same : go_on i is_accepted s ≡ s = rw (e, go_on) refl in subst IsSpaced (sym same) h
  | inr (t, e) ↦
      let same : go_on i is_accepted s ≡ proceed i is_accepted t s = rw (e, go_on) refl in
      subst IsSpaced (sym same) (proceed-IsSpaced s h i t.0 is_accepted t.1 e)
]

-- However clicks, answers and timers come, from the moment the page is opened on: a market has at most one
-- close that is on its way or settling, and its button is held exactly while it has one, so that it never
-- stays locked; and two closes of one market are accepted at least half a minute apart. The clock goes
-- forward, and a timer does not fire before it is due.
pub Reached-IsSpaced : {s : Table} → Reached s → IsSpaced s
unfolding closes_of is_in Dues Spaced cooled
Reached-IsSpaced (open_page clock) = record {
  at_most_one = λ k. ground arith;
  held = λ k. refl;
  spaced = tt;
  later = tt;
  cool = λ k e. refl;
}
Reached-IsSpaced (clicks k {s} r) = click-IsSpaced k s (Reached-IsSpaced r)
Reached-IsSpaced (goes i is_accepted {s} r) = go_on-IsSpaced i is_accepted s (Reached-IsSpaced r)
Reached-IsSpaced (waits d {s} r) =
    let h = Reached-IsSpaced r in
    record {
      at_most_one = h.at_most_one;
      held = h.held;
      spaced = h.spaced;
      later = h.later;
      cool = λ k e. cooled-later k s.clock (s.clock + d) s.accepted (ground arith) (h.cool k e);
    }
