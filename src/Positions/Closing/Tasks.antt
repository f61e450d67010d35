-- ===== src/Positions/Closing/Tasks.antt =====
-- The closes of a market: how many there are, and when their timers are due.
use mathlib.Core.Path.{subst}
use anqa_core.Common.{
  ℕ, zero, suc, ◌+◌, ◌≤◌, ◌≡◌, refl, ap, Bool, true, false, not, ◌&&◌, none, some, List, [], ◌∷◌,
  leb, ◌==◌, if◌then◌else◌, arith,
}
use anqa_core.Positions.Closing.{sending, settling, Task, is_in, remove_all, task_at, without}

-- How many closes of the market are on their way or settling.
unfoldable pub closes_of : ℕ → List Task → ℕ
closes_of k [] = 0
closes_of k (t ∷ ts) = (if t.0 == k then 1 else 0) + closes_of k ts

-- Whether the market's last accepted close is half a minute before `now`, or there is none.
unfoldable pub cooled : ℕ → ℕ → List (ℕ × ℕ) → Bool
cooled k now [] = true
cooled k now (a ∷ log) = if a.0 == k then leb (a.1 + 30_000) now else cooled k now log

abbrev pub settles : ℕ → Task → Bool
settles k (j, sending) = false
settles k (j, settling due) = j == k

unfoldable pub no_settling : ℕ → List Task → Bool
no_settling k [] = true
no_settling k (t ∷ ts) = not (settles k t) && no_settling k ts

abbrev pub DueLater : List (ℕ × ℕ) → Task → Type 0
DueLater log (k, sending) = Unit
DueLater log (k, settling due) = cooled k due log ≡ true

unfoldable pub Dues : List (ℕ × ℕ) → List Task → Type 0
Dues log [] = Unit
Dues log (t ∷ ts) = DueLater log t × Dues log ts

pub cooled-later :
    (k a b : ℕ) (log : List (ℕ × ℕ)) → a ≤ b → cooled k a log ≡ true → cooled k b log ≡ true
unfolding cooled
cooled-later k a b [] le h = refl
cooled-later k a b (x ∷ log) le h = ground (arith, h, le, cooled-later k a b log le)

pub closes_of-without :
    (k i : ℕ) (t : Task) (ts : List Task)
    → task_at i ts ≡ some t
    → closes_of k ts ≡ (if t.0 == k then 1 else 0) + closes_of k (without i ts)
unfolding closes_of task_at without
closes_of-without k i t [] e = ground (arith, e)
closes_of-without k zero t (u ∷ ts) e =
    let same : u.0 ≡ t.0 = ap (λ o. elim o [ none ↦ u.0 | some x ↦ x.0 ]) e in
    ap (λ j. (if j == k then 1 else 0) + closes_of k ts) same
closes_of-without k (suc i) t (u ∷ ts) e = ground (arith, closes_of-without k i t ts e)

pub closes_of-none : (k : ℕ) (ts : List Task) → closes_of k ts ≡ 0 → no_settling k ts ≡ true
unfolding closes_of no_settling
closes_of-none k [] e = refl
closes_of-none k ((j, sending) ∷ ts) e = ground (arith, e, closes_of-none k ts)
closes_of-none k ((j, settling due) ∷ ts) e = ground (arith, e, closes_of-none k ts)

pub no_settling-without :
    (k i : ℕ) (t : Task) (ts : List Task)
    → task_at i ts ≡ some t
    → no_settling k ts ≡ not (settles k t) && no_settling k (without i ts)
unfolding no_settling task_at without
no_settling-without k i t [] e = ground (arith, e)
no_settling-without k zero t (u ∷ ts) e =
    ap (λ o. not (elim o [ none ↦ settles k u | some x ↦ settles k x ]) && no_settling k ts) e
no_settling-without k (suc i) t (u ∷ ts) e = ground (arith, no_settling-without k i t ts e)

pub Dues-at :
    (i : ℕ) (t : Task) (ts : List Task) (log : List (ℕ × ℕ))
    → task_at i ts ≡ some t
    → Dues log ts
    → DueLater log t
unfolding Dues task_at
Dues-at i t [] log e h = ground (arith, e)
Dues-at zero t (u ∷ ts) log e h =
    subst (λ o. elim o [ none ↦ Unit | some x ↦ DueLater log x ]) e h.0
Dues-at (suc i) t (u ∷ ts) log e h = Dues-at i t ts log e h.1

pub Dues-without :
    (i : ℕ) (ts : List Task) (log : List (ℕ × ℕ)) → Dues log ts → Dues log (without i ts)
unfolding Dues without
Dues-without i [] log h = h
Dues-without zero (u ∷ ts) log h = h.1
Dues-without (suc i) (u ∷ ts) log h = (h.0, Dues-without i ts log h.1)

-- A close of a market that has none settling leaves the others' timers as they are.
pub Dues-accepted :
    (k now : ℕ) (ts : List Task) (log : List (ℕ × ℕ))
    → no_settling k ts ≡ true
    → Dues log ts
    → Dues ((k, now) ∷ log) ts
unfolding Dues no_settling cooled
Dues-accepted k now [] log e h = h
Dues-accepted k now ((j, sending) ∷ ts) log e h = (tt, Dues-accepted k now ts log e h.1)
Dues-accepted k now ((j, settling due) ∷ ts) log e h =
    (ground (arith, e, h.0), Dues-accepted k now ts log (ground (arith, e)) h.1)

pub is_in-remove_all :
    (j k : ℕ) (ks : List ℕ) → is_in j (remove_all k ks) ≡ not (k == j) && is_in j ks
unfolding is_in remove_all
is_in-remove_all j k [] = ground arith
is_in-remove_all j k (i ∷ ks) = ground (arith, is_in-remove_all j k ks)
