-- ===== src/Sessions/Token/Single.antt =====
-- One challenge at a time, and a minute between two.
use mathlib.Core.Path.{subst}
use anqa_core.Common.{
  ℕ, zero, suc, ◌+◌, ◌-◌, ◌≤◌, ◌≡◌, ◌⊎◌, inl, inr, refl, ap, sym, ◌∙◌, Bool, true, false, Option,
  none, some, List, [], ◌∷◌, ◌==◌, if◌then◌else◌, arith, Option-cases,
}
use anqa_core.Sessions.Token.{
  Stage, challenging, signing, logging_in, settled, Task, Mark, started, minted, Login, set_at,
  times, delete, start_request, tee_token, task_at, put, remember, advance_task, advance, Reached,
  load, call, answer, wait, forget,
}

abbrev owners : List Task → List ℕ
owners [] = []
owners (t ∷ ts) = t.0 ∷ owners ts

-- When a challenge was last started for the owner, unless a token was obtained since.
pub last_started : ℕ → List Mark → ℕ
last_started k [] = 0
last_started k (started j t ∷ log) = if k == j then t else last_started k log
last_started k (minted j ∷ log) = if k == j then 0 else last_started k log

pub Spaced : List Mark → Type 0
Spaced [] = Unit
Spaced (started k t ∷ log) = (last_started k log + 60_000 ≤ t) × Spaced log
Spaced (minted k ∷ log) = Spaced log

-- What holds of the page at every moment.
pub record IsSingle (s : Login) : Type 0 where
  pub one_each : (k : ℕ) → times k (owners s.tasks) ≤ 1
  pub shared : (k : ℕ) → times k (owners s.tasks) ≡ times k s.pending
  pub remembered : (k : ℕ) → s.last k ≡ last_started k s.log
  pub spaced : Spaced s.log

times-put-some :
    (k i : ℕ) (st : Stage) (ts : List Task)
    → times k (owners (put i (some st) ts)) ≡ times k (owners ts)
unfolding times put
times-put-some k i st [] = refl
times-put-some k zero st (t ∷ ts) = refl
times-put-some k (suc i) st (t ∷ ts) = ground (arith, times-put-some k i st ts)

times-put-none :
    (k i : ℕ) (t : Task) (ts : List Task)
    → task_at i ts ≡ some t
    → times k (owners ts) ≡ (if t.0 == k then 1 else 0) + times k (owners (put i none ts))
unfolding times put task_at
times-put-none k i t [] e = ground (arith, e)
times-put-none k zero t (u ∷ ts) e =
    let same : u.0 ≡ t.0 = ap (λ o. elim o [ none ↦ u.0 | some x ↦ x.0 ]) e in
    ap (λ j. (if j == k then 1 else 0) + times k (owners ts)) same
times-put-none k (suc i) t (u ∷ ts) e = ground (arith, times-put-none k i t ts e)

times-delete :
    (k j : ℕ) (js : List ℕ) → times k (delete j js) ≡ times k js - (if j == k then 1 else 0)
unfolding times delete
times-delete k j [] = ground arith
times-delete k j (i ∷ js) = ground (arith, times-delete k j js)

tee_token-cases :
    (is_private can_sign : Bool) (k : ℕ) (s : Login)
    → ((tee_token is_private can_sign k s).1 ≡ s)
      ⊎ ((times k s.pending ≡ 0)
          × ((s.last k + 60_000 ≤ s.clock)
              × ((tee_token is_private can_sign k s).1 ≡ start_request k s)))
unfolding tee_token
tee_token-cases is_private can_sign k s = ground arith

start_request-IsSingle :
    (k : ℕ) (s : Login)
    → IsSingle s
    → times k s.pending ≡ 0
    → s.last k + 60_000 ≤ s.clock
    → IsSingle (start_request k s)
unfolding times last_started Spaced
start_request-IsSingle k s h idle cool = record {
  one_each = λ j. ground (arith, idle, h.one_each j, h.shared j, h.shared k);
  shared = λ j. ground (arith, h.shared j);
  remembered = λ j. ground (arith, h.remembered j);
  spaced = (ground (arith, cool, h.remembered k), h.spaced);
}

module _ (s : Login) (h : IsSingle s) where
  -- A task that only goes on.
  goes_on : (i : ℕ) (st : Stage) → IsSingle (record s { tasks = put i (some st) s.tasks })
  goes_on i st = record {
    one_each = λ j. ground (arith, h.one_each j, times-put-some j i st s.tasks);
    shared = λ j. times-put-some j i st s.tasks ∙ h.shared j;
    remembered = h.remembered;
    spaced = h.spaced;
  }

  ends :
      (i : ℕ) (t : Task)
      → task_at i s.tasks ≡ some t
      → IsSingle (record s { tasks = put i none s.tasks; pending = delete t.0 s.pending })
  ends i t e = record {
    one_each = λ j. ground (arith, h.one_each j, times-put-none j i t s.tasks e);
    shared = λ j.
        ground (arith, h.shared j, times-put-none j i t s.tasks e, times-delete j t.0 s.pending);
    remembered = h.remembered;
    spaced = h.spaced;
  }

  obtains :
      (i k : ℕ) (stored : ℕ → Option ℕ)
      → IsSingle (record s {
        tasks = put i (some settled) s.tasks;
        stored = stored;
        last = set_at k 0 s.last;
        log = minted k ∷ s.log;
      })
  unfolding last_started Spaced
  obtains i k stored = record {
    one_each = (goes_on i settled).one_each;
    shared = (goes_on i settled).shared;
    remembered = λ j. ground (arith, h.remembered j);
    spaced = h.spaced;
  }

  task-IsSingle :
      (i : ℕ) (is_good : Bool) (exp : Option ℕ) (k : ℕ) (st : Stage)
      → task_at i s.tasks ≡ some (k, st)
      → IsSingle (advance_task i is_good exp (k, st) s)
  unfolding advance_task
  task-IsSingle i is_good exp k challenging e = goes_on i (if is_good then signing else settled)
  task-IsSingle i is_good exp k signing e = goes_on i (if is_good then logging_in else settled)
  task-IsSingle i false exp k logging_in e = goes_on i settled
  task-IsSingle i true exp k logging_in e = obtains i k (remember k exp s.stored)
  task-IsSingle i is_good exp k settled e = ends i (k, settled) e

  advance-IsSingle : (i : ℕ) (is_good : Bool) (exp : Option ℕ) → IsSingle (advance i is_good exp s)
  unfolding advance
  advance-IsSingle i is_good exp = elim (Option-cases (task_at i s.tasks)) [
    | inl e ↦
        let same : advance i is_good exp s ≡ s = rw (e, advance) refl in subst IsSingle (sym same) h
    | inr (t, e) ↦
        let same : advance i is_good exp s ≡ advance_task i is_good exp t s =
          rw (e, advance) refl in
        subst IsSingle (sym same) (task-IsSingle i is_good exp t.0 t.1 e)
  ]

  tee_token-IsSingle :
      (is_private can_sign : Bool) (k : ℕ) → IsSingle (tee_token is_private can_sign k s).1
  tee_token-IsSingle is_private can_sign k = elim (tee_token-cases is_private can_sign k s) [
    | inl e ↦ subst IsSingle (sym e) h
    | inr (idle, (cool, e)) ↦ subst IsSingle (sym e) (start_request-IsSingle k s h idle cool)
  ]

-- Whatever the readers of a page call and the network answers, from the load of the page on: an owner
-- has at most one request on its way, and one exactly if it is pending, so that later calls share it and
-- no owner stays locked out; and a challenge starts at least a minute after the last one of that owner, if
-- that one has given no token. The clock goes forward, and stored tokens may change at any time.
pub Reached-IsSingle : {s : Login} → Reached s → IsSingle s
unfolding times last_started Spaced
Reached-IsSingle (load clock stored) = record {
  one_each = λ k. ground arith;
  shared = λ k. refl;
  remembered = λ k. refl;
  spaced = tt;
}
Reached-IsSingle (call is_private can_sign k {s} r) =
    tee_token-IsSingle s (Reached-IsSingle r) is_private can_sign k
Reached-IsSingle (answer i is_good exp {s} r) =
    advance-IsSingle s (Reached-IsSingle r) i is_good exp
Reached-IsSingle (wait d r) =
    let h = Reached-IsSingle r in
    record {
      one_each = h.one_each;
      shared = h.shared;
      remembered = h.remembered;
      spaced = h.spaced;
    }
Reached-IsSingle (forget stored r) =
    let h = Reached-IsSingle r in
    record {
      one_each = h.one_each;
      shared = h.shared;
      remembered = h.remembered;
      spaced = h.spaced;
    }
