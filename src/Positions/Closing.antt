-- ===== src/Positions/Closing.antt =====
-- web/components/BottomTabs.tsx: the close button, `closeAndReturn`, with the markets that `closingRef`
-- holds. A click runs up to its first await; then its close is a task of its own, which goes on when it is
-- accepted or throws, and, where it was accepted, when its timer fires. Clicks on other markets, and clicks
-- again on the same one, come in between.
pub mod Tasks
pub mod Spaced
use anqa_core.Common.{
  ℕ, zero, suc, ◌+◌, Bool, true, false, not, ◌&&◌, ◌||◌, Option, none, some, List, [], ◌∷◌, ltb,
  leb, ◌==◌, if◌then◌else◌,
}

-- Whether the close is on its way, or has been accepted, with the time its timer is due.
pub data Stage : Type 0 where
  sending : Stage
  settling : ℕ → Stage

abbrev pub Task : Type 0
Task = ℕ × Stage

-- By market; a close that was accepted is logged with its time, in milliseconds.
pub record Table : Type 0 where
  pub clock : ℕ
  pub closing : List ℕ
  pub tasks : List Task
  pub accepted : List (ℕ × ℕ)

unfoldable pub is_in : ℕ → List ℕ → Bool
is_in k [] = false
is_in k (j ∷ js) = (j == k) || is_in k js

-- `closingRef.current.delete(k)`: a set, so that `k` is not in it any more.
unfoldable pub remove_all : ℕ → List ℕ → List ℕ
remove_all k [] = []
remove_all k (j ∷ js) = let rest = remove_all k js in if j == k then rest else j ∷ rest

-- The click, up to its first await.
unfoldable pub click : ℕ → Table → Table
unfolding is_in
click k s =
    if is_in k s.closing
    then s
    else record s { closing = k ∷ s.closing; tasks = (k, sending) ∷ s.tasks }

unfoldable pub task_at : ℕ → List Task → Option Task
task_at i [] = none
task_at zero (t ∷ ts) = some t
task_at (suc i) (t ∷ ts) = task_at i ts

unfoldable pub without : ℕ → List Task → List Task
without i [] = []
without zero (t ∷ ts) = ts
without (suc i) (t ∷ ts) = t ∷ without i ts

-- What the `i`th task does next: accepted or not, and a timer that is not due does nothing.
abbrev pub proceed : ℕ → Bool → Task → Table → Table
proceed i is_accepted (k, sending) s =
    if is_accepted
    then record s {
      tasks = (k, settling (s.clock + 30_000)) ∷ without i s.tasks;
      accepted = (k, s.clock) ∷ s.accepted;
    }
    else record s { tasks = without i s.tasks; closing = remove_all k s.closing }
proceed i is_accepted (k, settling due) s =
    if leb due s.clock
    then record s { tasks = without i s.tasks; closing = remove_all k s.closing }
    else s

unfoldable pub go_on : ℕ → Bool → Table → Table
unfolding task_at without remove_all
go_on i is_accepted s = elim (task_at i s.tasks) [ none ↦ s | some t ↦ proceed i is_accepted t s ]

abbrev pub opened : ℕ → Table
opened clock = record { clock = clock; closing = []; tasks = []; accepted = [] }

pub data Reached : Table → Type 0 where
  open_page : (clock : ℕ) → Reached (opened clock)
  clicks : (k : ℕ) {s : Table} → Reached s → Reached (click k s)
  goes : (i : ℕ) (is_accepted : Bool) {s : Table} → Reached s → Reached (go_on i is_accepted s)
  waits : (d : ℕ) {s : Table} → Reached s → Reached (record s { clock = s.clock + d })
