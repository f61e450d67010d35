-- ===== src/Sessions/Token.antt =====
-- web/lib/teeSession.ts: the login on the private rollup, for one rollup address, so that a request key is
-- an owner. A request is a task of its own, which takes a step at each answer that it has waited for; what
-- a page does in between is a step as well. `localStorage` can be written.
pub mod Single
use mathlib.Core.Path.{subst}
use anqa_core.Common.{
  ℕ, zero, suc, ◌+◌, ◌-◌, ◌*◌, ◌<◌, ◌≤◌, ◌≡◌, refl, ap, sym, ◌∙◌, Bool, true, false, not, ◌&&◌,
  ◌||◌, Option, none, some, List, [], ◌∷◌, ltb, leb, ◌==◌, if◌then◌else◌, arith, Bool-cases,
  Option-cases,
}

pub data Stage : Type 0 where
  challenging signing logging_in settled : Stage

abbrev pub Task : Type 0
Task = ℕ × Stage

-- A challenge that was started, and a token that was obtained, by owner; times are in milliseconds.
pub data Mark : Type 0 where
  started : ℕ → ℕ → Mark
  minted : ℕ → Mark

-- `stored` is the expiry, in seconds, of the token in `localStorage`, `last` is `lastAttempt.get(k) ?? 0`.
pub record Login : Type 0 where
  pub clock : ℕ
  pub stored : ℕ → Option ℕ
  pub pending : List ℕ
  pub last : ℕ → ℕ
  pub tasks : List Task
  pub log : List Mark

abbrev pub set_at {ℓ} : {A : Type ℓ} → ℕ → A → (ℕ → A) → ℕ → A
set_at k v f j = if j == k then v else f j

unfoldable pub times : ℕ → List ℕ → ℕ
times k [] = 0
times k (j ∷ js) = (if j == k then 1 else 0) + times k js

unfoldable pub delete : ℕ → List ℕ → List ℕ
delete k [] = []
delete k (j ∷ js) = if j == k then js else j ∷ delete k js

-- `cached`, as whether there is a hit: a token that lasts another minute.
unfoldable pub has_token : Login → ℕ → Bool
has_token s k = elim (s.stored k) [ none ↦ false | some exp ↦ ltb (s.clock + 60_000) (exp * 1_000) ]

pub data Answer : Type 0 where
  public_rollup token_at_hand cannot_sign shared_request cooling_down new_request : Answer

abbrev pub start_request : ℕ → Login → Login
start_request k s = record s {
  last = set_at k s.clock s.last;
  pending = k ∷ s.pending;
  tasks = (k, challenging) ∷ s.tasks;
  log = started k s.clock ∷ s.log;
}

-- `teeToken`, up to its first await: whether the address is that of a private rollup, and whether the
-- wallet can sign messages.
unfoldable pub tee_token : Bool → Bool → ℕ → Login → Answer × Login
unfolding has_token times
tee_token is_private can_sign k s =
    if not is_private
    then (public_rollup, s)
    else if has_token s k
    then (token_at_hand, s)
    else if not can_sign
    then (cannot_sign, s)
    else if ltb 0 (times k s.pending)
    then (shared_request, s)
    else if ltb (s.clock - s.last k) 60_000
    then (cooling_down, s)
    else (new_request, start_request k s)

unfoldable pub task_at : ℕ → List Task → Option Task
task_at i [] = none
task_at zero (t ∷ ts) = some t
task_at (suc i) (t ∷ ts) = task_at i ts

-- The `i`th task at its next stage, or gone.
unfoldable pub put : ℕ → Option Stage → List Task → List Task
put i o [] = []
put zero none (t ∷ ts) = ts
put zero (some st) (t ∷ ts) = (t.0, st) ∷ ts
put (suc i) o (t ∷ ts) = t ∷ put i o ts

-- `remember`: a token whose expiry cannot be read is not kept.
abbrev pub remember : ℕ → Option ℕ → (ℕ → Option ℕ) → ℕ → Option ℕ
remember k none stored = stored
remember k (some exp) stored = set_at k (some exp) stored

-- What a task does with the answer it waited for: it is good, or not, a rejection by the wallet included.
-- A token comes with its expiry, where that can be read.
unfoldable pub advance_task : ℕ → Bool → Option ℕ → Task → Login → Login
unfolding put delete
advance_task i is_good exp (k, challenging) s = record s {
  tasks = put i (some (if is_good then signing else settled)) s.tasks;
}
advance_task i is_good exp (k, signing) s = record s {
  tasks = put i (some (if is_good then logging_in else settled)) s.tasks;
}
advance_task i false exp (k, logging_in) s = record s { tasks = put i (some settled) s.tasks }
advance_task i true exp (k, logging_in) s = record s {
  tasks = put i (some settled) s.tasks;
  stored = remember k exp s.stored;
  last = set_at k 0 s.last;
  log = minted k ∷ s.log;
}
advance_task i is_good exp (k, settled) s = record s {
  tasks = put i none s.tasks;
  pending = delete k s.pending;
}

unfoldable pub advance : ℕ → Bool → Option ℕ → Login → Login
unfolding task_at advance_task
advance i is_good exp s = elim (task_at i s.tasks) [
  | none ↦ s
  | some t ↦ advance_task i is_good exp t s
]

abbrev pub at_start : ℕ → (ℕ → Option ℕ) → Login
at_start clock stored = record {
  clock = clock;
  stored = stored;
  pending = [];
  last = λ k. 0;
  tasks = [];
  log = [];
}

pub data Reached : Login → Type 0 where
  load : (clock : ℕ) (stored : ℕ → Option ℕ) → Reached (at_start clock stored)
  call :
      (is_private can_sign : Bool) (k : ℕ) {s : Login}
      → Reached s
      → Reached (tee_token is_private can_sign k s).1
  answer :
      (i : ℕ) (is_good : Bool) (exp : Option ℕ) {s : Login}
      → Reached s
      → Reached (advance i is_good exp s)
  wait : (d : ℕ) {s : Login} → Reached s → Reached (record s { clock = s.clock + d })
  forget : (stored : ℕ → Option ℕ) {s : Login} → Reached s → Reached (record s { stored = stored })
