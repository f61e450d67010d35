-- ===== src/Keeper/Requote/Slot.antt =====
-- The venue's one slot for a maker, over every interleaving of the markets' watchdogs.
use anqa_core.Common.{ℕ, ◌≡◌, inl, inr, refl, Bool, true, false, ◌||◌, arith, Bool-cases}
use anqa_core.Keeper.Requote.{
  Venue, Reason, healthy, short_ladder, off_mark, put, reserve, release_maker, decide, child_error,
  child_exit,
}

-- Where the watchdog of a market stands: between timers, waiting for its reads, or with a maker
-- running.
pub data Stage : Type 0 where
  idle reading running : Stage

abbrev pub at_work : Stage → Bool
at_work idle = false
at_work reading = true
at_work running = true

abbrev stage_after : Bool → Stage → Stage → Stage
stage_after true new old = new
stage_after false new old = old

pub record World : Type 0 where
  pub venue : Venue
  pub stage : ℕ → Stage

abbrev pub calm : World
calm = record {
  venue = record {
    maker_busy = false;
    requoting = λ _. false;
    failures = λ _. 0;
    last_drift = λ _. 0;
  };
  stage = λ _. idle;
}

unfoldable pub begin : ℕ → World → World
unfolding reserve
begin m w =
    let (v, on) = reserve m w.venue in
    record { venue = v; stage = put w.stage m (stage_after on reading (w.stage m)) }

unfoldable pub settle : ℕ → ℕ → Reason → World → World
unfolding decide
settle m now why w =
    let (v, started) = decide m now why w.venue in
    record { venue = v; stage = put w.stage m (stage_after started running idle) }

-- What Node's child processes may do besides reporting once: report an exit after an error, and fail to
-- be spawned by an exception.
pub record Node : Type 0 where
  pub exits_after_error : Bool
  pub spawn_throws : Bool

-- Every interleaving: timers fire at any time; a read fails or decides; a maker that was started
-- reports by `error` or by `exit`. Where Node does that, an exit comes again at any time later, and an
-- exception of `spawn`, which `guard` swallows, ends the work with no maker started.
pub data Step (node : Node) (w : World) : World → Type 0 where
  timer : (m : ℕ) → Step node w (begin m w)
  read_failed :
      (m : ℕ)
      → w.stage m ≡ reading
      → Step node w (record { venue = release_maker m w.venue; stage = put w.stage m idle })
  decided : (m now : ℕ) (why : Reason) → w.stage m ≡ reading → Step node w (settle m now why w)
  error :
      (m : ℕ)
      → w.stage m ≡ running
      → Step node w (record { venue = child_error m w.venue; stage = put w.stage m idle })
  exit :
      (m code : ℕ)
      → w.stage m ≡ running
      → Step node w (record { venue = child_exit m code w.venue; stage = put w.stage m idle })
  late_exit :
      (m code : ℕ)
      → node.exits_after_error ≡ true
      → Step node w (record w { venue = child_exit m code w.venue })
  spawn_threw :
      (m now : ℕ) (why : Reason)
      → node.spawn_throws ≡ true
      → w.stage m ≡ reading
      → (decide m now why w.venue).1 ≡ true
      → Step node w (record { venue = (decide m now why w.venue).0; stage = put w.stage m idle })

pub data Reach (node : Node) : World → Type 0 where
  start : Reach node calm
  next : {w u : World} → Reach node w → Step node w u → Reach node u

-- The flags tell the truth, and one market at most is at work; exactly then the slot is taken.
pub record IsValid (w : World) : Type 0 where
  pub flagged : (k : ℕ) → w.venue.requoting k ≡ at_work (w.stage k)
  pub alone : (j k : ℕ) → at_work (w.stage j) ≡ true → at_work (w.stage k) ≡ true → j ≡ k
  pub taken : (k : ℕ) → at_work (w.stage k) ≡ true → w.venue.maker_busy ≡ true
  pub by_one : w.venue.maker_busy ≡ true → (k : ℕ) × (at_work (w.stage k) ≡ true)

-- A market at work gives the slot back.
module _ (w : World) (v : IsValid w) (m : ℕ) (working : at_work (w.stage m) ≡ true) where
  others_idle : (k : ℕ) → at_work (put w.stage m idle k) ≡ false
  others_idle k = elim (Bool-cases (at_work (w.stage k))) [
    | inl busy ↦ ground (arith, v.alone k m busy working)
    | inr free ↦ ground arith
  ]

  released-IsValid :
      (u : Venue)
      → u.maker_busy ≡ false
      → ((k : ℕ) → u.requoting k ≡ put w.venue.requoting m false k)
      → IsValid (record { venue = u; stage = put w.stage m idle })
  released-IsValid u free flags = record {
    flagged = λ k. ground (arith, flags k, v.flagged k);
    alone = λ j k a b. cc (others_idle j);
    taken = λ k a. cc (others_idle k);
    by_one = λ b. cc;
  }

-- While the slot is free nobody is at work.
free_idle :
    (w : World) → IsValid w → w.venue.maker_busy ≡ false → (k : ℕ) → at_work (w.stage k) ≡ false
free_idle w v free k = elim (Bool-cases (at_work (w.stage k))) [
  | inl busy ↦ cc (v.taken k busy)
  | inr idle_now ↦ idle_now
]

begin-IsValid : (m : ℕ) (w : World) → IsValid w → IsValid (begin m w)
unfolding begin
begin-IsValid m w v = elim (Bool-cases (w.venue.maker_busy || w.venue.requoting m)) [
  | inl stop ↦ rw stop (record {
    flagged = λ k. ground (arith, v.flagged k);
    alone = λ j k a b. v.alone j k (ground arith) (ground arith);
    taken = λ k a. v.taken k (ground arith);
    by_one = λ b. let (k, a) = v.by_one b in (k, ground arith);
  })
  | inr go ↦
      let free : w.venue.maker_busy ≡ false = ground arith in
      let rest = free_idle w v free in
      rw go (record {
        flagged = λ k. ground (arith, v.flagged k);
        alone = λ j k a b. ground (arith, rest j, rest k);
        taken = λ k a. refl;
        by_one = λ b. (m, ground arith);
      })
]

settle-IsValid :
    (m now : ℕ) (why : Reason) (w : World)
    → IsValid w
    → w.stage m ≡ reading
    → IsValid (settle m now why w)
unfolding settle
settle-IsValid m now healthy w v at = released-IsValid w v m (rw at) _ refl (λ k. refl)
settle-IsValid m now (short_ladder b a) w v at = record {
  flagged = λ k. ground (arith, v.flagged k);
  alone = λ j k p q. v.alone j k (ground arith) (ground arith);
  taken = λ k p. v.taken m (rw at);
  by_one = λ b. (m, ground arith);
}
settle-IsValid m now off_mark w v at = record {
  flagged = λ k. ground (arith, v.flagged k);
  alone = λ j k p q. v.alone j k (ground arith) (ground arith);
  taken = λ k p. v.taken m (rw at);
  by_one = λ b. (m, ground arith);
}

module _ {node : Node} (once : node.exits_after_error ≡ false)
    (spawns : node.spawn_throws ≡ false) where
  Step-IsValid : {w u : World} → Step node w u → IsValid w → IsValid u
  unfolding release_maker child_error child_exit
  Step-IsValid {w} (timer m) v = begin-IsValid m w v
  Step-IsValid {w} (read_failed m at) v = released-IsValid w v m (rw at) _ refl (λ k. refl)
  Step-IsValid {w} (decided m now why at) v = settle-IsValid m now why w v at
  Step-IsValid {w} (error m at) v = released-IsValid w v m (rw at) _ refl (λ k. refl)
  Step-IsValid {w} (exit m code at) v = released-IsValid w v m (rw at) _ refl (λ k. refl)
  Step-IsValid (late_exit m code again) v = cc (once, again)
  Step-IsValid (spawn_threw m now why threw at started) v = cc (spawns, threw)

  -- If no maker reports an exit after an error, and `spawn` itself throws nothing: however timers, reads and
  -- makers interleave over the markets, a market's flag is up exactly while
  -- it is at work, at most one market is, and the venue's slot is taken exactly while one is; so two
  -- makers never run at once, and the slot is never left taken with nobody to give it back.
  pub maker_slot-IsValid : {w : World} → Reach node w → IsValid w
  maker_slot-IsValid start = record {
    flagged = λ k. refl;
    alone = λ j k a b. cc;
    taken = λ k a. cc;
    by_one = λ b. cc;
  }
  maker_slot-IsValid (next r st) = Step-IsValid st (maker_slot-IsValid r)
