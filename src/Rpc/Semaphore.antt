-- ===== src/Rpc/Semaphore.antt =====
-- The semaphore under every interleaving of its callers.
use anqa_core.Common.{
  ℕ, ◌+◌, ◌-◌, ◌≤◌, ◌<◌, ◌≡◌, refl, ap, Bool, true, false, Option, none, some, List, [], ◌∷◌, ◌++◌,
  ◌⊎◌, arith, inl,
}
use mathlib.Core.List.{append_assoc, append-nil}
use anqa_core.Rpc.{Ticket, Pool, acquire, release}

-- A run of the process: the pool, and who has arrived, who has been let in, in order, and how many
-- of those have not released yet.
pub record World : Type 0 where
  pub pool : Pool
  pub arrived : List Ticket
  pub entered : List Ticket
  pub held : ℕ

abbrev pub fresh : World
fresh = record { pool = record { inflight = 0; queue = [] }; arrived = []; entered = []; held = 0 }

abbrev enter : Bool → Ticket → World → World
enter true t w = record w { entered = w.entered ++ (t ∷ []); held = w.held + 1 }
enter false t w = w

abbrev wake : Option Ticket → World → World
wake none w = w
wake (some t) w = record w { entered = w.entered ++ (t ∷ []); held = w.held + 1 }

-- A caller arrives and calls `acquire`.
unfoldable pub arrive : ℕ → Ticket → World → World
unfolding acquire
arrive max_inflight t w =
    let (p, now) = acquire max_inflight t w.pool in
    enter now t (record w { pool = p; arrived = w.arrived ++ (t ∷ []) })

-- A holder calls `release`.
unfoldable pub leave : World → World
unfolding release
leave w = let (p, woken) = release w.pool in wake woken (record w { pool = p; held = w.held - 1 })

-- Callers arrive and holders leave in any order.
pub data Reach (max_inflight : ℕ) : World → Type 0 where
  start : Reach max_inflight fresh
  arriving :
      {w : World} (t : Ticket) → Reach max_inflight w → Reach max_inflight (arrive max_inflight t w)
  leaving : {w : World} → Reach max_inflight w → 0 < w.held → Reach max_inflight (leave w)

pub record IsValid (max_inflight : ℕ) (w : World) : Type 0 where
  pub counted : w.held ≡ w.pool.inflight
  pub bounded : w.pool.inflight ≤ max_inflight
  pub busy : (w.pool.queue ≡ []) ⊎ (w.pool.inflight ≡ max_inflight)
  pub in_order : w.entered ++ w.pool.queue ≡ w.arrived

arrive-IsValid :
    (max_inflight : ℕ) (t : Ticket) (w : World)
    → IsValid max_inflight w
    → IsValid max_inflight (arrive max_inflight t w)
unfolding arrive
arrive-IsValid max_inflight t w v = ground (
  arith,
  ap (λ ts. ts ++ (t ∷ [])) v.in_order,
  append_assoc w.entered w.pool.queue (t ∷ []),
  append-nil w.entered,
  append-nil (w.entered ++ (t ∷ [])),
)

leave-IsValid :
    (max_inflight : ℕ) (w : World)
    → IsValid max_inflight w
    → 0 < w.held
    → IsValid max_inflight (leave w)
unfolding leave
leave-IsValid max_inflight w v h = by_queue w.pool.queue refl
  where
    by_queue : (q : List Ticket) → w.pool.queue ≡ q → IsValid max_inflight (leave w)
    by_queue [] e = ground arith
    by_queue (t ∷ ts) e = ground (arith, append_assoc w.entered (t ∷ []) ts)

-- However callers arrive and leave: as many slots are counted as callers hold one, never more than
-- the ceiling; nobody waits while a slot is free; and callers are let in exactly in the order of
-- their arrival, those who wait being the last to have come.
pub pool-IsValid : {max_inflight : ℕ} {w : World} → Reach max_inflight w → IsValid max_inflight w
pool-IsValid start = record {
  counted = refl;
  bounded = omega arith;
  busy = inl refl;
  in_order = refl;
}
pool-IsValid {max_inflight} (arriving {w = w} t r) =
    arrive-IsValid max_inflight t w (pool-IsValid r)
pool-IsValid {max_inflight} (leaving {w = w} r h) = leave-IsValid max_inflight w (pool-IsValid r) h
