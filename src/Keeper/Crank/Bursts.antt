-- ===== src/Keeper/Crank/Bursts.antt =====
-- What a burst sends, and that bursts catch up with a clock that they gain on.
use anqa_core.Common.{
  ℕ, zero, suc, ◌+◌, ◌*◌, ◌≤◌, ◌≡◌, ◌⊎◌, inl, inr, refl, ◌∙◌, Bool, true, false, some, List, [],
  ◌∷◌, length, take, drop, length-drop, arith, Bool-cases,
}
use anqa_core.Common.Int.{pos, ltb_ℤ}
use anqa_core.Common.Async.{ok}
use anqa_core.Keeper.Crank.{
  Pass, no_pass, Rollup, measure, crank_tx, crank_burst, burst_loop, burst_size,
  crank_until_current, deep_debt, fulfilled, send_chunks, burst_sent,
}

fulfilled-take-drop :
    (n : ℕ) (rs : List Bool) → fulfilled (take n rs) + fulfilled (drop n rs) ≡ fulfilled rs
unfolding fulfilled
fulfilled-take-drop zero rs = omega arith
fulfilled-take-drop (suc n) [] = omega arith
fulfilled-take-drop (suc n) (true ∷ rs) = omega (arith, fulfilled-take-drop n rs)
fulfilled-take-drop (suc n) (false ∷ rs) = omega (arith, fulfilled-take-drop n rs)

send_chunks-eq :
    (k : ℕ) (rs : List Bool) (sent : ℕ)
    → length rs ≤ k
    → send_chunks k rs sent ≡ sent + fulfilled rs
unfolding send_chunks
send_chunks-eq zero [] sent h = unfold fulfilled in omega arith
send_chunks-eq zero (r ∷ rs) sent h = absurd (omega arith)
send_chunks-eq (suc k) [] sent h = unfold fulfilled in omega arith
send_chunks-eq (suc k) (r ∷ rs) sent h =
    let chunk = fulfilled-take-drop 32 (r ∷ rs) in
    send_chunks-eq k (drop 32 (r ∷ rs)) (sent + fulfilled (take 32 (r ∷ rs)))
      (omega (arith, length-drop 32 (r ∷ rs)))
    ∙ omega (arith, chunk)

fulfilled-le-length : (rs : List Bool) → fulfilled rs ≤ length rs
unfolding fulfilled
fulfilled-le-length [] = omega arith
fulfilled-le-length (true ∷ rs) = omega (arith, fulfilled-le-length rs)
fulfilled-le-length (false ∷ rs) = omega (arith, fulfilled-le-length rs)

-- Sending in chunks of 32 sends each transaction of a burst once: the count that is added to the
-- cranks is the number that the rollup took, of all of them, and no more than the burst.
pub burst_sent_counts :
    (rs : List Bool) → (burst_sent rs ≡ fulfilled rs) × (burst_sent rs ≤ length rs)
unfolding burst_sent
burst_sent_counts rs =
    let e = send_chunks-eq (length rs) rs 0 (omega arith) in
    (omega (arith, e), omega (arith, e, fulfilled-le-length rs))

-- A rollup that accepts every crank and shows the lag `f n` to the `n`th measurement.
abbrev pub steady : (ℕ → ℕ) → Rollup
steady f = record {
  lag = λ n. some (pos (f n));
  refuses = false;
  mark_fails = false;
  burst_fails = λ _. false;
}

-- Between two measurements a burst gains 90 slots for each of its cranks, or the lag is gone.
abbrev pub Gains : (ℕ → ℕ) → Type 0
Gains f = (n : ℕ) → (f (n + 1) + 90 * burst_size (pos (f n)) ≤ f n) ⊎ (f (n + 1) ≡ 0)

-- A burst below the ceiling covers the whole lag.
burst_gain :
    (f : ℕ → ℕ) (rounds n : ℕ) → Gains f → f n ≤ suc rounds * 23_040 → f (n + 1) ≤ rounds * 23_040
unfolding burst_size
burst_gain f rounds n gains h = omega (arith, gains n)

burst_loop-steady :
    (f : ℕ → ℕ) (rounds n : ℕ) (s : Pass)
    → Gains f
    → s.measured ≡ n + 1
    → f n ≤ rounds * 23_040
    → (burst_loop (steady f) rounds (pos (f n)) s).0 ≡ ok (pos 0)
unfolding burst_loop measure crank_burst
burst_loop-steady f zero n s gains at h = let none_left : f n ≡ 0 = omega arith in rw none_left refl
burst_loop-steady f (suc rounds) n s gains at h = elim (Bool-cases (ltb_ℤ (pos 0) (pos (f n)))) [
  | inr done ↦ rw done (let none_left : f n ≡ 0 = ground arith in rw none_left refl)
  | inl more ↦
      rw (more, at)
        (burst_loop-steady f rounds (n + 1)
          (record {
            measured = n + 1 + 1;
            singles = s.singles;
            bursts = burst_size (pos (f n)) ∷ s.bursts;
          })
          gains refl (burst_gain f rounds n gains h))
]

-- Where a crank gains on the clock, a pass gets there: if every burst gains at least 90 slots for
-- each crank, or leaves no lag, then a pass whose rounds times 23,040 slots cover the lag after the
-- confirmed crank returns a lag of zero; unless that lag is deep and the pass does not walk it off.
pub crank_until_current-steady :
    (f : ℕ → ℕ) (rounds : ℕ) (walk_off : Bool)
    → Gains f
    → f 1 ≤ rounds * 23_040
    → (walk_off ≡ true) ⊎ (f 1 ≤ deep_debt)
    → (crank_until_current (steady f) rounds walk_off no_pass).0 ≡ ok (pos 0)
unfolding crank_until_current measure crank_tx
crank_until_current-steady f rounds walk_off gains h shallow = ground (
  arith,
  burst_loop-steady f rounds 1 (record { measured = 2; singles = 1; bursts = [] }) gains refl h,
)
