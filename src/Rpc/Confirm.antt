-- ===== src/Rpc/Confirm.antt =====
-- Confirmation by polling.
use mathlib.Core.Path.{subst}
use anqa_core.Common.{
  ◌⊎◌, inl, inr, none, ℕ, zero, suc, ◌+◌, ◌*◌, ◌≤◌, ◌<◌, ◌≡◌, refl, Bool, true, false, Option, some,
  ltb, if◌then◌else◌, le→ltb, ltb→lt, ltb→ge, arith, Option-cases, Bool-cases, inl, inr, sym,
}
use anqa_core.Rpc.{
  Level, Status, Confirmation, success, failure, expired, timed_out, no_fuel, reached, judge,
  after_height, broken, poll, confirm_transaction,
}

module _ (clock : ℕ → ℕ) (status : ℕ → Option (Option Status)) (height : ℕ → Option ℕ) where
  -- A round before the deadline that showed nothing to end by.
  abbrev Inconclusive : Level → Option (Option Status) → Type 0
  Inconclusive commitment none = ⊥
  Inconclusive commitment (some none) = Unit
  Inconclusive commitment (some (some st)) =
      (st.failed ≡ false) × (reached commitment st.level ≡ false)

  abbrev StillValid : Option ℕ → Option ℕ → Type 0
  StillValid none h = Unit
  StillValid (some v) none = ⊥
  StillValid (some v) (some h) = h ≤ v

  abbrev pub Waited : Level → Option ℕ → ℕ → ℕ → Type 0
  Waited commitment last_valid deadline n =
      (clock n < deadline) × Inconclusive commitment (status n) × StillValid last_valid (height n)

  -- What must have been seen in some round, before the deadline, for each way to end; the poll is given up
  -- at the deadline, after rounds that all had to wait.
  abbrev pub Justified : Level → Option ℕ → ℕ → Confirmation → Type 0
  Justified commitment last_valid deadline success =
      (n : ℕ) × (st : Status) × (clock n < deadline)
      × (status n ≡ some (some st))
      × (st.failed ≡ false)
      × (reached commitment st.level ≡ true)
  Justified commitment last_valid deadline failure =
      (n : ℕ) × (st : Status) × (clock n < deadline)
      × (status n ≡ some (some st))
      × (st.failed ≡ true)
  Justified commitment last_valid deadline expired =
      (n : ℕ) × (v : ℕ) × (h : ℕ) × (clock n < deadline)
      × (last_valid ≡ some v)
      × (height n ≡ some h)
      × (v < h)
  Justified commitment last_valid deadline timed_out =
      (n : ℕ) × (deadline ≤ clock n) × ((i : ℕ) → i < n → Waited commitment last_valid deadline i)
  Justified commitment last_valid deadline broken =
      (n : ℕ) × (clock n < deadline) × ((status n ≡ none) ⊎ (height n ≡ none))
  Justified commitment last_valid deadline no_fuel = ⊥

  Justified-if :
      (commitment : Level) (last_valid : Option ℕ) (deadline : ℕ) (b : Bool) (x y : Confirmation)
      → (b ≡ true → Justified commitment last_valid deadline x)
      → (b ≡ false → Justified commitment last_valid deadline y)
      → Justified commitment last_valid deadline (if b then x else y)
  Justified-if commitment last_valid deadline true x y hx hy = hx refl
  Justified-if commitment last_valid deadline false x y hx hy = hy refl

  after_height-Justified :
      (commitment : Level) (last_valid : Option ℕ) (deadline n : ℕ) (v : Option ℕ) (h : Option ℕ)
      (again : Confirmation)
      → clock n < deadline
      → last_valid ≡ v
      → height n ≡ h
      → (StillValid v h → Justified commitment last_valid deadline again)
      → Justified commitment last_valid deadline (after_height v h again)
  after_height-Justified commitment last_valid deadline n none h again early ev eh rest = rest tt
  after_height-Justified commitment last_valid deadline n (some v) none again early ev eh rest =
      (n, early, inr eh)
  after_height-Justified commitment last_valid deadline n (some v) (some h) again early ev eh rest =
      Justified-if commitment last_valid deadline (ltb v h) expired again
        (λ past. (n, v, h, early, ev, eh, ltb→lt _ _ past)) (λ e. rest (ltb→ge _ _ e))

  judge-Justified :
      (commitment : Level) (last_valid : Option ℕ) (deadline n : ℕ) (seen : Option Status)
      (waiting : Confirmation)
      → clock n < deadline
      → status n ≡ some seen
      → (Inconclusive commitment (some seen) → Justified commitment last_valid deadline waiting)
      → Justified commitment last_valid deadline (judge commitment seen waiting)
  judge-Justified commitment last_valid deadline n none waiting early e rest = rest tt
  judge-Justified commitment last_valid deadline n (some st) waiting early e rest =
      Justified-if commitment last_valid deadline st.failed failure _
        (λ bad. (n, st, early, e, bad))
        (λ fine.
          Justified-if commitment last_valid deadline (reached commitment st.level) success waiting
            (λ enough. (n, st, early, e, fine, enough)) (λ short. rest (fine, short)))

  one_more :
      (commitment : Level) (last_valid : Option ℕ) (deadline n : ℕ)
      → ((i : ℕ) → i < n → Waited commitment last_valid deadline i)
      → Waited commitment last_valid deadline n
      → (i : ℕ) → i < n + 1
      → Waited commitment last_valid deadline i
  one_more commitment last_valid deadline n before here i h = elim (Bool-cases (ltb i n)) [
    | inl earlier ↦ before i (ltb→lt _ _ earlier)
    | inr later ↦
        let e : n ≡ i = omega (arith, ltb→ge _ _ later) in
        subst (Waited commitment last_valid deadline) e here
  ]

  poll-Justified :
      (commitment : Level) (last_valid : Option ℕ) (deadline fuel n : ℕ)
      → ((m : ℕ) → m ≡ n + fuel → deadline ≤ clock m)
      → ((i : ℕ) → i < n → Waited commitment last_valid deadline i)
      → Justified commitment last_valid deadline
          (poll clock status height commitment last_valid deadline (suc fuel) n)
  unfolding poll
  poll-Justified commitment last_valid deadline zero n late before =
      rw (le→ltb _ _ (late n (omega arith))) (n, late n (omega arith), before)
  poll-Justified commitment last_valid deadline (suc fuel) n late before =
      let again = λ (here : Waited commitment last_valid deadline n).
        poll-Justified commitment last_valid deadline fuel (n + 1) (λ m e. late m (omega arith))
          (one_more commitment last_valid deadline n before here) in
      Justified-if commitment last_valid deadline (ltb (clock n) deadline) _ timed_out
        (λ e. elim (Option-cases (status n)) [
          | inl lost ↦ rw lost (n, ltb→lt _ _ e, inl lost)
          | inr (seen, eq) ↦ rw eq (
              judge-Justified commitment last_valid deadline n seen _ (ltb→lt _ _ e) eq
                (λ unsettled.
                  after_height-Justified commitment last_valid deadline n _ (height n) _
                    (ltb→lt _ _ e) refl refl
                    (λ valid.
                      again
                        (ltb→lt _ _ e, subst (Inconclusive commitment) (sym eq) unsettled, valid))))
        ])
        (λ e. (n, ltb→ge _ _ e, before))

  -- If a round takes at least 250 ms, the poll ends within its rounds, and by something that it saw:
  -- success by a status without an error at the level asked for, failure by a status with an error,
  -- expiry by a block height past the last valid one, an exception by a read that threw, each before
  -- the deadline; a timeout only once 60 s have passed, in which every round before had to wait: it came
  -- before the deadline, its reads answered, and showed no error, not the level asked for, and no block
  -- height past the last valid one.
  pub confirm_transaction-Justified :
      (commitment : Level) (last_valid : Option ℕ) (start : ℕ)
      → ((n : ℕ) → start + 250 * n ≤ clock n)
      → Justified commitment last_valid
          (start + 60_000)
          (confirm_transaction clock status height commitment last_valid start)
  unfolding confirm_transaction
  confirm_transaction-Justified commitment last_valid start pace =
      poll-Justified commitment last_valid (start + 60_000) 240 0 (λ m e. omega (arith, pace m))
        (λ i h. elim h [ ])
