-- ===== src/Maker/Send.antt =====
-- `withSession` and `send` of app/maker-daemon.ts: one write to the rollup, with its retries. An attempt
-- is one call of `sendIx`, from the blockhash to the poll for its status.
use anqa_core.Common.{
  ℕ, zero, suc, ◌+◌, ◌*◌, ◌≤◌, ◌<◌, ◌≡◌, ◌≢◌, ◌⊎◌, inl, inr, refl, Bool, true, false, ◌&&◌, Option,
  none, some, ltb, if◌then◌else◌, arith, Bool-cases, Option-cases,
}

-- What the texts of an error are tested for: an expired session, the transient refusals, a stale
-- certificate, and the bare code 6010.
pub record Fault : Type 0 where
  pub auth : Bool
  pub transient : Bool
  pub stale : Bool
  pub code_6010 : Bool

-- Whether the transaction took effect, and the error that the attempt threw.
pub record Attempt : Type 0 where
  pub lands : Bool
  pub fault : Option Fault

-- What the rollup answers to the `n`th attempt, and what `reauth` before it throws.
pub record Wire : Type 0 where
  pub attempt : ℕ → Attempt
  pub reauth : ℕ → Option Fault

-- An attempt that throws nothing has taken effect.
abbrev pub IsHonest : Wire → Type 0
IsHonest w = (n : ℕ) → (w.attempt n).fault ≡ none → (w.attempt n).lands ≡ true

pub data Report : Type 0 where
  sent : Report
  gave_up : Report
  threw : Fault → Report

-- What one call of `send` has come to: how often the write took effect, what the caller sees, and
-- the number of attempts made so far.
pub record Outcome : Type 0 where
  pub landed : ℕ
  pub report : Report
  pub next : ℕ

abbrev pub count_of : Bool → ℕ
count_of true = 1
count_of false = 0

abbrev pub report_of : Option Fault → Report
report_of none = sent
report_of (some f) = threw f

abbrev once : Wire → ℕ → ℕ → Outcome
once w landed n = record {
  landed = landed + count_of (w.attempt n).lands;
  report = report_of (w.attempt n).fault;
  next = n + 1;
}

module _ (w : Wire) where
  abbrev again : ℕ → ℕ → Fault → Option Fault → Outcome
  again landed n f none = once w landed n
  again landed n f (some g) = record { landed = landed; report = threw g; next = n }

  abbrev on_fault : ℕ → ℕ → Report → Outcome
  on_fault landed n sent = record { landed = landed; report = sent; next = n }
  on_fault landed n gave_up = record { landed = landed; report = gave_up; next = n }
  on_fault landed n (threw f) =
      if f.auth
      then again landed n f (w.reauth n)
      else record { landed = landed; report = threw f; next = n }

  -- `withSession`: an attempt, and once more after a fresh token.
  unfoldable pub with_session : ℕ → ℕ → Outcome
  with_session landed n =
      let first = once w landed n in on_fault first.landed first.next first.report

  -- The loop of `send`, with `k` tries left.
  unfoldable pub send_from : ℕ → ℕ → ℕ → Outcome
  unfolding with_session
  send_from zero landed n = record { landed = landed; report = gave_up; next = n }
  send_from (suc k) landed n =
      let o = with_session landed n in
      let more = send_from k o.landed o.next in
      elim o.report [
        | sent ↦ o
        | gave_up ↦ o
        | threw f ↦ if f.transient && ltb 0 k then more else o
      ]

  -- `send`, with its default of three tries.
  unfoldable pub send : ℕ → Outcome
  unfolding send_from
  send n = send_from 3 0 n

abbrev is_transient : Report → Bool
is_transient (threw f) = f.transient
is_transient _ = false

-- What a caller of `send` may rely on, where it has made `n` attempts before: it returns or throws
-- after at most `2 * k` attempts, of which as many may have taken effect.
pub record IsSend (k landed n : ℕ) (o : Outcome) : Type 0 where
  pub answered : o.report ≢ gave_up
  pub tried : (n < o.next) × (o.next ≤ n + 2 * k)
  pub counted : (landed ≤ o.landed) × (n + o.landed ≤ landed + o.next)
  pub effective : o.report ≡ sent → landed < o.landed
  pub patient : is_transient o.report ≡ true → n + k ≤ o.next

pub Report-cases : (r : Report) → (r ≡ sent) ⊎ ((r ≡ gave_up) ⊎ ((f : Fault) × (r ≡ threw f)))
Report-cases sent = inl refl
Report-cases gave_up = inr (inl refl)
Report-cases (threw f) = inr (inr (f, refl))

module _ (w : Wire) (honest : IsHonest w) where
  with_session-IsSend : (landed n : ℕ) → IsSend 1 landed n (with_session w landed n)
  unfolding with_session
  with_session-IsSend landed n =
      let first = honest n in
      let second = honest (n + 1) in
      elim (Option-cases (w.attempt n).fault) [
        | inl fine ↦ ground arith
        | inr (f, bad) ↦ elim (Bool-cases f.auth) [
          | inr other ↦ ground arith
          | inl expired ↦ elim (Option-cases (w.reauth (n + 1))) [
            | inr (g, lost) ↦ ground arith
            | inl renewed ↦ elim (Option-cases (w.attempt (n + 1)).fault) [
              | inl fine ↦ ground arith
              | inr (h, bad') ↦ ground arith
            ]
          ]
        ]
      ]

  send_from-IsSend : (k landed n : ℕ) → IsSend (suc k) landed n (send_from w (suc k) landed n)
  unfolding send_from
  send_from-IsSend zero landed n =
      let o = with_session w landed n in
      let one = with_session-IsSend landed n in
      elim (Report-cases o.report) [
        | inl done ↦ ground (arith, one)
        | inr (inl never) ↦ ground (arith, one)
        | inr (inr (f, bad)) ↦ ground (arith, one)
      ]
  send_from-IsSend (suc k) landed n =
      let o = with_session w landed n in
      let one = with_session-IsSend landed n in
      let more = send_from-IsSend k o.landed o.next in
      elim (Report-cases o.report) [
        | inl done ↦ ground (arith, one)
        | inr (inl never) ↦ ground (arith, one)
        | inr (inr (f, bad)) ↦ elim (Bool-cases f.transient) [
          | inl again ↦ ground (arith, one, more)
          | inr final ↦ ground (arith, one)
        ]
      ]

  -- If an attempt that throws nothing has taken effect: `send` returns or throws after one to six
  -- attempts. It returns only if the write took effect, it throws a transient error only after three
  -- attempts at least, and the write has taken effect at most as often as it was attempted.
  pub send-IsSend : (n : ℕ) → IsSend 3 0 n (send w n)
  unfolding send
  send-IsSend n = send_from-IsSend 2 0 n

-- Every attempt takes effect and throws nothing.
abbrev pub IsPerfect : Wire → Type 0
IsPerfect w = (n : ℕ) → w.attempt n ≡ record { lands = true; fault = none }

pub send-perfect :
    (w : Wire) (n : ℕ) → IsPerfect w → send w n ≡ record { landed = 1; report = sent; next = n + 1 }
unfolding send send_from with_session
send-perfect w n perfect = ground (arith, perfect n)
