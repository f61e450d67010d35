-- ===== src/Keeper/Crank.antt =====
-- app/keeper.ts: keeping the accrual clocks current. `assetLag`, `crankBurst`, `crankUntilCurrent`,
-- `catchUp` and `walkOff`. What the rollup answers is a parameter: the lag that each measurement
-- shows, and which sends it accepts.
pub mod Passes
pub mod Bursts
pub mod WalkOff
mod Tests
use anqa_core.Common.{
  ℕ, zero, suc, ◌+◌, ◌-◌, ◌*◌, ◌/◌, Bool, true, false, not, ◌&&◌, ◌||◌, Option, none, some, List,
  [], ◌∷◌, length, ltb, leb, if◌then◌else◌, min, take, drop,
}
use anqa_core.Common.Int.{ℤ, pos, pos_part, sub_ℕ, ltb_ℤ}
use anqa_core.Common.Async.{Async, ok, err, pure, throw, ◌>>=◌, ◌>>◌}
use anqa_core.Portfolio.{Bytes}
use anqa_core.Keeper.Position.{read_u64_le}

abbrev pub hdr_current_slot : ℕ
hdr_current_slot = 8 + 581

abbrev pub slot_stride : ℕ
slot_stride = 1293

abbrev pub asset_slot_last : ℕ
asset_slot_last = 8 + 41

abbrev header_minus : Option ℕ → Option ℕ → Option ℤ
header_minus (some header) (some slot_last) = some (sub_ℕ header slot_last)
header_minus _ _ = none

-- How far an asset trails the group header; `none` is a RangeError.
unfoldable pub asset_lag : Option Bytes → Option Bytes → ℕ → Option ℤ
unfolding read_u64_le
asset_lag (some risk_group) (some asset_slots) asset =
    header_minus (read_u64_le risk_group hdr_current_slot)
      (read_u64_le asset_slots (8 + asset * slot_stride + asset_slot_last))
asset_lag _ _ asset = some (pos 0)

-- One `results.filter((r) => r.status === "fulfilled").length`.
unfoldable pub fulfilled : List Bool → ℕ
fulfilled [] = 0
fulfilled (true ∷ rs) = suc (fulfilled rs)
fulfilled (false ∷ rs) = fulfilled rs

-- The send loop of `crankBurst`, 32 at a time: `rs` says of each transaction that is left whether
-- the rollup takes it. A chunk takes at least one, so as many rounds as transactions are enough.
unfoldable pub send_chunks : ℕ → List Bool → ℕ → ℕ
unfolding fulfilled
send_chunks zero rs sent = sent
send_chunks (suc k) [] sent = sent
send_chunks (suc k) (r ∷ rs) sent =
    send_chunks k (drop 32 (r ∷ rs)) (sent + fulfilled (take 32 (r ∷ rs)))

-- What `crankBurst` adds to the counters and returns, once the transactions are signed.
unfoldable pub burst_sent : List Bool → ℕ
unfolding send_chunks
burst_sent rs = send_chunks (length rs) rs 0

abbrev pub deep_debt : ℕ
deep_debt = 50_000

-- `Math.min(Math.ceil(lag / 90) + 1, 256)`
unfoldable pub burst_size : ℤ → ℕ
burst_size lag = min ((pos_part lag + 89) / 90 + 1) 256

-- What a pass over one market has done: how often it measured, the cranks that it sent and waited
-- for, and the sizes of its bursts, the last one first.
pub record Pass : Type 0 where
  pub measured : ℕ
  pub singles : ℕ
  pub bursts : List ℕ

abbrev pub no_pass : Pass
no_pass = record { measured = 0; singles = 0; bursts = [] }

-- The rollup, as one pass meets it: the `n`th measured lag, whether the confirmed crank is refused,
-- whether that crank is an every-30th one and the read of the mark after it fails, and whether the `n`th burst fails before it is sent.
-- `none` and `true` are throws.
pub record Rollup : Type 0 where
  pub lag : ℕ → Option ℤ
  pub refuses : Bool
  pub mark_fails : Bool
  pub burst_fails : ℕ → Bool

module _ (er : Rollup) where
  unfoldable pub measure : Async Pass (Unit {0}) ℤ
  measure s = elim (er.lag s.measured) [
    | none ↦ (err tt, s)
    | some l ↦ (ok l, record s { measured = s.measured + 1 })
  ]

  unfoldable pub crank_tx : Async Pass (Unit {0}) (Unit {0})
  crank_tx s =
      let s' = record s { singles = s.singles + 1 } in
      if er.refuses then (err tt, s) else (if er.mark_fails then (err tt, s') else (ok tt, s'))

  unfoldable pub crank_burst : ℕ → Async Pass (Unit {0}) (Unit {0})
  crank_burst count s =
      if er.burst_fails (length s.bursts)
      then (err tt, s)
      else (ok tt, record s { bursts = count ∷ s.bursts })

  -- `for (; i < rounds && lag > 0; i++)`, with `rounds` left.
  unfoldable pub burst_loop : ℕ → ℤ → Async Pass (Unit {0}) ℤ
  burst_loop zero lag s = (ok lag, s)
  burst_loop (suc rounds) lag s =
      let more = (do crank_burst (burst_size lag); l ← measure; burst_loop rounds l) in
      if ltb_ℤ (pos 0) lag then more s else (ok lag, s)

  unfoldable pub crank_until_current : ℕ → Bool → Async Pass (Unit {0}) ℤ
  crank_until_current rounds walk_off = do
    _ ← measure
    crank_tx
    lag ← measure
    if not walk_off && ltb_ℤ (pos deep_debt) lag then pure lag else burst_loop rounds lag

  -- One market of `catchUp`: the lag that is left, or none where it left the market alone.
  unfoldable pub catch_up : Async Pass (Unit {0}) (Option ℤ)
  unfolding crank_until_current
  catch_up = do
    lag ← measure
    if not (ltb_ℤ (pos 0) lag) || ltb_ℤ (pos 2_000_000) lag
        then pure none
        else (crank_until_current 200 false >>= λ left. pure (some left))

-- A market as `walkOff` sees it in one scan: its id, the lag that it measured (0 where the read
-- failed), and when it may be tried again.
pub record Debtor : Type 0 where
  pub id : ℕ
  pub lag : ℤ
  pub retry_at : ℕ

-- The scan for the worst market: the best so far, and its lag.
unfoldable pub worst_from : ℕ → Option ℕ → ℤ → List Debtor → Option ℕ
worst_from now worst worst_lag [] = worst
worst_from now worst worst_lag (d ∷ ds) =
    let skip = worst_from now worst worst_lag ds in
    let take_it = worst_from now (some d.id) d.lag ds in
    if ltb now d.retry_at then skip else (if ltb_ℤ worst_lag d.lag then take_it else skip)

unfoldable pub worst_of : ℕ → List Debtor → Option ℕ
unfolding worst_from
worst_of now ds = worst_from now none (pos deep_debt) ds

-- `retryAt.set(m.id, Date.now() + 60_000)` after a pass over `id` has thrown.
unfoldable pub put_off : ℕ → ℕ → List Debtor → List Debtor
put_off now id [] = []
put_off now id (d ∷ ds) =
    (if ltb d.id id then d else (if ltb id d.id then d else record d { retry_at = now + 60_000 }))
    ∷ put_off now id ds
