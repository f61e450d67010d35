-- ===== src/Keeper/Requote/Delay.antt =====
-- The watchdog's backoff.
use anqa_core.Common.{ℕ, suc, ◌*◌, ◌^◌, ◌≤◌, ◌<◌, ◌≡◌, refl, arith, min}
use native.Mathlib.Nat.{pow-suc}
use anqa_core.Keeper.Requote.{Venue, base_delay, requote_delay, child_error, child_exit}

-- Each failure doubles the delay, up to five minutes.
pub base_delay-suc : (n : ℕ) → base_delay (suc n) ≡ min (2 * base_delay n) 300_000
unfolding base_delay
base_delay-suc n = omega (arith, pow-suc 2 n)

-- With a random number below 1, the delay starts at 15 s, doubles with each failure and stops at five minutes; jitter adds at most
-- three tenths to it, so the watchdog fires within 390 s whatever has failed. A maker that exits
-- with 0 brings the market's delay back to 15 s, and one that fails puts it one step up.
pub requote_delay_bounds :
    (v : Venue) (m code r : ℕ)
    → r < 2 ^ 53
    → (base_delay (v.failures m) ≤ requote_delay (v.failures m) r)
      × (10 * requote_delay (v.failures m) r ≤ 13 * base_delay (v.failures m))
      × (requote_delay (v.failures m) r ≤ 390_000)
      × (base_delay ((child_exit m 0 v).failures m) ≡ 15_000)
      × (base_delay ((child_exit m (suc code) v).failures m)
          ≡ min (2 * base_delay (v.failures m)) 300_000)
      × (base_delay ((child_error m v).failures m) ≡ min (2 * base_delay (v.failures m)) 300_000)
unfolding requote_delay child_exit child_error
requote_delay_bounds v m code r h =
    let b = base_delay (v.failures m) in
    let most : b * 3 * r ≤ b * 3 * 2 ^ 53 = grind arith in
    let cap : b ≤ 300_000 = unfold base_delay in omega arith in
    let one_more = base_delay-suc (v.failures m) in
    let none : base_delay 0 ≡ 15_000 = unfold base_delay in refl in
    (
      omega (arith, most),
      omega (arith, most),
      omega (arith, most, cap),
      ground (arith, none),
      ground (arith, one_more),
      ground (arith, one_more),
    )
