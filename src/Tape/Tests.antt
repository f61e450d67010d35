-- ===== src/Tape/Tests.antt =====
-- A tape with two fills.
use anqa_core.Common.{ℕ, refl, ◌≡◌, ◌+◌, [], ◌∷◌, take}
use anqa_core.Tape.{
  Print, numbered, capacity, read_from, read_tape, print, printed, history, read_tape-printed,
}

abbrev fill : ℕ → Print
fill price = record { seq = 0; price_in_ticks = price; base_lots = 5; timestamp = price + 1_000 }

two_fills :
    read_tape (printed (fill 20 ∷ fill 10 ∷ [])) ≡ numbered 2 (fill 20) ∷ numbered 1 (fill 10) ∷ []
unfolding read_tape read_from print
two_fills = refl

read_tape-printed_example :
    read_tape (printed (fill 20 ∷ fill 10 ∷ [])) ≡ take capacity (history (fill 20 ∷ fill 10 ∷ []))
read_tape-printed_example = read_tape-printed (fill 20 ∷ fill 10 ∷ [])
