-- ===== src/Positions/Tests.antt =====
-- The modal at concrete positions.
use anqa_core.Common.{◌+◌, ◌≡◌, refl, true, false, some, [], ◌∷◌, arith}
use anqa_core.Keeper.Position.{Held}
use anqa_core.Keeper.Isolated.{pnl_of}
use anqa_core.Common.Ratio.{whole}
use anqa_core.Positions.{remove, Row, can_submit, amount_of, removal_unsafe, judge_remove}
use anqa_core.Positions.Closing.{
  Table, settling, click, go_on, opened, open_page, clicks, goes, waits,
}
use anqa_core.Positions.Closing.Spaced.{IsSpaced, Reached-IsSpaced}
use anqa_core.Positions.Removal.{can_submit-remove}

-- Ten lots long from 50 dollars a lot, on a hundred dollars.
abbrev ten_long : Held
ten_long = record { is_long = true; lots = 10 }

abbrev row : Row
row = record { leg = ten_long; entry = some 50_000_000; mark = some 55_000_000 }

-- The profit alone clears initial margin.
all_is_offered : can_submit 0 false remove row 0 100_000_000 (whole 100) ≡ true
unfolding can_submit pnl_of
all_is_offered = refl

can_submit-remove_example :
    judge_remove 55_000_000 50_000_000 (some ten_long) 100_000_000 (amount_of (whole 100))
    ≡ removal_unsafe
unfolding amount_of
can_submit-remove_example =
    can_submit-remove ten_long 55_000_000 50_000_000 0 100_000_000 0 (whole 100) (omega arith)
      (omega arith) (ground arith) all_is_offered

-- A double click, an accepted close, and a click before its timer is due.
abbrev busy_table : Table
busy_table = click 3 (go_on 0 true (click 3 (click 3 (opened 0))))

one_close : busy_table.tasks ≡ (3, settling 30_000) ∷ []
unfolding click go_on
one_close = refl

Reached-IsSpaced_example :
    IsSpaced (go_on 0 false (record busy_table { clock = busy_table.clock + 30_000 }))
Reached-IsSpaced_example =
    Reached-IsSpaced
      (goes 0 false (waits 30_000 (clicks 3 (goes 0 true (clicks 3 (clicks 3 (open_page 0)))))))
