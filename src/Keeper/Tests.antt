-- ===== src/Keeper/Tests.antt =====
-- The keeper's reader of positions, the isolated sweep, the deposit rail and the standing up of a
-- mirror, at concrete accounts.
use anqa_core.Keeper.Passes.{
  Loop, thrown, Finishes, fire, work_ends, started, fires, ends, IsSolo, Run-IsSolo,
}
use anqa_core.Common.Int.{◌+ℤ◌, ◌*ℤ◌}
use anqa_core.Portfolio.{u, u_from, signed}
use anqa_core.Portfolio.Words.{le_bytes, pattern_of}
use anqa_core.Portfolio.Legs.{encode_leg}
use anqa_core.Portfolio.Raw.{encode_words}
use anqa_core.Keeper.Position.{
  Held, read_u64_le, read_u32_le, read_i64_le, position_from, leg_held, collateral_at, entry_at,
}
use anqa_core.Common.{ℕ, List, Option, none, ◌==◌, if◌then◌else◌}
use anqa_core.Keeper.Deposits.{
  Rail, Answers, AllLedgers, AllSettled, claim_deposits, claim_one, submit, claim_deposits-settles,
}
use anqa_core.Keeper.Mirror.{
  Mirror, missing, Outside, initialize, create_permission, delegate, set_private, call, Sealed,
  provision_mirror, provision_mirror-Sealed,
}
use anqa_core.Keeper.Isolated.{
  check_holder, isolated_underwater, pnl_of, check_holder-eq-isolated_underwater,
}
use anqa_core.Common.{◌≡◌, refl, some, [], ◌∷◌, ◌++◌, ◌+◌, ◌*◌, true, false, arith}
use anqa_core.Portfolio.{read_kernel}
use anqa_core.Portfolio.Legs.{encode_legs}
use anqa_core.Portfolio.{Bytes}
use anqa_core.Portfolio.Tests.{zeros, four_legs, before_legs, four_legs-AllLegs, four_legs-IsBytes}
use anqa_core.Keeper.Position.{inner_at, read_position, find_position, read_position-eq-read_kernel}

read_position-eq-read_kernel_example :
    read_position (zeros inner_at ++ (before_legs ++ encode_legs four_legs [])) 7
    ≡ some (find_position 7 (read_kernel (before_legs ++ encode_legs four_legs [])).positions)
read_position-eq-read_kernel_example =
    read_position-eq-read_kernel 7 four_legs (zeros inner_at) before_legs [] four_legs-AllLegs
      (ground arith) refl refl refl four_legs-IsBytes

-- The account of a trader who is short 5 lots of asset 7 from 1,000 each, with 5,000 behind it.
abbrev short_account : Bytes
short_account =
    zeros 73
    ++ encode_words (0 ∷ 0 ∷ 0 ∷ 0 ∷ 0 ∷ 0 ∷ 0 ∷ 5_000 ∷ 0 ∷ 0 ∷ 0 ∷ 0 ∷ []) (
        encode_words (0 ∷ 0 ∷ 0 ∷ 0 ∷ 0 ∷ 0 ∷ 0 ∷ 1_000 ∷ 0 ∷ 0 ∷ 0 ∷ 0 ∷ [])
          (before_legs ++ encode_legs four_legs []))

abbrev short_five : Held
short_five = record { is_long = false; lots = 5 }

short_account-leg : read_position short_account 7 ≡ some (some short_five)
unfolding read_position position_from leg_held read_u32_le read_i64_le encode_legs encode_leg
    encode_words le_bytes pattern_of u u_from signed
short_account-leg = refl

short_account-fields :
    (read_u64_le short_account (collateral_at + 7 * 16) ≡ some 5_000)
    × (read_u64_le short_account (entry_at + 7 * 16) ≡ some 1_000)
unfolding read_u64_le encode_legs encode_leg encode_words le_bytes pattern_of u u_from
short_account-fields = (refl, refl)

-- At 1,950 it has 250 left, and needs 243; at 1,960 it is called.
short_account-decisions :
    (isolated_underwater 5_000 1_000 1_950 short_five ≡ false)
    × (isolated_underwater 5_000 1_000 1_960 short_five ≡ true)
unfolding isolated_underwater pnl_of ◌+ℤ◌ ◌*ℤ◌
short_account-decisions = (refl, refl)

check_holder-eq-isolated_underwater_example :
    check_holder 1_960 7 (some short_account)
    ≡ some (isolated_underwater 5_000 1_000 1_960 short_five)
check_holder-eq-isolated_underwater_example =
    check_holder-eq-isolated_underwater 1_960 7 5_000 1_000 short_account short_five
      short_account-fields.0 short_account-fields.1 short_account-leg (omega arith)

-- The ledgers of two owners, with 5 and 9 dollars; the first has been credited with 2 of them, and
-- the second has no account.
abbrev ledger : ℕ → ℕ → Bytes
ledger owner deposited = zeros 8 ++ le_bytes 32 owner ++ zeros 8 ++ le_bytes 8 deposited ++ zeros 17

abbrev rail : Rail
rail = record { credited = λ o. if o == 77 then some 2_000_000 else none; claims = [] }

abbrev ledgers : List Bytes
ledgers = ledger 77 5_000_000 ∷ ledger 78 9_000_000 ∷ []

ledgers-AllLedgers : AllLedgers ledgers
unfolding le_bytes
ledgers-AllLedgers = (refl, (refl, tt))

abbrev all_well : Answers
all_well = record { takes = λ _. true; reads = λ _. true }

abbrev nothing_works : Answers
nothing_works = record { takes = λ _. false; reads = λ _. false }

abbrev claims_of : Option Rail → List ℕ
claims_of none = []
claims_of (some r) = r.claims

ledgers-claims : claims_of (claim_deposits all_well ledgers rail) ≡ 77 ∷ []
unfolding claim_deposits claim_one submit read_u64_le le_bytes u u_from
ledgers-claims = refl

claim_deposits-settles_example :
    (next : Rail) × (claim_deposits all_well ledgers rail ≡ some next)
    × AllSettled next ledgers
    × (claim_deposits nothing_works ledgers next ≡ some next)
claim_deposits-settles_example =
    claim_deposits-settles all_well nothing_works ledgers rail (λ _. refl) (λ _. refl)
      ledgers-AllLedgers

-- A mirror that does not exist yet.
abbrev fresh : Mirror
fresh = record { place = missing; permitted = false; hidden = false; reads = 0; calls = [] }

-- The fourth call is rejected.
abbrev flaky : Outside
flaky = record { blind = λ _. false; rejects = λ n. n == 3 }

flaky-calls :
    (provision_mirror flaky fresh).1.calls
    ≡ set_private ∷ delegate ∷ create_permission ∷ initialize ∷ []
unfolding provision_mirror call
flaky-calls = refl

provision_mirror-Sealed_example : Sealed missing (provision_mirror flaky fresh).1
provision_mirror-Sealed_example = provision_mirror-Sealed flaky fresh

abbrev at_rest : Loop
at_rest = record { running = false; passes = []; begun = [] }

-- The loop over two markets, of which the work on the first one takes three firings of the timer.
Run-IsSolo_example :
    let s =
      (work_ends 0 thrown [] ((4 ∷ 5 ∷ []) ∷ []) (fire (4 ∷ 5 ∷ []) (fire (4 ∷ 5 ∷ []) at_rest))) in
    IsSolo s × Finishes s
unfolding fire
Run-IsSolo_example = Run-IsSolo {markets = 4 ∷ 5 ∷ []} (ends 0 thrown (fires (fires started)))
