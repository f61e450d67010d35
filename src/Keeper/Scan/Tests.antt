-- ===== src/Keeper/Scan/Tests.antt =====
-- Three accounts: one of another hub, one that is flat and one that holds a position.
use anqa_core.Common.{ℕ, refl, ◌-◌, ◌≡◌, some, List, [], ◌∷◌, ◌++◌}
use anqa_core.Portfolio.{Bytes, u, u_from}
use anqa_core.Portfolio.Tests.{zeros}
use anqa_core.Keeper.Position.{read_u64_le, keeper_legs}
use anqa_core.Keeper.Scan.{
  Found, Scanned, is_portfolio, is_holder, kept, keys, owners, scan_holders, scan_holders-kept,
}

-- A market tag, and whether the first leg is active.
abbrev account : ℕ → ℕ → Bytes
account tag leg = zeros 40 ++ (tag ∷ (zeros (keeper_legs - 41) ++ (leg ∷ zeros 600)))

abbrev three_found : List Found
three_found =
    record { pubkey = 11; account = account 7 1 }
    ∷ record { pubkey = 12; account = account 24 0 }
    ∷ record { pubkey = 13; account = account 39 1 }
    ∷ []

abbrev nothing : Scanned
nothing = record { position_holders = []; group_portfolios = []; group_owners = [] }

three_found-tags :
    (read_u64_le (account 7 1) 40 ≡ some 7)
    × (read_u64_le (account 24 0) 40 ≡ some 24)
    × (read_u64_le (account 39 1) 40 ≡ some 39)
unfolding read_u64_le u u_from
three_found-tags = (refl, refl, refl)

three_found-lists :
    (keys (kept (is_portfolio 24) three_found) ≡ 12 ∷ 13 ∷ [])
    × (keys (kept (is_holder 24) three_found) ≡ 13 ∷ [])
unfolding read_u64_le u u_from
three_found-lists = (refl, refl)

scan_holders-kept_example : scan_holders 24 three_found nothing ≡ record {
  position_holders = keys (kept (is_holder 24) three_found);
  group_portfolios = keys (kept (is_portfolio 24) three_found);
  group_owners = owners (kept (is_portfolio 24) three_found);
}
scan_holders-kept_example =
    scan_holders-kept 24 three_found nothing (refl, (refl, (refl, tt)))
      ((7, three_found-tags.0), ((24, three_found-tags.1), ((39, three_found-tags.2), tt)))
