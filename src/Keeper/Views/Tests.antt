-- ===== src/Keeper/Views/Tests.antt =====
-- Two traders, one of whom the rollup and base layer refuse everything.
use anqa_core.Common.{ℕ, refl, ◌≡◌, Bool, true, false, none, List, [], ◌∷◌, ◌==◌, if◌then◌else◌}
use anqa_core.Keeper.Mirror.{
  Mirror, missing, at_home, delegated, Outside, clear, provision_mirror, call,
}
use anqa_core.Keeper.Views.{
  Views, discover_one, discover_from, discover_mirrors, publish_order_mirrors,
}

-- The rollup shows what is delegated.
abbrev in_rollup : Mirror → Bool
in_rollup m = elim m.place [ missing ↦ false | at_home ↦ false | delegated ↦ true ]

abbrev refused : Outside
refused = record { blind = λ _. true; rejects = λ _. true }

abbrev second_refused : ℕ → Outside
second_refused owner = if owner == 2 then refused else clear

abbrev no_views : Views
no_views = record {
  mirrors =
      λ _. record { place = missing; permitted = false; hidden = false; reads = 0; calls = [] };
  known = none;
  scanned_at = none;
  published = [];
}

first_reached :
    (publish_order_mirrors in_rollup second_refused 100_000 100_400 (2 ∷ 1 ∷ []) no_views).published
    ≡ 1 ∷ []
unfolding publish_order_mirrors discover_mirrors discover_from discover_one provision_mirror call
first_reached = refl
