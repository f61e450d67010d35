-- ===== src/Keeper/Views.antt =====
-- `discoverMirrors` and `publishOrderMirrors` of app/keeper.ts, for one market: which traders' views of
-- their orders are kept up, from the owners that the last scan has found.
mod Tests
use mathlib.Core.List.{Memᴰ}
use mathlib.Core.List.Memᴰ
use anqa_core.Common.{
  ℕ, ◌-◌, Bool, true, false, not, ◌&&◌, Option, none, some, List, [], ◌∷◌, ◌++◌, ltb, ◌==◌,
  if◌then◌else◌, ==_iff,
}
use anqa_core.Common.Async.{Async, Result, ok, err, pure, catch, ◌>>=◌, ◌>>◌}
use anqa_core.Keeper.Mirror.{Mirror, Place, Outside, look, provision_mirror}

-- The mirrors of a market by owner, the entries of `mirrorOwners` and `mirrorsScannedAt`, and the
-- owners for whom `publishTraderOrders` was sent.
pub record Views : Type 0 where
  pub mirrors : ℕ → Mirror
  pub known : Option (List ℕ)
  pub scanned_at : Option ℕ
  pub published : List ℕ

abbrev pub is_true : Result (Unit {0}) Bool → Bool
is_true (ok b) = b
is_true (err _) = false

abbrev pub put_mirror : (ℕ → Mirror) → ℕ → Mirror → ℕ → Mirror
put_mirror ms owner m k = if k == owner then m else ms k

abbrev pub list_of : Option (List ℕ) → List ℕ
list_of none = []
list_of (some owners) = owners

abbrev pub time_of : Option ℕ → ℕ
time_of none = 0
time_of (some t) = t

-- What the rollup shows of a mirror, and what fails for each owner.
module _ (shows : Mirror → Bool) (outside : ℕ → Outside) where
  -- One round of the loop over the owners: whether the owner is kept.
  unfoldable pub discover_one : ℕ → Async Mirror (Unit {0}) Bool
  discover_one owner = look (outside owner) shows >>= λ seen.
      if seen
      then pure true
      else (catch (provision_mirror (outside owner)) tt >> look (outside owner) shows)

  unfoldable pub discover_from : List ℕ → (ℕ → Mirror) → List ℕ × (ℕ → Mirror)
  unfolding discover_one
  discover_from [] ms = ([], ms)
  discover_from (owner ∷ owners) ms =
      let (live, m) = discover_one owner (ms owner) in
      let (known, ms') = discover_from owners (put_mirror ms owner m) in
      (if is_true live then owner ∷ known else known, ms')

  unfoldable pub discover_mirrors : ℕ → List ℕ → Views → Views
  unfolding discover_from
  discover_mirrors now owners v =
      let (known, ms) = discover_from owners v.mirrors in
      record v { mirrors = ms; known = some known; scanned_at = some now }

  abbrev pub rescanned : ℕ → ℕ → List ℕ → Views → Views
  rescanned now ended owners v =
      if ltb 30_000 (now - time_of v.scanned_at) then discover_mirrors ended owners v else v

  -- A pass at `now`, whose scan, if there is one, is over at `ended`; a refused `publishTraderOrders` is
  -- swallowed.
  unfoldable pub publish_order_mirrors : ℕ → ℕ → List ℕ → Views → Views
  unfolding discover_mirrors
  publish_order_mirrors now ended [] v = v
  publish_order_mirrors now ended (owner ∷ owners) v =
      let fresh = rescanned now ended (owner ∷ owners) v in
      record fresh { published = fresh.published ++ list_of fresh.known }
