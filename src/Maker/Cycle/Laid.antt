-- ===== src/Maker/Cycle/Laid.antt =====
-- One side of a cycle over a wire on which every write succeeds, from `applySide` to the last
-- `placeOrder`: the side shows what is wanted, level by level.
use mathlib.Core.Path.{subst}
use anqa_core.Common.{
  ℕ, ◌%◌, ◌≡◌, ◌⊎◌, inl, inr, refl, sym, ap, ◌∙◌, Option, none, some, [], ◌∷◌, ◌==◌, arith,
  Bool-cases, Option-cases, ==_iff,
}
use anqa_core.Common.Dict.{lookup, AllEntries, IsDict}
use anqa_core.Maker.{Rung, Rungs}
use anqa_core.Maker.Send.{Wire, IsPerfect}
use anqa_core.Maker.Cycle.{Place, want_all, cancel_rung, drop_all, apply_side, place_one, place_all}
use anqa_core.Maker.Cycle.Steps.{IsNamed}
use anqa_core.Maker.Cycle.Exact.{
  IsExact, IsKept, kept, queued, cancel_rung-IsKept, place_one-IsKept,
}
use anqa_core.Maker.Cycle.Wanted.{want_all-IsWanted}

-- What the second loop leaves of a level.
abbrev dropped : Option Rung → Option Rung → Option Rung → Option Rung
dropped (some _) entry have = have
dropped none (some _) have = none
dropped none none have = have

-- What the placing loop makes of a level.
abbrev filled : Option Rung → Option Rung → Option Rung
filled none have = have
filled (some r) have = some r

filled-queued :
    (want have : Option Rung)
    → filled (queued want have) (dropped want (kept want have) (kept want have)) ≡ want
filled-queued none none = refl
filled-queued none (some have) = refl
filled-queued (some want) none = refl
filled-queued (some want) (some have) = refl

queued-apart :
    (want have : Option Rung)
    → (queued want have ≡ none) ⊎ (dropped want (kept want have) (kept want have) ≡ none)
queued-apart none have = inl refl
queued-apart (some want) none = inr refl
queued-apart (some want) (some have) = inl refl

module _ (w : Wire) (perfect : IsPerfect w) (base : ℕ) where
  drop_all-IsKept :
      (wants haves : Rungs) (p : Place)
      → IsExact base p.0
      → AllEntries (IsNamed base) haves
      → IsKept base
          (λ j. dropped (lookup j wants) (lookup j haves) (lookup j p.0.model))
          (drop_all w wants haves p).0
  unfolding drop_all lookup
  drop_all-IsKept wants [] p h named = record {
    is_exact = h;
    shows = λ j. elim (Option-cases (lookup j wants)) [
      | inl e ↦ ground (arith, e)
      | inr (r, e) ↦ ground (arith, e)
    ];
  }
  drop_all-IsKept wants ((lvl, have) ∷ haves) p h named =
      let moved = λ (j : ℕ) (s : lvl ≡ j). ap (λ l. lookup l wants) (sym s) in
      elim (Option-cases (lookup lvl wants)) [
        | inl absent ↦
            let one = cancel_rung-IsKept w perfect base lvl have p h named.0 in
            let rest =
              drop_all-IsKept wants haves (cancel_rung w lvl have p) one.is_exact named.1 in
            let e : drop_all w wants ((lvl, have) ∷ haves) p
                ≡ drop_all w wants haves (cancel_rung w lvl have p) =
              rw (absent, drop_all) refl in
            (subst
              (IsKept base (λ j.
                dropped (lookup j wants) (lookup j ((lvl, have) ∷ haves)) (lookup j p.0.model)))
              (ap (λ p. p.0) (sym e))
              (record {
                is_exact = rest.is_exact;
                shows = λ j. rest.shows j ∙ (elim (Bool-cases (lvl == j)) [
                  | inl s ↦ elim (Option-cases (lookup j haves)) [
                    | inl e ↦
                        ground (arith, s, e, moved j ((==_iff lvl j).0 s), absent, one.shows j)
                    | inr (r, e) ↦
                        ground (arith, s, e, moved j ((==_iff lvl j).0 s), absent, one.shows j)
                  ]
                  | inr s ↦ ground (arith, s, one.shows j)
                ]);
              }))
        | inr (want, there) ↦
            let rest = drop_all-IsKept wants haves p h named.1 in
            let e : drop_all w wants ((lvl, have) ∷ haves) p ≡ drop_all w wants haves p =
              rw (there, drop_all) refl in
            (subst
              (IsKept base (λ j.
                dropped (lookup j wants) (lookup j ((lvl, have) ∷ haves)) (lookup j p.0.model)))
              (ap (λ p. p.0) (sym e))
              (record {
                is_exact = rest.is_exact;
                shows = λ j. rest.shows j ∙ (elim (Bool-cases (lvl == j)) [
                  | inl s ↦ ground (arith, s, moved j ((==_iff lvl j).0 s), there)
                  | inr s ↦ ground (arith, s)
                ]);
              }))
      ]

  place_all-IsKept :
      (queue : Rungs) (p : Place)
      → base % 65_536 ≡ 0
      → IsExact base p.0
      → AllEntries (IsNamed base) queue
      → IsDict queue
      → ((j : ℕ) → (lookup j queue ≡ none) ⊎ (lookup j p.0.model ≡ none))
      → IsKept base (λ j. filled (lookup j queue) (lookup j p.0.model)) (place_all w queue p).0
  unfolding place_all lookup
  place_all-IsKept [] p aligned h named once apart = record { is_exact = h; shows = λ j. refl }
  place_all-IsKept ((lvl, r) ∷ queue) p aligned h named once apart =
      let free : lookup lvl p.0.model ≡ none = elim (apart lvl) [
        | inl e ↦ ground (arith, e)
        | inr e ↦ e
      ] in
      let absent = λ (j : ℕ) (s : lvl ≡ j). ap (λ l. lookup l queue) (sym s) ∙ once.0 in
      let one = place_one-IsKept w perfect base lvl r p aligned h named.0 free in
      let rest = place_all-IsKept queue (place_one w r p) aligned one.is_exact named.1 once.1 (λ j.
        elim (Bool-cases (lvl == j)) [
          | inl s ↦ inl (absent j ((==_iff lvl j).0 s))
          | inr s ↦ elim (apart j) [
            | inl e ↦ inl (ground (arith, s, e))
            | inr e ↦ inr (ground (arith, s, e, one.shows j))
          ]
        ]) in
      record {
        is_exact = rest.is_exact;
        shows = λ j. rest.shows j ∙ (elim (Bool-cases (lvl == j)) [
          | inl s ↦ ground (arith, s, absent j ((==_iff lvl j).0 s), one.shows j)
          | inr s ↦ ground (arith, s, one.shows j)
        ]);
      }

  -- Other writes may come between the two, so the placing may begin at any attempt.
  pub side-IsKept :
      (wants : Rungs) (p : Place) (n : ℕ)
      → base % 65_536 ≡ 0
      → IsExact base p.0
      → AllEntries (IsNamed base) wants
      → IsDict wants
      → IsKept base
          (λ j. lookup j wants)
          (place_all w (apply_side w wants p).1 ((apply_side w wants p).0.0, n)).0
  unfolding apply_side
  side-IsKept wants p n aligned h named once =
      let first = want_all-IsWanted w perfect base wants p h named once in
      let (q, queue) = want_all w wants p in
      let next =
        drop_all-IsKept wants q.0.model q first.is_kept.is_exact first.is_kept.is_exact.named in
      let between : (j : ℕ) → _ =
        λ j. next.shows j ∙ ap (λ o. dropped (lookup j wants) o o) (first.is_kept.shows j) in
      let last =
        place_all-IsKept queue ((drop_all w wants q.0.model q).0, n) aligned next.is_exact
          first.queue_named first.queue_once
          (λ j. elim (queued-apart (lookup j wants) (lookup j p.0.model)) [
            | inl e ↦ inl (first.is_queued j ∙ e)
            | inr e ↦ inr (between j ∙ e)
          ]) in
      record {
        is_exact = last.is_exact;
        shows = λ j.
            last.shows j
            ∙ ap (λ o. filled o (lookup j (drop_all w wants q.0.model q).0.model))
                (first.is_queued j)
            ∙ ap (filled (queued (lookup j wants) (lookup j p.0.model))) (between j)
            ∙ filled-queued (lookup j wants) (lookup j p.0.model);
      }
