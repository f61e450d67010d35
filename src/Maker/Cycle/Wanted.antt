-- ===== src/Maker/Cycle/Wanted.antt =====
-- The first loop of `applySide` over a wire on which every write succeeds: what it leaves of the model and
-- what it queues.
use mathlib.Core.Path.{subst}
use anqa_core.Common.{
  ℕ, ◌≡◌, inl, inr, refl, sym, ap, ◌∙◌, none, [], ◌∷◌, ◌++◌, ◌==◌, arith, Bool-cases, Option-cases,
  ==_iff,
}
use anqa_core.Common.Dict.{lookup, AllEntries, IsDict}
use anqa_core.Maker.{Rung, Rungs}
use anqa_core.Maker.Send.{Wire, IsPerfect}
use anqa_core.Maker.Cycle.{Desk, Place, same_rung, modify_rung, want_one, want_all}
use anqa_core.Maker.Cycle.Steps.{
  IsNamed, lookup-IsNamed, lookup-append, same_rung-eq, append-AllEntries, append-IsDict,
}
use anqa_core.Maker.Cycle.Exact.{IsExact, IsKept, kept, queued, modify_rung-IsKept}

pub record IsWanted (base : ℕ) (wants : Rungs) (d : Desk) (end : Place × Rungs) : Type 0 where
  pub is_kept : IsKept base (λ j. kept (lookup j wants) (lookup j d.model)) end.0.0
  pub is_queued : (j : ℕ) → lookup j end.1 ≡ queued (lookup j wants) (lookup j d.model)
  pub queue_named : AllEntries (IsNamed base) end.1
  pub queue_once : IsDict end.1

-- A round, and then the rounds that follow it.
joined-IsWanted :
    (base lvl : ℕ) (want : Rung) (wants : Rungs) (p : Place) (first next : Place × Rungs)
    → lookup lvl wants ≡ none
    → IsWanted base ((lvl, want) ∷ []) p.0 first
    → IsWanted base wants first.0.0 next
    → IsWanted base ((lvl, want) ∷ wants) p.0 (next.0, first.1 ++ next.1)
unfolding lookup
joined-IsWanted base lvl want wants p first next once one more =
    let absent = λ (j : ℕ) (s : lvl ≡ j). ap (λ l. lookup l wants) (sym s) ∙ once in
    record {
      is_kept = record {
        is_exact = more.is_kept.is_exact;
        shows = λ j. elim (Bool-cases (lvl == j)) [
          | inl s ↦
              ground
                (arith, s, absent j ((==_iff lvl j).0 s), one.is_kept.shows j, more.is_kept.shows j)
          | inr s ↦ ground (arith, s, one.is_kept.shows j, more.is_kept.shows j)
        ];
      };
      is_queued = λ j. lookup-append j first.1 next.1 ∙ (elim (Bool-cases (lvl == j)) [
        | inl s ↦ elim (Option-cases (lookup j p.0.model)) [
          | inl no_rung ↦
              ground (
                arith,
                s,
                no_rung,
                absent j ((==_iff lvl j).0 s),
                one.is_queued j,
                more.is_queued j,
              )
          | inr (r, there) ↦
              ground
                (arith, s, there, absent j ((==_iff lvl j).0 s), one.is_queued j, more.is_queued j)
        ]
        | inr s ↦ ground (arith, s, one.is_queued j, more.is_queued j, one.is_kept.shows j)
      ]);
      queue_named =
          append-AllEntries (IsNamed base) first.1 next.1 one.queue_named more.queue_named;
      queue_once = append-IsDict first.1 next.1 one.queue_once more.queue_once (λ j.
          elim (Bool-cases (lvl == j)) [
            | inl s ↦ inr (ground (arith, absent j ((==_iff lvl j).0 s), more.is_queued j))
            | inr s ↦ inl (ground (arith, s, one.is_queued j))
          ]);
    }

module _ (w : Wire) (perfect : IsPerfect w) (base : ℕ) where
  want_one-IsWanted :
      (lvl : ℕ) (want : Rung) (p : Place)
      → IsExact base p.0
      → IsNamed base lvl want
      → IsWanted base ((lvl, want) ∷ []) p.0 (want_one w lvl want p)
  unfolding want_one lookup
  want_one-IsWanted lvl want p h named = elim (Option-cases (lookup lvl p.0.model)) [
    | inl absent ↦
        let e : want_one w lvl want p ≡ (p, (lvl, want) ∷ []) = rw (absent, want_one) refl in
        let gone = λ (j : ℕ) (s : lvl ≡ j). ap (λ l. lookup l p.0.model) (sym s) ∙ absent in
        subst (IsWanted base ((lvl, want) ∷ []) p.0) (sym e) (record {
          is_kept = record {
            is_exact = h;
            shows = λ j. elim (Bool-cases (lvl == j)) [
              | inl s ↦ ground (arith, gone j ((==_iff lvl j).0 s), s)
              | inr s ↦ ground (arith, s)
            ];
          };
          is_queued = λ j. elim (Bool-cases (lvl == j)) [
            | inl s ↦ ground (arith, gone j ((==_iff lvl j).0 s), s)
            | inr s ↦ ground (arith, s)
          ];
          queue_named = (named, tt);
          queue_once = (refl, tt);
        })
    | inr (have, there) ↦
        let found = λ (j : ℕ) (s : lvl ≡ j). ap (λ l. lookup l p.0.model) (sym s) ∙ there in
        elim (Bool-cases (same_rung have want)) [
          | inl same ↦
              let e : want_one w lvl want p ≡ (p, []) = rw (there, want_one, same) refl in
              let id = (lookup-IsNamed base lvl p.0.model have h.named there).0 in
              let it : have ≡ want = same_rung-eq have want (id ∙ sym named.0) same in
              subst (IsWanted base ((lvl, want) ∷ []) p.0) (sym e) (record {
                is_kept = record {
                  is_exact = h;
                  shows = λ j. elim (Bool-cases (lvl == j)) [
                    | inl s ↦ ground (arith, found j ((==_iff lvl j).0 s), s, it)
                    | inr s ↦ ground (arith, s)
                  ];
                };
                is_queued = λ j. elim (Bool-cases (lvl == j)) [
                  | inl s ↦ ground (arith, found j ((==_iff lvl j).0 s), s)
                  | inr s ↦ ground (arith, s)
                ];
                queue_named = tt;
                queue_once = tt;
              })
          | inr differs ↦
              let e : want_one w lvl want p ≡ (modify_rung w lvl want p, []) =
                rw (there, want_one, differs) refl in
              let done = modify_rung-IsKept w perfect base lvl want have p h named there in
              subst (IsWanted base ((lvl, want) ∷ []) p.0) (sym e) (record {
                is_kept = record {
                  is_exact = done.is_exact;
                  shows = λ j. done.shows j ∙ (elim (Bool-cases (lvl == j)) [
                    | inl s ↦ ground (arith, found j ((==_iff lvl j).0 s), s)
                    | inr s ↦ ground (arith, s)
                  ]);
                };
                is_queued = λ j. elim (Bool-cases (lvl == j)) [
                  | inl s ↦ ground (arith, found j ((==_iff lvl j).0 s), s)
                  | inr s ↦ ground (arith, s)
                ];
                queue_named = tt;
                queue_once = tt;
              })
        ]
  ]

  pub want_all-IsWanted :
      (wants : Rungs) (p : Place)
      → IsExact base p.0
      → AllEntries (IsNamed base) wants
      → IsDict wants
      → IsWanted base wants p.0 (want_all w wants p)
  unfolding want_all lookup
  want_all-IsWanted [] p h named once = record {
    is_kept = record { is_exact = h; shows = λ j. refl };
    is_queued = λ j. refl;
    queue_named = tt;
    queue_once = tt;
  }
  want_all-IsWanted ((lvl, want) ∷ wants) p h named once =
      let one = want_one-IsWanted lvl want p h named.0 in
      let rest =
        want_all-IsWanted wants (want_one w lvl want p).0 one.is_kept.is_exact named.1 once.1 in
      joined-IsWanted base lvl want wants p (want_one w lvl want p)
        (want_all w wants (want_one w lvl want p).0) once.0 one rest
