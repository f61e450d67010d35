-- ===== src/Maker/Cycle/Exact.antt =====
-- A cycle over a wire on which every write succeeds: it lays the ladder that is wanted.
use mathlib.Core.Path.{subst}
use anqa_core.Common.{
  ℕ, ◌+◌, ◌%◌, ◌^◌, ◌≡◌, inl, inr, refl, sym, ap, ◌∙◌, Option, none, some, List, [], ◌∷◌, ◌==◌,
  if◌then◌else◌, arith, Bool-cases, drop,
}
use anqa_core.Common.Dict.{
  lookup, assign, erase, AllEntries, lookup-assign, lookup-erase, assign-AllEntries,
  erase-AllEntries,
}
use anqa_core.Maker.{Rung, Rungs}
use anqa_core.Maker.Send.{Wire, IsPerfect, send-perfect}
use anqa_core.Maker.Cycle.{Desk, Place, at, added, changed, modify_rung, cancel_rung, place_one}
use anqa_core.Maker.Cycle.Steps.{IsNamed}

-- What an exact book shows under the id of a level.
abbrev pub shown : Option Rung → List Rung
shown none = []
shown (some r) = r ∷ []

-- The model is named by its levels, and the book shows what it says.
pub record IsExact (base : ℕ) (d : Desk) : Type 0 where
  pub named : AllEntries (IsNamed base) d.model
  pub exact : (lvl : ℕ) → d.book (base + lvl) ≡ shown (lookup lvl d.model)

-- What the first loop leaves of a level in the model, and what it puts on the queue.
abbrev pub kept : Option Rung → Option Rung → Option Rung
kept none have = have
kept (some want) none = none
kept (some want) (some have) = some want

abbrev pub queued : Option Rung → Option Rung → Option Rung
queued none have = none
queued (some want) none = some want
queued (some want) (some have) = none

module _ (w : Wire) (perfect : IsPerfect w) where
  -- The three writes.
  modify_rung-perfect :
      (lvl : ℕ) (want : Rung) (d : Desk) (n : ℕ)
      → modify_rung w lvl want (d, n) ≡ (
        record {
          model = assign lvl want d.model;
          book = at d.book want.coid (changed 1 want (d.book want.coid));
        },
        n + 1,
      )
  unfolding modify_rung
  modify_rung-perfect lvl want d n = rw (send-perfect w n perfect) refl

  cancel_rung-perfect :
      (lvl : ℕ) (have : Rung) (d : Desk) (n : ℕ)
      → cancel_rung w lvl have (d, n) ≡ (
        record {
          model = erase lvl d.model;
          book = at d.book have.coid (drop 1 (d.book have.coid));
        },
        n + 1,
      )
  unfolding cancel_rung
  cancel_rung-perfect lvl have d n = rw (send-perfect w n perfect) refl

  place_one-perfect :
      (r : Rung) (d : Desk) (n : ℕ)
      → place_one w r (d, n) ≡ (
        record {
          model = assign (r.coid % 2 ^ 16) r d.model;
          book = at d.book r.coid (added 1 r (d.book r.coid));
        },
        n + 1,
      )
  unfolding place_one
  place_one-perfect r d n = rw (send-perfect w n perfect) refl

-- A write at one level keeps a desk exact, if it makes book and model agree there.
written-IsExact :
    (base lvl : ℕ) (r : Option Rung) (model : Rungs) (id : ℕ) (d : Desk)
    → IsExact base d
    → id ≡ base + lvl
    → AllEntries (IsNamed base) model
    → ((j : ℕ) → lookup j model ≡ (if lvl == j then r else lookup j d.model))
    → IsExact base (record { model = model; book = at d.book id (shown r) })
written-IsExact base lvl r model id d h at_level named here = record {
  named = named;
  exact = λ j. elim (Bool-cases (lvl == j)) [
    | inl same ↦ ground (arith, here j, h.exact j)
    | inr other ↦ ground (arith, here j, h.exact j)
  ];
}

-- What a loop has done to a desk, level by level.
pub record IsKept (base : ℕ) (next : ℕ → Option Rung) (d : Desk) : Type 0 where
  pub is_exact : IsExact base d
  pub shows : (j : ℕ) → lookup j d.model ≡ next j

abbrev pub one_level : ℕ → Option Rung → Rungs → ℕ → Option Rung
one_level lvl r m j = if lvl == j then r else lookup j m

written-IsKept :
    (base lvl : ℕ) (r : Option Rung) (model : Rungs) (id : ℕ) (rs : List Rung) (d : Desk)
    → IsExact base d
    → id ≡ base + lvl
    → rs ≡ shown r
    → AllEntries (IsNamed base) model
    → ((j : ℕ) → lookup j model ≡ one_level lvl r d.model j)
    → IsKept base (one_level lvl r d.model) (record { model = model; book = at d.book id rs })
written-IsKept base lvl r model id rs d h at_level e named here =
    subst
      (λ rs.
        IsKept base (one_level lvl r d.model) (record { model = model; book = at d.book id rs }))
      (sym e)
      (record {
        is_exact = written-IsExact base lvl r model id d h at_level named here;
        shows = here;
      })

drop-shown : (o : Option Rung) → drop 1 (shown o) ≡ shown none
drop-shown none = refl
drop-shown (some r) = refl

module _ (w : Wire) (perfect : IsPerfect w) (base : ℕ) where
  pub modify_rung-IsKept :
      (lvl : ℕ) (want have : Rung) (p : Place)
      → IsExact base p.0
      → IsNamed base lvl want
      → lookup lvl p.0.model ≡ some have
      → IsKept base (one_level lvl (some want) p.0.model) (modify_rung w lvl want p).0
  modify_rung-IsKept lvl want have (d, n) h (id, low) e =
      subst (λ p. IsKept base (one_level lvl (some want) d.model) p.0)
        (sym (modify_rung-perfect w perfect lvl want d n))
        (written-IsKept base lvl (some want) (assign lvl want d.model) want.coid _ d h id
          (ap (λ c. changed 1 want (d.book c)) id ∙ ap (changed 1 want) (h.exact lvl ∙ ap shown e))
          (assign-AllEntries (IsNamed base) lvl want d.model (id, low) h.named)
          (λ j. lookup-assign lvl j want d.model))

  pub cancel_rung-IsKept :
      (lvl : ℕ) (have : Rung) (p : Place)
      → IsExact base p.0
      → IsNamed base lvl have
      → IsKept base (one_level lvl none p.0.model) (cancel_rung w lvl have p).0
  cancel_rung-IsKept lvl have (d, n) h (id, low) =
      subst (λ p. IsKept base (one_level lvl none d.model) p.0)
        (sym (cancel_rung-perfect w perfect lvl have d n))
        (written-IsKept base lvl none (erase lvl d.model) have.coid _ d h id
          (ap (λ c. drop 1 (d.book c)) id
            ∙ ap (drop 1) (h.exact lvl)
            ∙ drop-shown (lookup lvl d.model))
          (erase-AllEntries (IsNamed base) lvl d.model h.named) (λ j. lookup-erase lvl j d.model))

  pub place_one-IsKept :
      (lvl : ℕ) (r : Rung) (p : Place)
      → base % 65_536 ≡ 0
      → IsExact base p.0
      → IsNamed base lvl r
      → lookup lvl p.0.model ≡ none
      → IsKept base (one_level lvl (some r) p.0.model) (place_one w r p).0
  place_one-IsKept lvl r (d, n) aligned h (id, low) e =
      let level : r.coid % 2 ^ 16 ≡ lvl = omega arith in
      subst (λ p. IsKept base (one_level lvl (some r) d.model) p.0)
        (sym (place_one-perfect w perfect r d n))
        (written-IsKept base lvl (some r) (assign (r.coid % 2 ^ 16) r d.model) r.coid _ d h id
          (ap (λ c. added 1 r (d.book c)) id ∙ ap (added 1 r) (h.exact lvl ∙ ap shown e))
          (subst (λ l. AllEntries (IsNamed base) (assign l r d.model)) (sym level)
            (assign-AllEntries (IsNamed base) lvl r d.model (id, low) h.named))
          (λ j. ap (λ l. lookup j (assign l r d.model)) level ∙ lookup-assign lvl j r d.model))
