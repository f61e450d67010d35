-- ===== src/Maker/Cycle/Sound.antt =====
-- A cycle over a wire on which writes fail, time out or take effect more than once: what the models say
-- rests in the book.
use anqa_core.Common.{
  ℕ, zero, suc, ◌+◌, ◌%◌, ◌^◌, ◌<◌, ◌≡◌, inl, inr, refl, sym, ap, ◌∙◌, true, false, Option, none,
  some, List, [], ◌∷◌, ◌==◌, arith, Bool-cases, ==_iff, replicate,
}
use mathlib.Core.Path.{subst}
use mathlib.Core.List.{Memᴰ}
use mathlib.Core.List.Memᴰ
use anqa_core.Common.Dict.{
  lookup, assign, erase, AllEntries, lookup-assign, lookup-erase, assign-AllEntries,
  erase-AllEntries,
}
use anqa_core.Maker.{Rung, Rungs}
use anqa_core.Maker.Send.{Wire, IsHonest, send, send-IsSend, Report-cases}
use anqa_core.Maker.Cycle.{Desk, Place, at, added, changed, modify_rung, cancel_rung, place_one}
use anqa_core.Maker.Cycle.Steps.{IsNamed}
use anqa_core.Maker.Cycle.Exact.{one_level}

added-Mem : (n : ℕ) (r : Rung) (rs : List Rung) → 0 < n → Memᴰ r (added n r rs)
added-Mem zero r rs h = absurd (omega arith)
added-Mem (suc n) r rs h = Memᴰ.append_right rs (Memᴰ.head refl)

changed-Mem :
    (n : ℕ) (r have : Rung) (rs : List Rung) → 0 < n → Memᴰ have rs → Memᴰ r (changed n r rs)
changed-Mem zero r have rs h there = absurd (omega arith)
changed-Mem (suc n) r have [] h there = elim there [ ]
changed-Mem (suc n) r have (a ∷ rs) h there = Memᴰ.head refl

-- Every rung of the model is named by its level, and rests in the book under its id.
pub record IsBacked (base : ℕ) (d : Desk) : Type 0 where
  pub named : AllEntries (IsNamed base) d.model
  pub backed : (lvl : ℕ) (r : Rung) → lookup lvl d.model ≡ some r → Memᴰ r (d.book (base + lvl))

-- A write at one level keeps a desk backed, if it does so there.
written-IsBacked :
    (base lvl : ℕ) (o : Option Rung) (model : Rungs) (id : ℕ) (rs : List Rung) (d : Desk)
    → IsBacked base d
    → id ≡ base + lvl
    → AllEntries (IsNamed base) model
    → ((j : ℕ) → lookup j model ≡ one_level lvl o d.model j)
    → ((r : Rung) → o ≡ some r → Memᴰ r rs)
    → IsBacked base (record { model = model; book = at d.book id rs })
written-IsBacked base lvl o model id rs d h at_level named there here = record {
  named = named;
  backed = λ j r e. elim (Bool-cases (lvl == j)) [
    | inl s ↦
        let same : (base + j == id) ≡ true = ground (arith, s) in
        rw same (here r (ground (arith, there j, s, e)))
    | inr s ↦
        let apart : (base + j == id) ≡ false = ground (arith, s) in
        rw apart (h.backed j r (ground (arith, there j, s, e)))
  ];
}

module _ (w : Wire) (honest : IsHonest w) (base : ℕ) where
  pub modify_rung-IsBacked :
      (lvl : ℕ) (want have : Rung) (p : Place)
      → IsBacked base p.0
      → IsNamed base lvl want
      → lookup lvl p.0.model ≡ some have
      → IsBacked base (modify_rung w lvl want p).0
  unfolding modify_rung
  modify_rung-IsBacked lvl want have (d, n) h (id, low) e =
      let o = send w n in
      let known = send-IsSend w honest n in
      elim (Report-cases o.report) [
        | inl ok ↦ rw ok (
            written-IsBacked base lvl (some want) (assign lvl want d.model) want.coid _ d h id
              (assign-AllEntries (IsNamed base) lvl want d.model (id, low) h.named)
              (λ j. lookup-assign lvl j want d.model)
              (λ r is.
                subst (λ r. Memᴰ r (changed o.landed want (d.book want.coid))) (ground (arith, is))
                  (changed-Mem o.landed want have (d.book want.coid) (known.effective ok)
                    (subst (λ c. Memᴰ have (d.book c)) (sym id) (h.backed lvl have e)))))
        | inr (inl never) ↦ absurd (known.answered never)
        | inr (inr (f, bad)) ↦ rw bad (
            written-IsBacked base lvl none (erase lvl d.model) want.coid _ d h id
              (erase-AllEntries (IsNamed base) lvl d.model h.named)
              (λ j. lookup-erase lvl j d.model) (λ r is. absurd (ground (arith, is))))
      ]

  pub cancel_rung-IsBacked :
      (lvl : ℕ) (have : Rung) (p : Place)
      → IsBacked base p.0
      → IsNamed base lvl have
      → IsBacked base (cancel_rung w lvl have p).0
  unfolding cancel_rung
  cancel_rung-IsBacked lvl have (d, n) h (id, low) =
      written-IsBacked base lvl none (erase lvl d.model) have.coid _ d h id
        (erase-AllEntries (IsNamed base) lvl d.model h.named) (λ j. lookup-erase lvl j d.model)
        (λ r is. absurd (ground (arith, is)))

  pub place_one-IsBacked :
      (lvl : ℕ) (r : Rung) (p : Place)
      → base % 65_536 ≡ 0
      → IsBacked base p.0
      → IsNamed base lvl r
      → IsBacked base (place_one w r p).0
  unfolding place_one
  place_one-IsBacked lvl r (d, n) aligned h (id, low) =
      let o = send w n in
      let known = send-IsSend w honest n in
      let level : r.coid % 2 ^ 16 ≡ lvl = omega arith in
      let rs = added o.landed r (d.book r.coid) in
      elim (Report-cases o.report) [
        | inl ok ↦ rw ok (
            written-IsBacked base lvl (some r) (assign (r.coid % 2 ^ 16) r d.model) r.coid rs d h id
              (subst (λ l. AllEntries (IsNamed base) (assign l r d.model)) (sym level)
                (assign-AllEntries (IsNamed base) lvl r d.model (id, low) h.named))
              (λ j. ap (λ l. lookup j (assign l r d.model)) level ∙ lookup-assign lvl j r d.model)
              (λ r' is.
                subst (λ r'. Memᴰ r' rs) (ground (arith, is))
                  (added-Mem o.landed r (d.book r.coid) (known.effective ok))))
        | inr (inl never) ↦ absurd (known.answered never)
        | inr (inr (f, bad)) ↦ rw bad (
            written-IsBacked base lvl (lookup lvl d.model) d.model r.coid rs d h id h.named
              (λ j. elim (Bool-cases (lvl == j)) [
                | inl s ↦ ground (arith, s, ap (λ l. lookup l d.model) ((==_iff lvl j).0 s))
                | inr s ↦ ground (arith, s)
              ])
              (λ r' is.
                Memᴰ.append_left (replicate o.landed r)
                  (subst (λ c. Memᴰ r' (d.book c)) (sym id) (h.backed lvl r' is))))
      ]
