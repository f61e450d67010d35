-- ===== src/Maker/Cycle/Steps.antt =====
-- Levels and ids: the dictionaries that a cycle moves between the ladder, the model and the queue.

use anqa_core.Common.{
  ℕ, zero, suc, ◌+◌, ◌≤◌, ◌<◌, ◌≡◌, ◌⊎◌, inl, inr, refl, sym, ap, ◌∙◌, true, not, ◌&&◌, Option,
  none, some, [], ◌∷◌, ◌++◌, ltb, ◌==◌, if◌then◌else◌, arith, Bool-cases, Option-cases, ==_iff,
}
use anqa_core.Common.Dict.{lookup, AllEntries, IsDict}
use anqa_core.Maker.{Rung, Rungs, rungs_from}
use anqa_core.Maker.Cycle.{same_rung}

-- A rung's id says its level, on the side whose ids start at `base`.
abbrev pub IsNamed : ℕ → ℕ → Rung → Type 0
IsNamed base lvl r = (r.coid ≡ base + lvl) × (lvl < 65_536)

pub lookup-IsNamed :
    (base lvl : ℕ) (m : Rungs) (r : Rung)
    → AllEntries (IsNamed base) m
    → lookup lvl m ≡ some r
    → IsNamed base lvl r
unfolding lookup
lookup-IsNamed base lvl [] r h e = absurd (cc)
lookup-IsNamed base lvl ((j, a) ∷ m) r h e = elim (Bool-cases (j == lvl)) [
  | inl here ↦ ground (arith, here)
  | inr on ↦ lookup-IsNamed base lvl m r h.1 (ground (arith, on))
]

pub lookup-append :
    (lvl : ℕ) (m k : Rungs)
    → lookup lvl (m ++ k) ≡ elim (lookup lvl m) [ none ↦ lookup lvl k | some r ↦ some r ]
unfolding lookup
lookup-append lvl [] k = refl
lookup-append lvl ((j, a) ∷ m) k = ground (arith, lookup-append lvl m k)

pub same_rung-eq : (a b : Rung) → a.coid ≡ b.coid → same_rung a b ≡ true → a ≡ b
same_rung-eq a b id same = ground arith

pub append-AllEntries :
    (P : ℕ → Rung → Type 0) (m k : Rungs) → AllEntries P m → AllEntries P k → AllEntries P (m ++ k)
append-AllEntries P [] k h g = g
append-AllEntries P ((j, a) ∷ m) k h g = (h.0, append-AllEntries P m k h.1 g)

pub append-IsDict :
    (m k : Rungs)
    → IsDict m
    → IsDict k
    → ((j : ℕ) → (lookup j m ≡ none) ⊎ (lookup j k ≡ none))
    → IsDict (m ++ k)
unfolding lookup
append-IsDict [] k h g apart = g
append-IsDict ((i, a) ∷ m) k h g apart =
    let here : lookup i k ≡ none = elim (apart i) [ inl e ↦ ground (arith, e) | inr e ↦ e ] in
    let first : lookup i (m ++ k) ≡ none = ground (arith, lookup-append i m k, h.0, here) in
    let later : (j : ℕ) → (lookup j m ≡ none) ⊎ (lookup j k ≡ none) = λ j.
      elim (Bool-cases (i == j)) [
        | inl e ↦ inl (ap (λ l. lookup l m) (sym ((==_iff i j).0 e)) ∙ h.0)
        | inr e ↦ elim (apart j) [ inl f ↦ inl (ground (arith, f, e)) | inr f ↦ inr f ]
      ] in
    (first, append-IsDict m k h.1 g later)

-- The ladder's levels run from `i` on, `k` of them.
pub lookup-rungs_from :
    (rung : ℕ → Option Rung) (k i j : ℕ)
    → lookup j (rungs_from rung k i) ≡ (if not (ltb j i) && ltb j (i + k) then rung j else none)
unfolding lookup rungs_from
lookup-rungs_from rung zero i j = ground arith
lookup-rungs_from rung (suc k) i j =
    let later = lookup-rungs_from rung k (suc i) j in
    let here = λ (e : i ≡ j). ap rung e in
    elim (Bool-cases (i == j)) [
      | inl same ↦ elim (Option-cases (rung i)) [
        | inl empty ↦ ground (arith, later, here ((==_iff i j).0 same), empty)
        | inr (r, full) ↦ ground (arith, later, here ((==_iff i j).0 same), full)
      ]
      | inr other ↦ elim (Option-cases (rung i)) [
        | inl empty ↦ ground (arith, later, empty)
        | inr (r, full) ↦ ground (arith, later, full)
      ]
    ]

pub rungs_from-IsDict : (rung : ℕ → Option Rung) (k i : ℕ) → IsDict (rungs_from rung k i)
unfolding rungs_from
rungs_from-IsDict rung zero i = tt
rungs_from-IsDict rung (suc k) i =
    let later = lookup-rungs_from rung k (suc i) i in
    let rest = rungs_from-IsDict rung k (suc i) in
    elim (Option-cases (rung i)) [
      | inl none_here ↦ rw none_here rest
      | inr (r, here) ↦ rw here (ground (arith, later), rest)
    ]

pub rungs_from-AllEntries :
    (P : ℕ → Rung → Type 0) (rung : ℕ → Option Rung) (k i : ℕ)
    → ((j : ℕ) (r : Rung) → i ≤ j → j < i + k → rung j ≡ some r → P j r)
    → AllEntries P (rungs_from rung k i)
unfolding rungs_from
rungs_from-AllEntries P rung zero i h = tt
rungs_from-AllEntries P rung (suc k) i h =
    let rest =
      rungs_from-AllEntries P rung k (suc i)
        (λ j r low high e. h j r (omega arith) (omega arith) e) in
    elim (Option-cases (rung i)) [
      | inl none_here ↦ rw none_here rest
      | inr (r, here) ↦ rw here (h i r (omega arith) (omega arith) here, rest)
    ]
