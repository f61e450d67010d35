-- ===== src/Common/Dict.antt =====
-- JavaScript's `Map` with numbers for keys: the entries in the order of their insertion.
use Prim.Native.Nat.{ℕ}
use mathlib.Core.Path.{◌≡◌, refl}
use mathlib.Core.Logic.{inl, inr}
use mathlib.Core.List.{List, [], ◌∷◌}
use mathlib.Core.Option.{Option, none, some}
use native.Mathlib.Omega.{arith}
use anqa_core.Common.Tests.{◌==◌, if◌then◌else◌, Bool-cases}

module _ {A : Type 0} where
  unfoldable pub lookup : ℕ → List (ℕ × A) → Option A
  lookup k [] = none
  lookup k ((j, a) ∷ m) = if j == k then some a else lookup k m

  -- `m.set(k, a)`: an entry keeps its place, a new one goes last.
  unfoldable pub assign : ℕ → A → List (ℕ × A) → List (ℕ × A)
  assign k a [] = (k, a) ∷ []
  assign k a ((j, b) ∷ m) = if j == k then (k, a) ∷ m else (j, b) ∷ assign k a m

  -- `m.delete(k)`
  unfoldable pub erase : ℕ → List (ℕ × A) → List (ℕ × A)
  erase k [] = []
  erase k ((j, b) ∷ m) = let rest = erase k m in if j == k then rest else (j, b) ∷ rest

  abbrev pub AllEntries : (ℕ → A → Type 0) → List (ℕ × A) → Type 0
  AllEntries P [] = Unit
  AllEntries P ((k, a) ∷ m) = P k a × AllEntries P m

  -- Each key once.
  abbrev pub IsDict : List (ℕ × A) → Type 0
  IsDict [] = Unit
  IsDict ((k, a) ∷ m) = (lookup k m ≡ none) × IsDict m

  pub lookup-assign :
      (k j : ℕ) (a : A) (m : List (ℕ × A))
      → lookup j (assign k a m) ≡ (if k == j then some a else lookup j m)
  unfolding lookup assign
  lookup-assign k j a [] = refl
  lookup-assign k j a ((i, b) ∷ m) = ground (arith, lookup-assign k j a m)

  pub lookup-erase :
      (k j : ℕ) (m : List (ℕ × A)) → lookup j (erase k m) ≡ (if k == j then none else lookup j m)
  unfolding lookup erase
  lookup-erase k j [] = ground arith
  lookup-erase k j ((i, b) ∷ m) = ground (arith, lookup-erase k j m)

  pub assign-AllEntries :
      (P : ℕ → A → Type 0) (k : ℕ) (a : A) (m : List (ℕ × A))
      → P k a
      → AllEntries P m
      → AllEntries P (assign k a m)
  unfolding assign
  assign-AllEntries P k a [] p h = (p, tt)
  assign-AllEntries P k a ((i, b) ∷ m) p h = elim (Bool-cases (i == k)) [
    | inl e ↦ rw e (p, h.1)
    | inr e ↦ rw e (h.0, assign-AllEntries P k a m p h.1)
  ]

  pub erase-AllEntries :
      (P : ℕ → A → Type 0) (k : ℕ) (m : List (ℕ × A)) → AllEntries P m → AllEntries P (erase k m)
  unfolding erase
  erase-AllEntries P k [] h = tt
  erase-AllEntries P k ((i, b) ∷ m) h = elim (Bool-cases (i == k)) [
    | inl e ↦ rw e (erase-AllEntries P k m h.1)
    | inr e ↦ rw e (h.0, erase-AllEntries P k m h.1)
  ]
