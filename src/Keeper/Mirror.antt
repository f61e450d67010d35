-- ===== src/Keeper/Mirror.antt =====
-- app/keeper.ts: `provisionMirror`, which stands up a trader's view of their own orders: created,
-- permitted and delegated on base layer, hidden in the rollup.
use mathlib.Core.Path.{subst, sym}
use anqa_core.Common.{
  ℕ, ◌+◌, ◌≡◌, ◌⊎◌, inl, inr, refl, Bool, true, false, not, ◌&&◌, ◌||◌, List, ◌∷◌, length,
  if◌then◌else◌, arith, Bool-cases,
}
use anqa_core.Common.Async.{Async, Result, ok, err, pure, ◌>>=◌, ◌>>◌}

pub data Call : Type 0 where
  initialize create_permission delegate set_private : Call

-- Where the mirror's account stands on base layer.
pub data Place : Type 0 where
  missing at_home delegated : Place

-- The accounts of one mirror, how many reads were made, and the calls, the last one first.
pub record Mirror : Type 0 where
  pub place : Place
  pub permitted : Bool
  pub hidden : Bool
  pub reads : ℕ
  pub calls : List Call

-- Reads that fail, and calls that fail whatever the accounts are.
pub record Outside : Type 0 where
  pub blind : ℕ → Bool
  pub rejects : ℕ → Bool

abbrev pub exists : Place → Bool
exists missing = false
exists at_home = true
exists delegated = true

abbrev pub is_home : Place → Bool
is_home missing = false
is_home at_home = true
is_home delegated = false

abbrev pub is_delegated : Place → Bool
is_delegated missing = false
is_delegated at_home = false
is_delegated delegated = true

-- What each instruction asks of the accounts: to create what is not there, to delegate what is at
-- home, and to hide what has its permission on base layer and is delegated.
abbrev pub allowed : Call → Mirror → Bool
allowed initialize s = not (exists s.place)
allowed create_permission s = not s.permitted
allowed delegate s = is_home s.place
allowed set_private s = s.permitted && (is_delegated s.place && not s.hidden)

abbrev pub effect : Call → Mirror → Mirror
effect initialize s = record s { place = at_home }
effect create_permission s = record s { permitted = true }
effect delegate s = record s { place = delegated }
effect set_private s = record s { hidden = true }

abbrev called : Call → Mirror → Mirror
called c s = record s { calls = c ∷ s.calls }

module _ (o : Outside) where
  -- `await getAccountInfo(…).catch(() => null)`: a failed read shows nothing.
  abbrev pub look : (Mirror → Bool) → Async Mirror (Unit {0}) Bool
  look shows s = (ok (not (o.blind s.reads) && shows s), record s { reads = s.reads + 1 })

  unfoldable pub call : Call → Async Mirror (Unit {0}) (Unit {0})
  call c s =
      if o.rejects (length s.calls) || not (allowed c s)
      then (err tt, called c s)
      else (ok tt, called c (effect c s))

  abbrev pub call_if : Bool → Call → Async Mirror (Unit {0}) (Unit {0})
  call_if true c = call c
  call_if false c = pure tt

  -- The four steps, from the last one.
  abbrev pub hide_it : Async Mirror (Unit {0}) (Unit {0})
  hide_it = look (λ m. m.hidden) >>= λ seen. call_if (not seen) set_private

  abbrev pub delegate_it : Async Mirror (Unit {0}) (Unit {0})
  delegate_it = look (λ m. is_home m.place) >>= λ home. call_if home delegate >> hide_it

  abbrev pub permit_it : Async Mirror (Unit {0}) (Unit {0})
  permit_it =
      look (λ m. m.permitted) >>= λ seen. call_if (not seen) create_permission >> delegate_it

  unfoldable pub provision_mirror : Async Mirror (Unit {0}) (Unit {0})
  provision_mirror =
      look (λ m. exists m.place) >>= λ there. call_if (not there) initialize >> permit_it

abbrev after :
    Async Mirror (Unit {0}) (Unit {0})
    → Result (Unit {0}) (Unit {0}) × Mirror
    → Result (Unit {0}) (Unit {0}) × Mirror
after k end = elim end.0 [ ok _ ↦ k end.1 | err e ↦ (err e, end.1) ]

-- A mirror that was not delegated at `start` is delegated only with its permission there.
abbrev pub Sealed : Place → Mirror → Type 0
Sealed start s = (start ≡ delegated) ⊎ ((is_delegated s.place ≡ false) ⊎ (s.permitted ≡ true))

module _ (o : Outside) where
  -- A call under an `if`, and what follows it.
  then_call :
      (P : Result (Unit {0}) (Unit {0}) × Mirror → Type 0) (b : Bool) (c : Call)
      (k : Async Mirror (Unit {0}) (Unit {0})) (s : Mirror)
      → P (err tt, called c s)
      → (b ≡ true → allowed c s ≡ true → P (k (called c (effect c s))))
      → (b ≡ false → P (k s))
      → P ((call_if o b c >> k) s)
  unfolding call
  then_call P false c k s bad good skip = skip refl
  then_call P true c k s bad good skip =
      elim (Bool-cases (o.rejects (length s.calls) || not (allowed c s))) [
        | inl r ↦
            let e : call o c s ≡ (err tt, called c s) = rw (r, call) refl in
            subst (λ z. P (after k z)) (sym e) bad
        | inr r ↦
            let e : call o c s ≡ (ok tt, called c (effect c s)) = rw (r, call) refl in
            subst (λ z. P (after k z)) (sym e) (good refl (ground arith))
      ]

  hide_it-Sealed : (start : Place) (s : Mirror) → Sealed start s → Sealed start (hide_it o s).1
  unfolding call
  hide_it-Sealed start s h = ground (arith, h)

  delegate_it-Sealed :
      (start : Place) (s : Mirror) → s.permitted ≡ true → Sealed start (delegate_it o s).1
  delegate_it-Sealed start s h =
      then_call (λ end. Sealed start end.1) (not (o.blind s.reads) && is_home s.place) delegate
        (hide_it o) (record s { reads = s.reads + 1 }) (inr (inr h))
        (λ b a. hide_it-Sealed start _ (inr (inr h))) (λ b. hide_it-Sealed start _ (inr (inr h)))

  permit_it-Sealed : (start : Place) (s : Mirror) → Sealed start s → Sealed start (permit_it o s).1
  permit_it-Sealed start s h =
      then_call (λ end. Sealed start end.1) (not (not (o.blind s.reads) && s.permitted))
        create_permission (delegate_it o) (record s { reads = s.reads + 1 }) h
        (λ b a. delegate_it-Sealed start _ refl)
        (λ b. delegate_it-Sealed start _ (ground (arith, b)))

  -- However reads and calls fail: a mirror that was not delegated before is delegated after
  -- `provisionMirror`, whether it throws or not, only with its permission there.
  pub provision_mirror-Sealed : (s : Mirror) → Sealed s.place (provision_mirror o s).1
  unfolding provision_mirror
  provision_mirror-Sealed s =
      let before : Sealed s.place s = sealed_at_start s.place refl in
      then_call (λ end. Sealed s.place end.1) (not (not (o.blind s.reads) && exists s.place))
        initialize (permit_it o) (record s { reads = s.reads + 1 }) before
        (λ b a. permit_it-Sealed s.place _ (inr (inl refl)))
        (λ b. permit_it-Sealed s.place _ before)
    where
      sealed_at_start : (p : Place) → s.place ≡ p → Sealed s.place s
      sealed_at_start missing e = inr (inl (rw e refl))
      sealed_at_start at_home e = inr (inl (rw e refl))
      sealed_at_start delegated e = inl e

-- No read fails, and no call that the accounts allow.
abbrev pub clear : Outside
clear = record { blind = λ _. false; rejects = λ _. false }
