-- ===== src/Common/Async.antt =====
-- An `async` function of the source: it runs against a state, may throw, and what it did before the
-- throw stays done.
use mathlib.Core.Path.{◌≡◌, refl, ap}

pub data Result (E A : Type 0) : Type 0 where
  ok : A → Result E A
  err : E → Result E A

abbrev pub Async : Type 0 → Type 0 → Type 0 → Type 0
Async S E A = S → Result E A × S

module _ {S E A : Type 0} where
  abbrev pub pure : A → Async S E A
  pure a s = (ok a, s)

  abbrev pub throw : E → Async S E A
  throw e s = (err e, s)

  -- `m.catch(() => a)`
  abbrev pub catch : Async S E A → A → Async S E A
  catch m a s = let (r, s') = m s in elim r [ ok b ↦ (ok b, s') | err e ↦ (ok a, s') ]

module _ {S E A B : Type 0} where
  infixl 5 ◌>>=◌ ◌>>◌
  abbrev pub ◌>>=◌ : Async S E A → (A → Async S E B) → Async S E B
  ◌>>=◌ m f s = let (r, s') = m s in elim r [ ok a ↦ f a s' | err e ↦ (err e, s') ]

  abbrev pub ◌>>◌ : Async S E A → Async S E B → Async S E B
  m >> k = m >>= λ _. k

-- A step and what follows it: either the step throws, or the rest goes on from its result.
pub >>=-cases :
    {S E A B : Type 0} (P : Result E B × S → Type 0) (m : Async S E A) (f : A → Async S E B) (s : S)
    → ((e : E) → (m s).0 ≡ err e → P (err e, (m s).1))
    → ((a : A) → (m s).0 ≡ ok a → P (f a (m s).1))
    → P ((m >>= f) s)
>>=-cases {S} {E} {A} {B} P m f s on_err on_ok = by_result (m s).0 refl
  where
    by_result :
        (r : Result E A)
        → (m s).0 ≡ r
        → P (elim r [ ok a ↦ f a (m s).1 | err e ↦ (err e, (m s).1) ])
    by_result (ok a) h = on_ok a h
    by_result (err e) h = on_err e h

-- What a step comes to decides what it is bound to.
pub >>=-ok :
    {S E A B : Type 0} (m : Async S E A) (f : A → Async S E B) (s s' : S) (a : A)
    → m s ≡ (ok a, s')
    → (m >>= f) s ≡ f a s'
>>=-ok m f s s' a e = ap (λ z. elim z.0 [ ok a ↦ f a z.1 | err e ↦ (err e, z.1) ]) e

pub >>=-err :
    {S E A B : Type 0} (m : Async S E A) (f : A → Async S E B) (s s' : S) (x : E)
    → m s ≡ (err x, s')
    → (m >>= f) s ≡ (err x, s')
>>=-err m f s s' x e = ap (λ z. elim z.0 [ ok a ↦ f a z.1 | err e ↦ (err e, z.1) ]) e
