-- ===== src/Book/Insert.antt =====
-- The loop of `insert`, against the insertion into the list of the orders, best first.
use mathlib.Core.Path.{subst}
use anqa_core.Common.{
  ℕ, zero, suc, ◌<◌, ◌≡◌, ◌≢◌, inl, inr, refl, ap, sym, ◌∙◌, Bool, true, false, some, List, [], ◌∷◌,
  ◌==◌, get_elem?, set, length, get_elem?-set_self, get_elem?-set_ne, length-set, if◌then◌else◌,
  arith, Bool-cases,
}
use anqa_core.Book.{Resting, RestingOrder, nil, ranks_ahead, goes_before, insert_after}
use anqa_core.Book.Chain.{Chain}

-- The new order before the first one that it ranks ahead of.
unfoldable pub insert_sorted : Bool → ℕ × Resting → List (ℕ × Resting) → List (ℕ × Resting)
insert_sorted is_bid a [] = a ∷ []
insert_sorted is_bid a (x ∷ path) =
    let rest = insert_sorted is_bid a path in
    if ranks_ahead is_bid a.1 x.1 then a ∷ x ∷ path else x ∷ rest

unfoldable pub Fresh : ℕ → List (ℕ × Resting) → Type 0
Fresh i [] = Unit
Fresh i (x ∷ path) = (i ≢ x.0) × Fresh i path

unfoldable pub Distinct : List (ℕ × Resting) → Type 0
Distinct [] = Unit
Distinct (x ∷ path) = Fresh x.0 path × Distinct path

pub Chain-set :
    (orders : List RestingOrder) (i j : ℕ) (o : RestingOrder) (path : List (ℕ × Resting))
    → Fresh i path
    → Chain orders j path
    → Chain (set orders i o) j path
unfolding Chain Fresh
Chain-set orders i j o [] f h = h
Chain-set orders i j o (x ∷ path) f (at, (there, (n, (e, rest)))) =
    (at, (there, (n, (get_elem?-set_ne orders o f.0 ∙ e, Chain-set orders i n o path f.1 rest))))

get_elem?-length :
    (orders : List RestingOrder) (i : ℕ) (o : RestingOrder)
    → get_elem? orders i ≡ some o
    → i < length orders
get_elem?-length [] i o e = ground (arith, e)
get_elem?-length (x ∷ orders) zero o e = ground arith
get_elem?-length (x ∷ orders) (suc i) o e = ground (arith, get_elem?-length orders i o e)

pub goes_before-nil :
    (is_bid : Bool) (new : Resting) (i : ℕ) (orders : List RestingOrder)
    → i ≡ nil
    → goes_before is_bid new i orders ≡ true
unfolding goes_before
goes_before-nil is_bid new i orders e = ground (arith, e)

pub goes_before-ranks_ahead :
    (is_bid : Bool) (new : Resting) (i n : ℕ) (x : ℕ × Resting) (orders : List RestingOrder)
    → i ≡ x.0
    → x.0 ≢ nil
    → get_elem? orders x.0 ≡ some (record { order = x.1; next = n })
    → goes_before is_bid new i orders ≡ ranks_ahead is_bid new x.1
unfolding goes_before
goes_before-ranks_ahead is_bid new i n x orders at there e =
    let linked : (i == nil) ≡ false = ground (arith, at, there) in
    let found : get_elem? orders i ≡ some (record { order = x.1; next = n }) =
      ap (get_elem? orders) at ∙ e in
    rw (linked, found) refl

module _ (is_bid : Bool) (new : Resting) (slot : ℕ) where
  -- What the loop after `x` comes to: the links go on through the new order, and other slots stay.
  pub record Inserted (orders orders' : List RestingOrder) (x : ℕ × Resting)
      (path : List (ℕ × Resting)) : Type 0 where
    pub chained : Chain orders' x.0 (x ∷ insert_sorted is_bid (slot, new) path)
    pub others : (j : ℕ) → j ≢ slot → Fresh j (x ∷ path) → get_elem? orders' j ≡ get_elem? orders j

  -- The new order right after `x`.
  link_here :
      (orders : List RestingOrder) (n : ℕ) (x : ℕ × Resting) (path : List (ℕ × Resting))
      → slot < length orders
      → slot ≢ nil
      → x.0 ≢ nil
      → get_elem? orders x.0 ≡ some (record { order = x.1; next = n })
      → Chain orders n path
      → Fresh slot (x ∷ path)
      → Fresh x.0 path
      → let orders' =
          set
            (set orders slot (record { order = new; next = n }))
            x.0
            (record { order = x.1; next = slot }) in
        Chain orders' x.0 (x ∷ (slot, new) ∷ path)
        × ((j : ℕ) → j ≢ slot → Fresh j (x ∷ path) → get_elem? orders' j ≡ get_elem? orders j)
  unfolding Chain Fresh
  link_here orders n x path room real there e rest fresh apart =
      let new_link : RestingOrder = record { order = new; next = n } in
      let o : RestingOrder = record { order = x.1; next = slot } in
      let written = set orders slot new_link in
      let room_x : x.0 < length written =
        ground (arith, get_elem?-length orders x.0 _ e, length-set orders slot new_link) in
      let tail =
        Chain-set written x.0 n o path apart (Chain-set orders slot n new_link path fresh.1 rest) in
      let at_slot : get_elem? (set written x.0 o) slot ≡ some new_link =
        get_elem?-set_ne written o (λ h. fresh.0 (sym h))
        ∙ get_elem?-set_self orders slot new_link room in
      (
        (
          refl,
          (
            there,
            (slot, (get_elem?-set_self written x.0 o room_x, (refl, (real, (n, (at_slot, tail)))))),
          ),
        ),
        λ j other apart_j.
            get_elem?-set_ne written o (λ h. apart_j.0 (sym h))
            ∙ get_elem?-set_ne orders new_link (λ h. other (sym h)),
      )

  insert_after-here :
      (orders : List RestingOrder) (k n : ℕ) (x : ℕ × Resting)
      → get_elem? orders x.0 ≡ some (record { order = x.1; next = n })
      → goes_before is_bid new n orders ≡ true
      → insert_after is_bid new slot (suc k) x.0 orders
        ≡ some (
            set
              (set orders slot (record { order = new; next = n }))
              x.0
              (record { order = x.1; next = slot }))
  unfolding insert_after
  insert_after-here orders k n x e before = rw (e, before, insert_after) refl

  insert_after-later :
      (orders : List RestingOrder) (k n m : ℕ) (x : ℕ × Resting)
      → get_elem? orders x.0 ≡ some (record { order = x.1; next = n })
      → goes_before is_bid new n orders ≡ false
      → n ≡ m
      → insert_after is_bid new slot (suc k) x.0 orders ≡ insert_after is_bid new slot k m orders
  unfolding insert_after
  insert_after-later orders k n m x e before same =
      let goes_on : insert_after is_bid new slot (suc k) x.0 orders
          ≡ insert_after is_bid new slot k n orders =
        rw (e, before, insert_after) refl in
      goes_on ∙ ap (λ c. insert_after is_bid new slot k c orders) same

  pub insert_after-Inserted :
      (orders : List RestingOrder) (k n : ℕ) (x : ℕ × Resting) (path : List (ℕ × Resting))
      → slot < length orders
      → slot ≢ nil
      → x.0 ≢ nil
      → get_elem? orders x.0 ≡ some (record { order = x.1; next = n })
      → Chain orders n path
      → Fresh slot (x ∷ path)
      → Distinct (x ∷ path)
      → length path < k
      → (orders' : List RestingOrder) × ((insert_after is_bid new slot k x.0 orders ≡ some orders')
          × Inserted orders orders' x path)
  unfolding insert_sorted Chain Fresh Distinct
  insert_after-Inserted orders zero n x path room real there e rest fresh apart le =
      ground (arith, le)
  insert_after-Inserted orders (suc k) n x [] room real there e rest fresh apart le =
      let before = goes_before-nil is_bid new n orders rest in
      let (chained, others) = link_here orders n x [] room real there e rest fresh apart.0 in
      (_, (insert_after-here orders k n x e before, record { chained = chained; others = others }))
  insert_after-Inserted orders (suc k) n x (y ∷ path) room real there e
        (at, (there_y, (m, (e_y, rest)))) fresh apart le =
      let before = goes_before-ranks_ahead is_bid new n m y orders at there_y e_y in
      elim (Bool-cases (ranks_ahead is_bid new y.1)) [
        | inl ahead ↦
            let (chained, others) =
              link_here orders n x (y ∷ path) room real there e (at, (there_y, (m, (e_y, rest))))
                fresh apart.0 in
            let sorted : insert_sorted is_bid (slot, new) (y ∷ path) ≡ (slot, new) ∷ y ∷ path =
              rw (ahead) refl in
            (
              _,
              (
                insert_after-here orders k n x e (before ∙ ahead),
                record {
                  chained =
                      subst
                        (λ p.
                          Chain
                            (set (set orders slot (record { order = new; next = n })) x.0
                              (record { order = x.1; next = slot }))
                            x.0 (x ∷ p))
                        (sym sorted) chained;
                  others = others;
                },
              ),
            )
        | inr behind ↦
            let (orders', (goes, ins)) =
              insert_after-Inserted orders k m y path room real there_y e_y rest fresh.1 apart.1
                (ground (arith, le)) in
            let sorted : insert_sorted is_bid (slot, new) (y ∷ path)
                ≡ y ∷ insert_sorted is_bid (slot, new) path =
              rw (behind) refl in
            let kept : get_elem? orders' x.0 ≡ some (record { order = x.1; next = n }) =
              ins.others x.0 (λ h. fresh.0 (sym h)) apart.0 ∙ e in
            (
              orders',
              (
                insert_after-later orders k n y.0 x e (before ∙ behind) at ∙ goes,
                record {
                  chained =
                      subst (λ p. Chain orders' x.0 (x ∷ p)) (sym sorted)
                        (
                          refl,
                          (
                            there,
                            (
                              n,
                              (
                                kept,
                                subst
                                    (λ c.
                                      Chain orders' c (y ∷ insert_sorted is_bid (slot, new) path))
                                    (sym at) ins.chained,
                              ),
                            ),
                          ),
                        );
                  others = λ j other apart_j. ins.others j other apart_j.1;
                },
              ),
            )
      ]
