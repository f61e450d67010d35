-- ===== src/Tape.antt =====
-- `readTape` of web/lib/anqa.ts, which reads the tape of fills, and the ring that it reads, as
-- programs/anqa-core/src/state/tape.rs writes it.
mod Tests
use anqa_core.Common.{
  ℕ, zero, suc, ◌+◌, ◌-◌, ◌*◌, ◌%◌, ◌≤◌, ◌<◌, ◌≡◌, refl, sym, ap, ◌∙◌, Bool, true, false, Option,
  some, none, List, [], ◌∷◌, length, get_elem?, take, drop, min, ◌==◌, if◌then◌else◌, arith,
  Bool-cases, inl, inr, ◌⊎◌, ==_iff,
}

pub record Print : Type 0 where
  pub seq : ℕ
  pub price_in_ticks : ℕ
  pub base_lots : ℕ
  pub timestamp : ℕ

-- `TAPE_ENTRIES`
abbrev pub capacity : ℕ
capacity = 128

-- The slots from 0 up to the capacity.
pub record FillTape : Type 0 where
  pub count : ℕ
  pub entries : ℕ → Print

abbrev pub blank : Print
blank = record { seq = 0; price_in_ticks = 0; base_lots = 0; timestamp = 0 }

abbrev pub slot_of : ℕ → ℕ → ℕ
slot_of total i = (total - 1 - i + capacity * 2) % capacity

-- The loop of `readTape`, with `k` rounds left.
unfoldable pub read_from : FillTape → ℕ → ℕ → List Print
read_from t zero i = []
read_from t (suc k) i =
    let rest = read_from t k (suc i) in
    let e = t.entries (slot_of t.count i) in if e.seq == 0 then rest else e ∷ rest

unfoldable pub read_tape : FillTape → List Print
unfolding read_from
read_tape t = read_from t (min t.count capacity) 0

-- `init` of the program, on an account of zeros.
abbrev pub fresh : FillTape
fresh = record { count = 0; entries = λ _. blank }

abbrev pub numbered : ℕ → Print → Print
numbered n p = record p { seq = n }

-- `print` of the program: the sequence number is its own.
unfoldable pub print : Print → FillTape → FillTape
print p t = record {
  count = t.count + 1;
  entries = λ slot. if slot == t.count % capacity then numbered (t.count + 1) p else t.entries slot;
}

-- The tape after fills were printed on a fresh one, the newest first in the list.
abbrev pub printed : List Print → FillTape
printed [] = fresh
printed (p ∷ ps) = print p (printed ps)

-- The fills with the numbers that they get.
abbrev pub history : List Print → List Print
history [] = []
history (p ∷ ps) = numbered (length ps + 1) p ∷ history ps

count-printed : (ps : List Print) → (printed ps).count ≡ length ps
unfolding print
count-printed [] = refl
count-printed (p ∷ ps) = ground (arith, count-printed ps)

length-history : (ps : List Print) → length (history ps) ≡ length ps
length-history [] = refl
length-history (p ∷ ps) = ground (arith, length-history ps)

-- The last fills, as many as the ring has slots, stand where the reader looks for them.
entries-printed :
    (ps : List Print) (i : ℕ)
    → i < length ps
    → i < capacity
    → (0 < ((printed ps).entries (slot_of (length ps) i)).seq)
      × (get_elem? (history ps) i ≡ some ((printed ps).entries (slot_of (length ps) i)))
unfolding print
entries-printed [] i less low = absurd (omega arith)
entries-printed (p ∷ ps) zero less low =
    let c = count-printed ps in
    let here : (slot_of (suc (length ps)) 0 == (printed ps).count % capacity) ≡ true =
      (==_iff (slot_of (suc (length ps)) 0) ((printed ps).count % capacity)).1 (omega (arith, c)) in
    let same : numbered (length ps + 1) p ≡ numbered ((printed ps).count + 1) p =
      ap (λ n. numbered (n + 1) p) (sym c) in
    rw here (omega arith, ap some same)
entries-printed (p ∷ ps) (suc i) less low =
    let c = count-printed ps in
    let older : slot_of (suc (length ps)) (suc i) ≡ slot_of (length ps) i = omega arith in
    let apart : (slot_of (length ps) i == (printed ps).count % capacity) ≡ false =
      ground (arith, c) in
    rw (older, apart) (entries-printed ps i (omega arith) (omega arith))

drop-get :
    (xs : List Print) (i : ℕ) (x : Print)
    → get_elem? xs i ≡ some x
    → drop i xs ≡ x ∷ drop (suc i) xs
drop-get [] i x e = absurd (cc)
drop-get (y ∷ ys) zero x e = ground (arith, e)
drop-get (y ∷ ys) (suc i) x e = drop-get ys i x e

read_from-printed :
    (ps : List Print) (k i : ℕ)
    → i + k ≤ length ps
    → i + k ≤ capacity
    → read_from (printed ps) k i ≡ take k (drop i (history ps))
unfolding read_from
read_from-printed ps zero i long low = refl
read_from-printed ps (suc k) i long low =
    let rest = read_from-printed ps k (suc i) (omega arith) (omega arith) in
    let (numbers, found) = entries-printed ps i (omega arith) (omega arith) in
    let front = drop-get (history ps) i _ found in
    let e = (printed ps).entries (slot_of (length ps) i) in
    let there = ap (λ n. (printed ps).entries (slot_of n i)) (count-printed ps) in
    let set : (e.seq == 0) ≡ false = ground (arith, numbers) in
    rw (there, set, front) (ap (λ xs. e ∷ xs) rest)

take-min : (k : ℕ) (xs : List Print) → take (min (length xs) k) xs ≡ take k xs
take-min zero xs =
    let none_left : min (length xs) 0 ≡ 0 = omega arith in ap (λ m. take m xs) none_left
take-min (suc k) [] =
    let none_left : min 0 (suc k) ≡ 0 = omega arith in ap (λ m. take m []) none_left
take-min (suc k) (x ∷ xs) =
    let both : min (suc (length xs)) (suc k) ≡ suc (min (length xs) k) = omega arith in
    ap (λ m. take m (x ∷ xs)) both ∙ ap (λ ys. x ∷ ys) (take-min k xs)

-- What is read of a tape that any fills were printed on, from the fresh one on, is the last 128 of
-- them or all if there are fewer, the newest first, each with the number that it got.
pub read_tape-printed : (ps : List Print) → read_tape (printed ps) ≡ take capacity (history ps)
unfolding read_tape
read_tape-printed ps =
    let n = min (length ps) capacity in
    ap (λ c. read_from (printed ps) (min c capacity) 0) (count-printed ps)
    ∙ read_from-printed ps n 0 (omega arith) (omega arith)
    ∙ ap (λ m. take (min m capacity) (history ps)) (sym (length-history ps))
    ∙ take-min capacity (history ps)
