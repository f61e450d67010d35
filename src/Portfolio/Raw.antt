-- ===== src/Portfolio/Raw.antt =====
-- The reads of the wrapper's header, straight off the account's bytes.
use anqa_core.Common.{
  ℕ, zero, suc, ◌+◌, ◌-◌, ◌*◌, ◌%◌, ◌^◌, ◌<◌, ◌≡◌, ◌≢◌, refl, sym, ap, ◌∙◌, false, none, some, List,
  [], ◌∷◌, ◌++◌, length, length-append, ltb, le→ltb, arith, min,
}
use mathlib.Core.List.{append_assoc}
use anqa_core.Portfolio.{
  Bytes, collateral_of_raw, entry_of_raw, reserved_of_raw, committed_from, add_read,
  committed_total_raw, pf_collateral, pf_max_assets, u,
}
use anqa_core.Portfolio.Words.{le_bytes, length-le_bytes, u_low_at}

-- A run of 16-byte fields.
unfoldable pub encode_words : List ℕ → Bytes → Bytes
encode_words [] rest = rest
encode_words (c ∷ cs) rest = le_bytes 16 c ++ encode_words cs rest

encode_words-append :
    (c : ℕ) (pre rest : Bytes) → pre ++ (le_bytes 16 c ++ rest) ≡ (pre ++ le_bytes 16 c) ++ rest
encode_words-append c pre rest = simp append_assoc

-- The sum of the fields as a 64-bit read sees them.
unfoldable pub low_sum : List ℕ → ℕ
low_sum [] = 0
low_sum (c ∷ cs) = c % 2 ^ 64 + low_sum cs

collateral_of_raw-written :
    (pre rest : Bytes) (c n : ℕ)
    → length pre ≡ pf_collateral + n * 16
    → collateral_of_raw (pre ++ (le_bytes 16 c ++ rest)) n ≡ some (c % 2 ^ 64)
unfolding collateral_of_raw
collateral_of_raw-written pre rest c n at =
    let fits : ltb (length (pre ++ (le_bytes 16 c ++ rest))) (pf_collateral + n * 16 + 8) ≡ false =
      le→ltb _ _ (omega (arith, length-append {0}, length-le_bytes 16 c)) in
    rw (fits, u_low_at {b = pre ++ (le_bytes 16 c ++ rest)} pre rest c refl (sym at)) refl

committed_from-written :
    (cs : List ℕ) (pre post : Bytes) (n total : ℕ)
    → length pre ≡ pf_collateral + n * 16
    → committed_from (pre ++ encode_words cs post) (length cs) n total ≡ some (total + low_sum cs)
unfolding committed_from encode_words low_sum
committed_from-written [] pre post n total at = ap some (omega arith)
committed_from-written (c ∷ cs) pre post n total at =
    let here = collateral_of_raw-written pre (encode_words cs post) c n at in
    let later =
      committed_from-written cs (pre ++ le_bytes 16 c) post (suc n) (total + c % 2 ^ 64)
        (omega (arith, length-append {0}, length-le_bytes 16 c)) in
    ap
      (λ o. elim (add_read total o) [
        | none ↦ none
        | some t ↦ committed_from (pre ++ encode_words (c ∷ cs) post) (length cs) (suc n) t
      ])
      here
    ∙ ap (λ b. committed_from b (length cs) (suc n) (total + c % 2 ^ 64))
        (encode_words-append c pre (encode_words cs post))
    ∙ later
    ∙ ap some (omega arith)

-- The program's `total_committed_collateral`: a sum that saturates at the top of a u128.
unfoldable pub saturating_add : ℕ → ℕ → ℕ
saturating_add a b = min (a + b) (2 ^ 128 - 1)

unfoldable pub fold_committed : ℕ → List ℕ → ℕ
fold_committed acc [] = acc
fold_committed acc (c ∷ cs) = fold_committed (saturating_add acc c) cs

unfoldable pub total_committed_collateral : List ℕ → ℕ
total_committed_collateral = fold_committed 0

abbrev pub AllBelow : ℕ → List ℕ → Type 0
AllBelow m [] = Unit
AllBelow m (c ∷ cs) = (c < m) × AllBelow m cs

low_sum_fits :
    (cs : List ℕ) (acc : ℕ)
    → AllBelow (2 ^ 64) cs
    → acc + length cs * 2 ^ 64 < 2 ^ 128
    → acc + low_sum cs ≡ fold_committed acc cs
unfolding low_sum fold_committed saturating_add
low_sum_fits [] acc h fits = omega arith
low_sum_fits (c ∷ cs) acc h fits =
    let exact : min (acc + c) (2 ^ 128 - 1) ≡ acc + c = omega (arith, h.0) in
    let ih = low_sum_fits cs (acc + c) h.1 (omega (arith, h.0)) in rw exact (omega (arith, ih, h.0))

-- The terminal's committed total is the program's: over an account whose twelve collateral words
-- follow a header of 73 bytes, each word below 2^64, `committedTotalRaw` reads without a RangeError
-- the number that `total_committed_collateral` computes.
pub committed_total_raw-encode_words :
    (cs : List ℕ) (pre post : Bytes)
    → length pre ≡ pf_collateral
    → length cs ≡ pf_max_assets
    → AllBelow (2 ^ 64) cs
    → committed_total_raw (pre ++ encode_words cs post) ≡ some (total_committed_collateral cs)
unfolding committed_total_raw total_committed_collateral
committed_total_raw-encode_words cs pre post at twelve h =
    ap (λ k. committed_from (pre ++ encode_words cs post) k 0 0) (sym twelve)
    ∙ committed_from-written cs pre post 0 0 (omega arith)
    ∙ ap some (low_sum_fits cs 0 h (omega arith))

committed_from-ne-none : (b : Bytes) (k n total : ℕ) → committed_from b k n total ≢ none
unfolding committed_from collateral_of_raw
committed_from-ne-none b zero n total = cc
committed_from-ne-none b (suc k) n total = ground (
  arith,
  committed_from-ne-none b k (suc n) total,
  committed_from-ne-none b k (suc n) (total + u b (pf_collateral + n * 16) 8),
)

-- No read of the wrapper's header leaves the data, however short the data is: reserved margin,
-- collateral and entry of every asset, and the committed total.
pub raw_reads_never_throw :
    (b : Bytes) (asset_index : ℕ)
    → (reserved_of_raw b ≢ none)
      × (collateral_of_raw b asset_index ≢ none)
      × (entry_of_raw b asset_index ≢ none)
      × (committed_total_raw b ≢ none)
unfolding reserved_of_raw collateral_of_raw entry_of_raw committed_total_raw
raw_reads_never_throw b asset_index =
    (ground arith, ground arith, ground arith, committed_from-ne-none b pf_max_assets 0 0)
