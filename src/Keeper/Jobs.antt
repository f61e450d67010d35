-- ===== src/Keeper/Jobs.antt =====
-- `riskJob` of app/keeper.ts, through which the clock-sensitive work of the keeper's loops goes: a chain of
-- promises, under every interleaving of callers, starts and ends.
mod Tests
use mathlib.Core.Path.{subst}
use anqa_core.Common.{
  ℕ, zero, suc, ◌+◌, ◌-◌, ◌≤◌, ◌<◌, ◌≡◌, ◌≢◌, ◌⊎◌, inl, inr, refl, sym, ap, ◌∙◌, Bool, true, false,
  not, ◌&&◌, Option, none, some, ltb, ◌==◌, if◌then◌else◌, arith, Bool-cases, Option-cases, ==_iff,
}

pub data Phase : Type 0 where
  waiting running returned threw : Phase

-- A job: the one whose settlement it was chained to, if any.
pub record Job : Type 0 where
  pub after : Option ℕ
  pub phase : Phase

-- The jobs in the order of the calls, and the one that `riskTail` waits for.
pub record Chain : Type 0 where
  pub count : ℕ
  pub jobs : ℕ → Job
  pub tail : Option ℕ

abbrev pub is_over : Phase → Bool
is_over waiting = false
is_over running = false
is_over returned = true
is_over threw = true

abbrev pub is_waiting : Phase → Bool
is_waiting waiting = true
is_waiting _ = false

abbrev pub set_job : (ℕ → Job) → ℕ → Job → ℕ → Job
set_job jobs k job j = if j == k then job else jobs j

-- `riskTail` begins as a promise that is resolved.
abbrev pub idle : Chain
idle = record { count = 0; jobs = λ _. record { after = none; phase = waiting }; tail = none }

-- A call: the new job waits for the tail, and the tail for the new job.
unfoldable pub risk_job : Chain → Chain
risk_job c = record {
  count = c.count + 1;
  jobs = set_job c.jobs c.count (record { after = c.tail; phase = waiting });
  tail = some c.count;
}

-- Whether what a job was chained to has settled, by a value or by an error.
abbrev pub settled : Chain → Option ℕ → Bool
settled c none = true
settled c (some k) = is_over (c.jobs k).phase

abbrev pub may_begin : ℕ → Chain → Bool
may_begin k c = ltb k c.count && is_waiting (c.jobs k).phase && settled c (c.jobs k).after

abbrev set_phase : ℕ → Phase → Chain → Chain
set_phase k phase c = record c {
  jobs = set_job c.jobs k (record { after = (c.jobs k).after; phase = phase });
}

-- `.then(fn)` runs once what it waits for has settled.
unfoldable pub begin : ℕ → Chain → Option Chain
begin k c = if may_begin k c then some (set_phase k running c) else none

abbrev is_running : Phase → Bool
is_running running = true
is_running _ = false

-- `fn` returns, or throws.
unfoldable pub finish : ℕ → Bool → Chain → Option Chain
finish k fine c =
    if ltb k c.count && is_running (c.jobs k).phase
    then some (set_phase k (if fine then returned else threw) c)
    else none

-- What callers and jobs can make of the chain.
pub data Reach : Chain → Type 0 where
  start : Reach idle
  calls : {c : Chain} → Reach c → Reach (risk_job c)
  begins : {c d : Chain} (k : ℕ) → Reach c → begin k c ≡ some d → Reach d
  ends : {c d : Chain} (k : ℕ) (fine : Bool) → Reach c → finish k fine c ≡ some d → Reach d

abbrev previous : ℕ → Option ℕ
previous k = if k == 0 then none else some (k - 1)

-- A job has begun only when all the jobs before it are over.
pub record IsSerial (c : Chain) : Type 0 where
  pub ends_last : c.tail ≡ previous c.count
  pub chained : (k : ℕ) → k < c.count → (c.jobs k).after ≡ previous k
  pub in_order :
      (i k : ℕ)
      → i < k
      → k < c.count
      → is_waiting (c.jobs k).phase ≡ false
      → is_over (c.jobs i).phase ≡ true

risk_job-IsSerial : (c : Chain) → IsSerial c → IsSerial (risk_job c)
unfolding risk_job
risk_job-IsSerial c h = record {
  ends_last = ground arith;
  chained = λ k less. elim (Bool-cases (k == c.count)) [
    | inl last ↦ ground (arith, last, h.ends_last)
    | inr other ↦ ground (arith, other, h.chained k)
  ];
  in_order = λ i k before less begun. elim (Bool-cases (k == c.count)) [
    | inl last ↦ absurd (ground (arith, last, begun))
    | inr other ↦ ground (arith, other, h.in_order i k before, begun)
  ];
}

over-begun : (p : Phase) → is_over p ≡ true → is_waiting p ≡ false
over-begun waiting e = absurd (cc)
over-begun running e = absurd (cc)
over-begun returned e = refl
over-begun threw e = refl

guarded :
    {A : Type 0} (b : Bool) (a d : A) → (if b then some a else none) ≡ some d → (b ≡ true) × (a ≡ d)
guarded true a d e = (refl, ground (arith, e))
guarded false a d e = absurd (cc)

-- All the jobs before one that may begin are over.
ready-clear :
    (k : ℕ) (c : Chain)
    → IsSerial c
    → may_begin k c ≡ true
    → (i : ℕ) → i < k
    → is_over (c.jobs i).phase ≡ true
ready-clear k c h ready i before =
    let link = h.chained k (ground (arith, ready)) in
    let last : is_over (c.jobs (k - 1)).phase ≡ true = ground (arith, link, ready) in
    elim (Bool-cases (i == k - 1)) [
      | inl e ↦ ap (λ j. is_over (c.jobs j).phase) ((==_iff i (k - 1)).0 e) ∙ last
      | inr e ↦
          h.in_order i (k - 1) (ground arith) (ground (arith, ready))
            (over-begun (c.jobs (k - 1)).phase last)
    ]

begin-IsSerial : (k : ℕ) (c d : Chain) → IsSerial c → begin k c ≡ some d → IsSerial d
unfolding begin
begin-IsSerial k c d h e =
    let (ready, is) = guarded (may_begin k c) (set_phase k running c) d e in
    subst IsSerial is (record {
      ends_last = h.ends_last;
      chained = λ j less. elim (Bool-cases (j == k)) [
        | inl here ↦
            ground (arith, here, ap (λ i. (c.jobs i).after) ((==_iff j k).0 here), h.chained j less)
        | inr other ↦ ground (arith, other, h.chained j less)
      ];
      in_order = λ i j before less begun. elim (Bool-cases (j == k)) [
        | inl here ↦
            ground (arith, here, ready-clear k c h ready i (omega (arith, (==_iff j k).0 here)))
        | inr other ↦ elim (Bool-cases (i == k)) [
          | inl it ↦ absurd (
              ground (
                arith,
                other,
                it,
                ap (λ i. (c.jobs i).phase) ((==_iff i k).0 it),
                h.in_order i j before less,
                begun,
                ready,
              ))
          | inr apart ↦ ground (arith, other, apart, h.in_order i j before less, begun)
        ]
      ];
    })

finish-IsSerial :
    (k : ℕ) (fine : Bool) (c d : Chain) → IsSerial c → finish k fine c ≡ some d → IsSerial d
unfolding finish
finish-IsSerial k fine c d h e =
    let (ready, is) =
      guarded (ltb k c.count && is_running (c.jobs k).phase)
        (set_phase k (if fine then returned else threw) c) d e in
    subst IsSerial is (record {
      ends_last = h.ends_last;
      chained = λ j less. elim (Bool-cases (j == k)) [
        | inl here ↦
            ground (arith, here, ap (λ i. (c.jobs i).after) ((==_iff j k).0 here), h.chained j less)
        | inr other ↦ ground (arith, other, h.chained j less)
      ];
      in_order = λ i j before less begun. elim (Bool-cases (j == k)) [
        | inl here ↦ ground (
          arith,
          here,
          h.in_order i k (omega (arith, (==_iff j k).0 here)) (ground (arith, ready))
              (ground (arith, ready)),
        )
        | inr other ↦ elim (Bool-cases (i == k)) [
          | inl it ↦ ground (arith, other, it)
          | inr apart ↦ ground (arith, other, apart, h.in_order i j before less, begun)
        ]
      ];
    })

-- However calls, starts and ends follow each other, and whatever the jobs throw: a job is chained to
-- the one that was called before it, and it has begun only when all the jobs called before it have
-- returned or thrown.
pub chain-IsSerial : {c : Chain} → Reach c → IsSerial c
chain-IsSerial start = record {
  ends_last = refl;
  chained = λ k less. absurd (omega arith);
  in_order = λ i k before less begun. absurd (omega arith);
}
chain-IsSerial (calls {c = b} r) = risk_job-IsSerial b (chain-IsSerial r)
chain-IsSerial {c} (begins {c = b} k r e) = begin-IsSerial k b c (chain-IsSerial r) e
chain-IsSerial {c} (ends {c = b} k fine r e) = finish-IsSerial k fine b c (chain-IsSerial r) e

-- Some job up to `k` runs, or may begin.
abbrev pub Moves : Chain → ℕ → Type 0
Moves c k = (i : ℕ) × (i ≤ k) × (((c.jobs i).phase ≡ running) ⊎ (may_begin i c ≡ true))

unfinished : (p : Phase) → is_over p ≡ false → (p ≡ running) ⊎ (p ≡ waiting)
unfinished waiting e = inr refl
unfinished running e = inl refl
unfinished returned e = absurd (cc)
unfinished threw e = absurd (cc)

first-Moves :
    (c : Chain) (k : ℕ)
    → k < c.count
    → is_over (c.jobs k).phase ≡ false
    → settled c (c.jobs k).after ≡ true
    → Moves c k
first-Moves c k less left clear = elim (unfinished (c.jobs k).phase left) [
  | inl runs ↦ (k, omega arith, inl runs)
  | inr waits ↦ (k, omega arith, inr (ground (arith, waits, clear, less)))
]

IsSerial-Moves :
    (c : Chain) (k : ℕ) → IsSerial c → k < c.count → is_over (c.jobs k).phase ≡ false → Moves c k
IsSerial-Moves c zero h less left = first-Moves c 0 less left (ground (arith, h.chained 0 less))
IsSerial-Moves c (suc k) h less left = elim (Bool-cases (is_over (c.jobs k).phase)) [
  | inl over ↦ first-Moves c (suc k) less left (ground (arith, h.chained (suc k) less, over))
  | inr still ↦
      let (i, low, moves) = IsSerial-Moves c k h (omega arith) still in (i, omega arith, moves)
]

-- The chain never stalls: while a job that was called is not over, it or a job before it runs or may begin,
-- whatever the jobs before it threw.
pub chain-Moves :
    {c : Chain} (k : ℕ) → Reach c → k < c.count → is_over (c.jobs k).phase ≡ false → Moves c k
chain-Moves {c} k r less left = IsSerial-Moves c k (chain-IsSerial r) less left
