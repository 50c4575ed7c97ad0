-- ===== src/Timeframe/Roundtrip.antt =====
-- Timeframes and their indices determine one another.
use native.Mathlib.Decide.{ℕ_discrete}
use ea31337_fft.Prelude.{
  ◌+◌, ◌≤◌, false, if◌then◌else◌, ℕ, zero, suc, ◌<◌, ◌≡◌, ◌≢◌, refl, sym, arith, Bool, true, ◌==◌,
  ==_iff,
}
use ea31337_fft.Timeframe.Tables.{Timeframe, period_current, wrong_value}
use ea31337_fft.Timeframe.Convert.{index_to_tf, tf_to_index}
use ea31337_fft.Timeframe.ChartTf.{ChartTf, of_tf, of_index, set_tf, set_index}

-- A test that is true at every number of a range.
passes : (ℕ → Bool) → (start count : ℕ) → Bool
passes test start zero = true
passes test start (suc count) =
    let later = passes test (start + 1) count in if test start then later else false

passes-inside :
    (test : ℕ → Bool) (start count i : ℕ)
    → start ≤ i
    → i < start + count
    → passes test start count ≡ true
    → test i ≡ true
unfolding passes
passes-inside test start zero i low high h = absurd (omega arith)
passes-inside test start (suc count) i low high h = elim (ℕ_discrete start i) [
  | yes e ↦ rw (sym e) (ground (arith, h))
  | no ne ↦ passes-inside test (start + 1) count i (omega arith) (omega arith) (ground (arith, h))
]

index_table :
    (period : Timeframe) → passes (λ i. tf_to_index period (index_to_tf i) == i) 0 21 ≡ true
unfolding passes tf_to_index index_to_tf
index_table period = refl

-- Every index below 21 names a timeframe whose index it is, whatever the chart's own period.
pub tf_to_index-index_to_tf :
    (period : Timeframe) (i : ℕ) → i < 21 → tf_to_index period (index_to_tf i) ≡ i
tf_to_index-index_to_tf period i h =
    (==_iff _ i).0 (passes-inside _ 0 21 i (omega arith) h (index_table period))

-- A timeframe proper: neither the alias of the chart's period nor the result of a bad index.
abbrev pub IsStandard : Timeframe → Type 0
IsStandard tf = (tf ≢ period_current) × (tf ≢ wrong_value)

standard_index :
    (period tf : Timeframe)
    → IsStandard tf
    → (tf_to_index period tf < 21) × (index_to_tf (tf_to_index period tf) ≡ tf)
unfolding tf_to_index index_to_tf
standard_index period period_current h = absurd (h.0 refl)
standard_index period wrong_value h = absurd (h.1 refl)
standard_index period _ h = (omega arith, refl)

current_index :
    (period : Timeframe)
    → IsStandard period
    → tf_to_index period period_current ≡ tf_to_index period period
unfolding tf_to_index
current_index period_current h = absurd (h.0 refl)
current_index _ h = refl

-- The timeframe that a name means on a chart of some period: PERIOD_CURRENT is that period.
abbrev pub meant : Timeframe → Timeframe → Timeframe
meant period period_current = period
meant period tf = tf

-- On a chart whose own period is a timeframe proper, the index of every timeframe but the bad one
-- is below 21 and names that timeframe itself, but for PERIOD_CURRENT, whose index names the chart's
-- period.
pub index_to_tf-tf_to_index :
    (period tf : Timeframe)
    → IsStandard period
    → tf ≢ wrong_value
    → (tf_to_index period tf < 21) × (index_to_tf (tf_to_index period tf) ≡ meant period tf)
index_to_tf-tf_to_index period period_current p h =
    rw (current_index period p) (standard_index period period p)
index_to_tf-tf_to_index period wrong_value p h = absurd (h refl)
index_to_tf-tf_to_index period tf p h = standard_index period _ ((λ e. cc), h)

-- The index says which timeframe the structure holds.
abbrev pub IsConsistent : Timeframe → ChartTf → Type 0
IsConsistent period c = c.tfi ≡ tf_to_index period c.tf

-- Every constructor and setter of ChartTf leaves timeframe and index in agreement; an index is to
-- be below 21 for that.
pub chart_tf-IsConsistent :
    (period t : Timeframe) (i : ℕ) (c : ChartTf)
    → i < 21
    → IsConsistent period (of_tf period t)
      × IsConsistent period (set_tf period t c)
      × IsConsistent period (of_index i)
      × IsConsistent period (set_index i c)
unfolding of_tf set_tf of_index set_index
chart_tf-IsConsistent period t i c h =
    (refl, refl, sym (tf_to_index-index_to_tf period i h), sym (tf_to_index-index_to_tf period i h))
