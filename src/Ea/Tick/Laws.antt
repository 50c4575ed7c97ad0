-- ===== src/Ea/Tick/Laws.antt =====
-- The loop of a tick over the strategies ends, and its counters agree.
use ea31337_fft.Prelude.{
  ℕ, ◌%◌, ◌+◌, ◌≤◌, ◌<◌, ◌≡◌, refl, arith, ◌^◌, not, ◌&&◌, Bool-cases, inl, inr, some, List, [],
  ◌∷◌, length, ap, ◌∙◌, leb, ltb,
}
use ea31337_fft.DateTime.Entry.{datetime_minute}
use ea31337_fft.Signal.Entry.{TradeSignalEntry}
use ea31337_fft.Signal.Decision.{get_signal_open, get_signal_close}
use ea31337_fft.Signal.Collect.{strategy_signal_entry}
use ea31337_fft.Manager.Refresh.{SignalManager, signal_add, with_active}
use ea31337_fft.Manager.Total.{AllCounted, held}
use ea31337_fft.Dict.Push.{pushed-IsCounted}
use ea31337_fft.Ea.State.{EaProcessResult, reset_result, reset_error}
use ea31337_fft.Ea.Tick.{
  StrategyWorld, TickState, sign_differs, count_result, periods_part, filtered_part, signal_part,
  with_manager, entry_part, process_strategy, process_strategies, retrieve_signals, not,
}

-- The second results come from the first by at most so many strategies, not more of them with an
-- error than processed, and without a wrap-around of the counters.
abbrev pub Counts : ℕ → EaProcessResult → EaProcessResult → Type 0
Counts n r r' =
    (r.stg_processed ≤ r'.stg_processed)
    × (r'.stg_processed ≤ r.stg_processed + n)
    × (r'.stg_errored + r.stg_processed ≤ r.stg_errored + r'.stg_processed)
    × (r.last_error ≤ r'.last_error)

count_result-Counts :
    (code : ℕ) (r : EaProcessResult)
    → r.stg_processed + 1 < 2 ^ 16
    → r.stg_errored ≤ r.stg_processed
    → Counts 1 r (count_result code r) × ((count_result code r).stg_processed ≡ r.stg_processed + 1)
unfolding count_result
count_result-Counts code r few le = ground (arith, few, le)

module _ {F : Type 0} (blank : TradeSignalEntry F) where
  signal_add-AllCounted :
      (s : TradeSignalEntry F) (m : SignalManager F)
      → AllCounted m
      → (m' : SignalManager F) × (signal_add blank s m ≡ some m')
        × AllCounted m'
        × (held m' ≡ held m + 1)
  unfolding signal_add with_active
  signal_add-AllCounted s m (a, e, p) =
      let (d, put, cd, more) = pushed-IsCounted blank s m.active a in
      (record m { active = d }, ap (with_active blank m) put, (cd, e, p), omega (arith, more))

  signal_part-AllCounted :
      (s : TradeSignalEntry F) (m : SignalManager F)
      → AllCounted m
      → (m' : SignalManager F) × (signal_part blank s m ≡ some m')
        × AllCounted m'
        × (held m' ≤ held m + 1)
  unfolding signal_part
  signal_part-AllCounted s m c =
      elim (Bool-cases (sign_differs (get_signal_close s) (get_signal_open s))) [
        | inl new ↦
            let (m', added, c', more) = signal_add-AllCounted s m c in
            (m', rw new added, c', omega (arith, more))
        | inr same ↦ (m, rw same refl, c, omega arith)
      ]

module _ {F W : Type 0} (p : StrategyWorld F W) (blank : TradeSignalEntry F) (zero_weight : F) where
  -- A state results from another by at most so many strategies: no more signals are new than
  -- strategies were processed.
  abbrev pub Retrieved : ℕ → TickState F W → TickState F W → Type 0
  Retrieved n t t' =
      AllCounted t'.manager
      × Counts n t.results t'.results
      × (held t'.manager + t.results.stg_processed ≤ held t.manager + t'.results.stg_processed)

  unchanged : (n : ℕ) (t : TickState F W) → AllCounted t.manager → Retrieved n t t
  unchanged n t c = (c, (omega arith, omega arith, omega arith, omega arith), omega arith)

  entry_part-Retrieved :
      (i : ℕ) (t : TickState F W)
      → AllCounted t.manager
      → t.results.stg_processed + 1 < 2 ^ 16
      → t.results.stg_errored ≤ t.results.stg_processed
      → (t' : TickState F W) × (entry_part p blank zero_weight i t ≡ some t') × Retrieved 1 t t'
  unfolding entry_part with_manager
  entry_part-Retrieved i t c few le =
      let can_trade = not (p.is_suspended i t.world) && not (p.trade_cannot i t.world) in
      let (a, w) = p.answers i can_trade t.world in
      let s =
        strategy_signal_entry zero_weight a can_trade (p.timeframe i w) (p.magic_id i w)
          (p.strength i w) (p.time_gmt w) in
      let t1 = record t { results = count_result (p.last_error i w) t.results; world = w } in
      let (counts, one) = count_result-Counts (p.last_error i w) t.results few le in
      elim (Bool-cases (ltb 0 s.signals)) [
        | inl signalled ↦
            let (m, added, cm, more) = signal_part-AllCounted blank s t.manager c in
            (
              record t1 { manager = m },
              rw signalled (ap (with_manager t1) added),
              (cm, counts, omega (arith, more, one)),
            )
        | inr silent ↦ (record t { world = w }, rw silent refl, unchanged 1 t c)
      ]

  filtered_part-Retrieved :
      (i : ℕ) (t : TickState F W)
      → AllCounted t.manager
      → t.results.stg_processed + 1 < 2 ^ 16
      → t.results.stg_errored ≤ t.results.stg_processed
      → (t' : TickState F W) × (filtered_part p blank zero_weight i t ≡ some t') × Retrieved 1 t t'
  unfolding filtered_part
  filtered_part-Retrieved i t c few le =
      let (passed, w) = p.tick_filter i t.world in
      let t2 = record t { world = w } in
      elim (Bool-cases passed) [
        | inl through ↦ let (t', e, r) = entry_part-Retrieved i t2 c few le in (t', rw through e, r)
        | inr stopped ↦ (t2, rw stopped refl, unchanged 1 t c)
      ]

  process_strategy-Retrieved :
      (periods i : ℕ) (t : TickState F W)
      → AllCounted t.manager
      → t.results.stg_processed + 1 < 2 ^ 16
      → t.results.stg_errored ≤ t.results.stg_processed
      → (t' : TickState F W) × (process_strategy p blank zero_weight periods i t ≡ some t')
        × Retrieved 1 t t'
  unfolding process_strategy periods_part
  process_strategy-Retrieved periods i t c few le = elim (Bool-cases (p.is_enabled i t.world)) [
    | inl on ↦ elim (Bool-cases (leb datetime_minute periods)) [
      | inl started ↦
          let t1 = record t {
            world =
                p.trade_on_period periods
                  (p.strategy_tasks i (p.strategy_on_period i periods t.world));
            results = record (t.results) {
              stg_processed_periods = (t.results.stg_processed_periods + 1) % 2 ^ 16;
            };
          } in
          let (t', e, r) = filtered_part-Retrieved i t1 c few le in (t', rw (on, started) e, r)
      | inr none_started ↦
          let (t', e, r) = filtered_part-Retrieved i t c few le in (t', rw (on, none_started) e, r)
    ]
    | inr off ↦ (t, rw off refl, unchanged 1 t c)
  ]

  process_strategies-Retrieved :
      (periods : ℕ) (keys : List ℕ) (t : TickState F W)
      → AllCounted t.manager
      → t.results.stg_processed + length keys < 2 ^ 16
      → t.results.stg_errored ≤ t.results.stg_processed
      → (t' : TickState F W) × (process_strategies p blank zero_weight periods keys (some t)
          ≡ some t')
        × Retrieved (length keys) t t'
  unfolding process_strategies
  process_strategies-Retrieved periods [] t c few le = (t, refl, unchanged 0 t c)
  process_strategies-Retrieved periods (i ∷ keys) t c few le =
      let (t1, one, (c1, (a1, b1, d1, e1), h1)) =
        process_strategy-Retrieved periods i t c (omega (arith, few)) le in
      let (t2, rest, (c2, (a2, b2, d2, e2), h2)) =
        process_strategies-Retrieved periods keys t1 c1 (omega (arith, few, b1))
          (omega (arith, le, d1, a1)) in
      (
        t2,
        ap (process_strategies p blank zero_weight periods keys) one ∙ rest,
        (
          c2,
          (
            omega (arith, a1, a2),
            omega (arith, b1, b2),
            omega (arith, d1, d2),
            omega (arith, e1, e2),
          ),
          omega (arith, h1, h2),
        ),
      )

  -- With fewer than 2 ^ 16 strategies, and dictionaries that count their slots, the loop of a tick
  -- over the strategies ends. The dictionaries still count their slots; no more strategies are
  -- recorded with an error than as processed, and no more of them than there are; and no more signals
  -- are new than strategies were processed.
  pub retrieve_signals_lem :
      (periods : ℕ) (keys : List ℕ) (t : TickState F W)
      → AllCounted t.manager
      → length keys < 2 ^ 16
      → (t' : TickState F W) × (retrieve_signals p blank zero_weight periods keys t ≡ some t')
        × AllCounted t'.manager
        × (t'.results.stg_errored ≤ t'.results.stg_processed)
        × (t'.results.stg_processed ≤ length keys)
        × (held t'.manager ≤ held t.manager + t'.results.stg_processed)
  unfolding retrieve_signals reset_result reset_error
  retrieve_signals_lem periods keys t c few =
      let t0 = record t {
        results = record (t.results) {
          last_error = 0;
          stg_errored = 0;
          stg_processed = 0;
          stg_suspended = 0;
        };
      } in
      let (t', e, (c', (a, b, d, m), h)) =
        process_strategies-Retrieved periods keys t0 c (omega (arith, few)) (omega arith) in
      (t', e, c', omega (arith, d), omega (arith, b), omega (arith, h))
