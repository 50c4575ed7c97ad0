-- ===== src/Ea/WholeTick/Laws.antt =====
-- A tick ends, whatever the state of the EA.
use ea31337_fft.Prelude.{
  ℕ, ◌+◌, ◌≤◌, ◌≡◌, refl, ap, arith, Bool-cases, inl, inr, some, ltb, leb, if◌then◌else◌, length,
  ◌<◌, ◌⊎◌, ◌^◌, ◌∙◌,
}
use ea31337_fft.DateTime.Entry.{MqlDateTime}
use ea31337_fft.DateTime.Periods.{update}
use ea31337_fft.Signal.Entry.{TradeSignalEntry}
use ea31337_fft.Manager.Refresh.{is_ready}
use ea31337_fft.Manager.Total.{AllCounted, held}
use ea31337_fft.Ea.Process.Ends.{process_signals_lem}
use ea31337_fft.Ea.Tick.{TickState, process_strategies, retrieve_signals}
use ea31337_fft.Ea.Tick.Laws.{retrieve_signals_lem}
use ea31337_fft.Ea.State.{
  EaProcessResult, reset_result, is_enabled, is_active, get_prop, prop_new_periods,
}
use ea31337_fft.Ea.WholeTick.{
  active_part, then_signals, then_finish, process_tick, process_periods, with_tick, EaWorld, Ea,
  has_new_periods, in_world, with_signals, finish, signals_part, after_signals, false, true,
}

module _ {F W : Type 0} where
  -- The dictionaries count their slots; no more strategies are recorded with an error than as
  -- processed, and no more of them than `n`; and there are at most so many more signals than `h`.
  abbrev pub Bounded : ℕ → ℕ → TickState F W → Type 0
  Bounded n h t =
      AllCounted t.manager
      × (t.results.stg_errored ≤ t.results.stg_processed)
      × (t.results.stg_processed ≤ n)
      × (held t.manager ≤ h + t.results.stg_processed)

  -- The same signals and results.
  abbrev SameTick : Ea F W → Ea F W → Type 0
  SameTick e e' =
      (e'.tick.manager ≡ e.tick.manager)
      × (e'.tick.results ≡ e.tick.results)
      × (e'.state.new_periods ≡ e.state.new_periods)

  Bounded-same :
      (n h : ℕ) (e e' : Ea F W) → SameTick e e' → Bounded n h e.tick → Bounded n h e'.tick
  Bounded-same n h e e' (m, r, _) b = rw (m, r) b

module _ {F W : Type 0} (p : EaWorld F W) (time_to_struct : ℕ → MqlDateTime)
    (blank : TradeSignalEntry F) (zero_weight : F) (filter : ℕ) where
  finish-SameTick : (e : Ea F W) → SameTick e (finish p time_to_struct e)
  unfolding finish in_world update
  finish-SameTick e =
      let s = record (e.state) {
        last_updated = update time_to_struct (p.time_current e.tick.world) e.state.last_updated;
      } in
      let e1 = record e { state = s } in
      elim (Bool-cases (has_new_periods e1)) [
        | inl new ↦ rw (new, finish) (refl, refl, refl)
        | inr old ↦ rw (old, finish) (refl, refl, refl)
      ]

  after_signals-SameTick :
      (e : Ea F W)
      → (e' : Ea F W) × (after_signals p blank filter (some e) ≡ some e') × SameTick e e'
  unfolding after_signals in_world
  after_signals-SameTick e =
      let e1 = if ltb 0 e.tick.results.last_error then in_world p.flush_log e else e in
      let flushed : SameTick e e1 = elim (Bool-cases (ltb 0 e.tick.results.last_error)) [
        | inl failed ↦ rw failed (refl, refl, refl)
        | inr fine ↦ rw fine (refl, refl, refl)
      ] in
      elim (Bool-cases (has_new_periods e1)) [
        | inl new ↦ (in_world p.process_trades e1, rw new refl, flushed)
        | inr old ↦ (e1, rw old refl, flushed)
      ]

  signals_part-Bounded :
      (n h : ℕ) (e : Ea F W)
      → Bounded n h e.tick
      → (e' : Ea F W) × (signals_part p blank filter e ≡ some e') × Bounded n h e'.tick
  unfolding signals_part is_ready with_signals
  signals_part-Bounded n h e (c, errors, few, more) =
      let now = p.strategies.time_gmt e.tick.world in
      let m = e.tick.manager in
      elim (Bool-cases (ltb 0 m.active.num_used)) [
        | inl active ↦ elim (Bool-cases (leb now (m.last_check + m.freq))) [
          | inl ready ↦
              let m1 = record m { last_check = now } in
              let (ok, m', w', processed, c', same, _) =
                process_signals_lem p.trades filter blank now m1 e.tick.world c in
              let e' = record e { tick = record (e.tick) { manager = m'; world = w' } } in
              (
                e',
                rw (active, ready) (ap (with_signals e) processed),
                (c', errors, few, omega (arith, same, more)),
              )
          | inr early ↦ (e, rw (active, early) refl, (c, errors, few, more))
        ]
        | inr none_active ↦ (e, rw none_active refl, (c, errors, few, more))
      ]

  active_part-Bounded :
      (e : Ea F W) (results : EaProcessResult)
      → e.tick.results ≡ reset_result results
      → AllCounted e.tick.manager
      → length e.keys < 2 ^ 16
      → (e' : Ea F W) × (active_part p time_to_struct blank zero_weight filter e ≡ some e')
        × Bounded (length e.keys) (held e.tick.manager) e'.tick
  unfolding active_part process_periods in_world then_signals with_tick retrieve_signals
      reset_result
  active_part-Bounded e results fresh c few =
      let e1 = process_periods p time_to_struct e in
      let periods = (get_prop prop_new_periods e1.state).0 in
      let (t, retrieved, c1, errors, processed, more) =
        retrieve_signals_lem p.strategies blank zero_weight periods e.keys
          (record (e1.tick) { results = results }) c few in
      let e2 = record e1 { tick = t } in
      let (e3, signals, b3) =
        signals_part-Bounded (length e.keys) (held e.tick.manager) e2
          (c1, errors, processed, more) in
      let (e4, after, same) = after_signals-SameTick e3 in
      let start : process_strategies p.strategies blank zero_weight periods e1.keys (some e1.tick)
          ≡ some t =
        ap
          (λ r.
            process_strategies p.strategies blank zero_weight periods e.keys
              (some (record (e1.tick) { results = r })))
          fresh
        ∙ retrieved in
      (
        e4,
        ap (λ t. then_signals p blank filter (with_tick e1 t)) start
            ∙ ap (after_signals p blank filter) signals
            ∙ after,
        Bounded-same (length e.keys) (held e.tick.manager) e3 e4 same b3,
      )

  -- What a tick leaves: of an EA that is not enabled, everything; of one that is enabled but not active,
  -- the signals, the periods that the last active tick saw, and empty results; of one that is active,
  -- dictionaries that count their slots, with at most as many new signals as strategies processed.
  abbrev pub Ticked : Ea F W → Ea F W → Type 0
  Ticked e e' =
      (is_enabled e.state ≡ false) × (e' ≡ e)
      ⊎ (is_enabled e.state ≡ true)
        × (is_active e.state ≡ false)
        × (e'.tick.manager ≡ e.tick.manager)
        × (e'.state.new_periods ≡ e.state.new_periods)
        × (e'.tick.results ≡ reset_result e.tick.results)
      ⊎ (is_enabled e.state ≡ true)
        × (is_active e.state ≡ true)
        × Bounded (length e.keys) (held e.tick.manager) e'.tick

  -- With fewer than 2 ^ 16 strategies and dictionaries that count their slots, ProcessTick ends. An EA
  -- that is not enabled is left as it is; one that is enabled but not active keeps its signals and the
  -- periods of its last active tick, and has its results reset; of an active one the dictionaries count
  -- their slots, strategies recorded with an error are at most those processed, which are at most all,
  -- and new signals are at most those processed.
  pub process_tick_lem :
      (e : Ea F W)
      → AllCounted e.tick.manager
      → length e.keys < 2 ^ 16
      → (e' : Ea F W) × (process_tick p time_to_struct blank zero_weight filter e ≡ some e')
        × Ticked e e'
  unfolding process_tick then_finish
  process_tick_lem e c few =
      let e1 = record e { tick = record (e.tick) { results = reset_result e.tick.results } } in
      elim (Bool-cases (is_enabled e.state)) [
        | inr off ↦ (e, rw off refl, inl (off, refl))
        | inl on ↦ elim (Bool-cases (is_active e.state)) [
          | inr idle ↦
              let (m, r, n) = finish-SameTick e1 in
              (finish p time_to_struct e1, rw (on, idle) refl, inr (inl (on, idle, m, n, r)))
          | inl active ↦
              let (e2, done, b) = active_part-Bounded e1 e.tick.results refl c few in
              let same = finish-SameTick e2 in
              (
                finish p time_to_struct e2,
                rw (on, active) (ap (then_finish p time_to_struct blank zero_weight filter) done),
                inr (
                    inr (
                      on,
                      active,
                      Bounded-same (length e.keys) (held e.tick.manager) e2
                          (finish p time_to_struct e2) same b,
                    )),
              )
        ]
      ]
