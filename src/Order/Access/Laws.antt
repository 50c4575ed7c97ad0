-- ===== src/Order/Access/Laws.antt =====
-- A property of an order that is set is read back, and no other changes.
use ea31337_fft.Prelude.{
  ◌≡◌, refl, arith, Bool, true, false, Option, none, some, ◌==◌, if◌then◌else◌,
}
use ea31337_fft.UserError.{UserError, invalid_parameter}
use ea31337_fft.Casts.{Casts}
use ea31337_fft.Price.{Prices}
use ea31337_fft.Order.Data.{
  OrderData, OrderSymbol, OrderProp, order_prop_value, prop_none, prop_commission, prop_last_error,
  prop_price_close, prop_price_open, prop_price_stoplimit, prop_profit, prop_profit_pips,
  prop_profit_total, prop_profit_value, prop_reason_close, prop_ticket, prop_time_closed,
  prop_time_opened, prop_time_last_refresh, prop_time_last_update, prop_total_fees,
}
use ea31337_fft.Order.Access.{get_order_prop, set_order_prop}

-- The properties that are computed from others.
abbrev pub is_computed : OrderProp → Bool
is_computed prop_profit_pips = true
is_computed prop_profit_total = true
is_computed prop_profit_value = true
is_computed _ = false

module _ {F T : Type 0} (c : Casts F T) where
  -- What a property reads as once a value was set: the value, converted to the type of the member and
  -- back; the time of opening, which is read from elsewhere, as before; and an error for a property
  -- that there is not.
  abbrev pub stored_prop : OrderProp → T → OrderData F → T × Option UserError
  stored_prop prop_commission v s = (c.of_float (c.to_float v), none)
  stored_prop prop_last_error v s = (c.of_number 32 (c.to_number 32 v), none)
  stored_prop prop_price_close v s = (c.of_float (c.to_float v), none)
  stored_prop prop_price_open v s = (c.of_float (c.to_float v), none)
  stored_prop prop_price_stoplimit v s = (c.of_float (c.to_float v), none)
  stored_prop prop_profit v s = (c.of_float (c.to_float v), none)
  stored_prop prop_reason_close v s = (c.of_number 32 (c.to_number 32 v), none)
  stored_prop prop_ticket v s = (c.of_number 64 (c.to_number 64 v), none)
  stored_prop prop_time_closed v s = (c.of_number 64 (c.to_number 64 v), none)
  stored_prop prop_time_opened v s = (c.of_number 64 s.time_done, none)
  stored_prop prop_time_last_refresh v s = (c.of_number 64 (c.to_number 64 v), none)
  stored_prop prop_time_last_update v s = (c.of_number 64 (c.to_number 64 v), none)
  stored_prop prop_total_fees v s = (c.of_float (c.to_float v), none)
  stored_prop _ v s = (c.wrong_value, some invalid_parameter)

  -- After Set of a property of an order, Get of a property that is not computed from others reads the
  -- stored value of that property, and every other as before; the time of opening is not read back.
  pub get_order_prop-set_order_prop :
      (p : Prices F) (m : OrderSymbol F) (set_prop get_prop : OrderProp) (v : T) (s : OrderData F)
      → is_computed get_prop ≡ false
      → get_order_prop c p m get_prop (set_order_prop c set_prop v s).0 ≡ (
          if order_prop_value set_prop == order_prop_value get_prop
          then stored_prop get_prop v s
          else get_order_prop c p m get_prop s)
  unfolding get_order_prop set_order_prop order_prop_value
  get_order_prop-set_order_prop p m prop_none prop_none v s h = refl
  get_order_prop-set_order_prop p m _ prop_none v s h = refl
  get_order_prop-set_order_prop p m _ prop_profit_pips v s h = absurd (ground (arith, h))
  get_order_prop-set_order_prop p m _ prop_profit_total v s h = absurd (ground (arith, h))
  get_order_prop-set_order_prop p m _ prop_profit_value v s h = absurd (ground (arith, h))
  get_order_prop-set_order_prop p m _ _ v s h = refl
