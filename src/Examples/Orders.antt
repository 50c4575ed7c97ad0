-- ===== src/Examples/Orders.antt =====
-- Orders: src/include/classes/Order.struct.h.
use ea31337_fft.Prelude.{
  ℕ, ◌^◌, ◌≡◌, refl, none, some, [], ◌∷◌, ◌++◌, length, set, ltb, ◌==◌, if◌then◌else◌,
}
use ea31337_fft.Order.Params.{CloseCond, set_condition_close}
use ea31337_fft.Order.Params.Laws.{set_condition_close_lem}
use ea31337_fft.Order.Data.{
  OrderData, OrderSymbol, new_order_data, order_prop_value, prop_profit, prop_total_fees,
}
use ea31337_fft.Order.Access.{get_order_prop, set_order_prop}
use ea31337_fft.Order.Access.Laws.{stored_prop, get_order_prop-set_order_prop}
use ea31337_fft.Examples.Params.{number_casts}
use ea31337_fft.Examples.Candles.{naturals}

-- Memory with no zero in it.
abbrev memory : OrderData ℕ
memory = record {
  magic = 77;
  position_id = 77;
  position_by_id = 77;
  ticket = 77;
  state = 77;
  time_closed = 77;
  time_done = 77;
  time_expiration = 77;
  time_setup = 77;
  time_last_refresh = 77;
  time_last_update = 77;
  commission = 77;
  profit = 77;
  total_profit = 77;
  price_open = 77;
  price_close = 77;
  price_current = 77;
  price_stoplimit = 77;
  swap = 77;
  total_fees = 77;
  sl = 77;
  tp = 77;
  time_setup_msc = 77;
  time_done_msc = 77;
  type = 77;
  type_filling = 77;
  type_time = 77;
  reason = 77;
  reason_close = 77;
  last_error = 77;
  volume_curr = 77;
  volume_init = 77;
  comment = "?";
  ext_id = "?";
  symbol = "?";
}

abbrev points : OrderSymbol ℕ
points = record { ten_to_digits = λ symbol. 10 ^ 5; tick_value = λ symbol. 1; to_int = λ x. x }

abbrev order : OrderData ℕ
order = new_order_data 0 "" memory

get_order_prop-set_order_prop_example :
    get_order_prop number_casts naturals points prop_profit
      (set_order_prop number_casts prop_total_fees 3 order).0
    ≡ (if order_prop_value prop_total_fees == order_prop_value prop_profit
        then stored_prop number_casts prop_profit 3 order
        else get_order_prop number_casts naturals points prop_profit order)
get_order_prop-set_order_prop_example =
    get_order_prop-set_order_prop number_casts naturals points prop_total_fees prop_profit 3 order
      refl

abbrev no_condition : CloseCond ℕ
no_condition = record { cond = 0; cond_args = [] }

abbrev in_loss : CloseCond ℕ
in_loss = record { cond = 1; cond_args = [] }

-- A condition on the lifetime of an order that closes in loss, two places after the last condition.
set_condition_close_lem_example : set_condition_close no_condition 5 (600 ∷ []) 2 (in_loss ∷ []) ≡ (
    if ltb 2 (length (in_loss ∷ []))
    then some (set (in_loss ∷ []) 2 (record { cond = 5; cond_args = 600 ∷ [] }))
    else if 2 == length (in_loss ∷ [])
    then some ((in_loss ∷ []) ++ record { cond = 5; cond_args = 600 ∷ [] } ∷ [])
    else none)
set_condition_close_lem_example = set_condition_close_lem no_condition 5 (600 ∷ []) 2 (in_loss ∷ [])
