-- ===== src/Order/Params.antt =====
-- The structure OrderParams of src/include/classes/Order.struct.h, with ENUM_ORDER_PARAM of
-- Order.enum.h. A condition is a number of ENUM_ORDER_CONDITION; its arguments (DataParamEntry) have
-- the type D. A read or a write past the end of an array is a fault: none.
pub mod Laws
use ea31337_fft.Prelude.{
  ℕ, zero, suc, ◌+◌, Bool, true, false, Option, none, some, List, [], ◌∷◌, ◌++◌, length, get_elem?,
  set, ltb, leb, if◌then◌else◌, ◌-◌,
}
use ea31337_fft.UserError.{UserError, invalid_parameter}
use ea31337_fft.Casts.{Casts}

-- OrderCloseCond
pub record CloseCond (D : Type 0) : Type 0 where
  pub cond : ℕ
  pub cond_args : List D

pub record OrderParams (D : Type 0) : Type 0 where
  pub cond_close : List (CloseCond D)
  pub dummy : Bool
  pub color_arrow : ℕ
  pub refresh_freq : ℕ
  pub update_freq : ℕ

-- ENUM_ORDER_PARAM; `order_param_other` stands for every other number.
pub data OrderParam : Type 0 where
  order_param_none : OrderParam
  order_param_color_arrow : OrderParam
  order_param_cond_close : OrderParam
  order_param_cond_close_arg_value : OrderParam
  order_param_cond_close_num : OrderParam
  order_param_dummy : OrderParam
  order_param_refresh_freq : OrderParam
  order_param_update_freq : OrderParam
  order_param_other : OrderParam

-- The constructors; `none_color` is clrNONE.
unfoldable pub new_order_params : {D : Type 0} → ℕ → OrderParams D
new_order_params none_color = record {
  cond_close = [];
  dummy = false;
  color_arrow = none_color;
  refresh_freq = 10;
  update_freq = 60;
}

unfoldable pub new_dummy_params : {D : Type 0} → ℕ → Bool → OrderParams D
unfolding new_order_params
new_dummy_params none_color value = record (new_order_params none_color) { dummy = value }

module _ {D : Type 0} (blank : D) where
  -- New elements at the end of an array of arguments, as ArrayResize makes them
  unfoldable pub pad : ℕ → List D → List D
  pad zero xs = xs
  pad (suc n) xs = pad n (xs ++ blank ∷ [])

  -- SetConditionArg
  unfoldable pub set_condition_arg : D → ℕ → CloseCond D → CloseCond D
  unfolding pad
  set_condition_arg value index c =
      let size = length c.cond_args in
      let args = if leb size index then pad (index + 1 - size) c.cond_args else c.cond_args in
      record c { cond_args = set args index value }

module _ {D : Type 0} where
  -- GetCondition and SetCondition; SetConditionArgs
  unfoldable pub get_condition : CloseCond D → ℕ
  get_condition c = c.cond

  unfoldable pub set_condition : ℕ → CloseCond D → CloseCond D
  set_condition cond c = record c { cond = cond }

  unfoldable pub set_condition_args : List D → CloseCond D → CloseCond D
  set_condition_args args c = record c { cond_args = args }

  -- OrderCloseCond::Resize; `fresh` is what a new element holds.
  unfoldable pub resize_conds : CloseCond D → ℕ → List (CloseCond D) → List (CloseCond D)
  resize_conds fresh index xs = if leb (length xs) index then xs ++ fresh ∷ [] else xs

  -- SetConditionClose, on the array of conditions
  unfoldable pub set_condition_close :
      CloseCond D → ℕ → List D → ℕ → List (CloseCond D) → Option (List (CloseCond D))
  unfolding resize_conds set_condition set_condition_args
  set_condition_close fresh cond args index xs =
      let ys = resize_conds fresh index xs in
      elim (get_elem? ys index) [
        | none ↦ none
        | some c ↦ some (set ys index (set_condition_args args (set_condition cond c)))
      ]

  -- AddConditionClose
  unfoldable pub add_condition_close :
      CloseCond D → ℕ → List D → List (CloseCond D) → Option (List (CloseCond D))
  unfolding set_condition_close
  add_condition_close fresh cond args xs = set_condition_close fresh cond args (length xs) xs

  -- HasCloseCondition, IsDummy, SetRefreshRate
  unfoldable pub has_close_condition : OrderParams D → Bool
  has_close_condition s = ltb 0 (length s.cond_close)

  unfoldable pub is_dummy : OrderParams D → Bool
  is_dummy s = s.dummy

  unfoldable pub set_refresh_rate : ℕ → OrderParams D → OrderParams D
  set_refresh_rate value s = record s { refresh_freq = value }

module _ {F T D : Type 0} (c : Casts F T) (blank : D) (fresh : CloseCond D) (from_value : T → D)
    (to_value : D → T) (of_bool : Bool → T) (to_bool : T → Bool) where
  -- GetConditionArgValue
  unfoldable pub get_condition_arg_value : ℕ → CloseCond D → Option T
  get_condition_arg_value index x = elim (get_elem? x.cond_args index) [
    | none ↦ none
    | some d ↦ some (to_value d)
  ]

  -- Get of a parameter and two indices, with the error that it reports
  unfoldable pub get_order_param :
      OrderParam → ℕ → ℕ → OrderParams D → Option (T × Option UserError)
  unfolding get_condition_arg_value
  get_order_param order_param_color_arrow i j s = some (c.of_number 32 s.color_arrow, none)
  get_order_param order_param_cond_close i j s = elim (get_elem? s.cond_close i) [
    | none ↦ none
    | some x ↦ some (c.of_number 32 x.cond, none)
  ]
  get_order_param order_param_cond_close_arg_value i j s = elim (get_elem? s.cond_close i) [
    | none ↦ none
    | some x ↦ elim (get_condition_arg_value j x) [ none ↦ none | some v ↦ some (v, none) ]
  ]
  get_order_param order_param_cond_close_num i j s =
      some (c.of_number 32 (length s.cond_close), none)
  get_order_param order_param_dummy i j s = some (of_bool s.dummy, none)
  get_order_param order_param_refresh_freq i j s = some (c.of_number 16 s.refresh_freq, none)
  get_order_param order_param_update_freq i j s = some (c.of_number 16 s.update_freq, none)
  get_order_param order_param_none i j s = some (c.wrong_value, some invalid_parameter)
  get_order_param order_param_other i j s = some (c.wrong_value, some invalid_parameter)

  -- Set of a parameter, a value and two indices
  unfoldable pub set_order_param :
      OrderParam → T → ℕ → ℕ → OrderParams D → Option (OrderParams D × Option UserError)
  unfolding set_condition_close set_condition_arg
  set_order_param order_param_color_arrow v i j s =
      some (record s { color_arrow = c.to_number 32 v }, none)
  set_order_param order_param_cond_close v i j s =
      elim (set_condition_close fresh (c.to_number 32 v) [] i s.cond_close) [
        | none ↦ none
        | some xs ↦ some (record s { cond_close = xs }, none)
      ]
  set_order_param order_param_cond_close_arg_value v i j s = elim (get_elem? s.cond_close i) [
    | none ↦ none
    | some x ↦ some (
      record s { cond_close = set s.cond_close i (set_condition_arg blank (from_value v) j x) },
      none,
    )
  ]
  set_order_param order_param_dummy v i j s = some (record s { dummy = to_bool v }, none)
  set_order_param order_param_refresh_freq v i j s =
      some (record s { refresh_freq = c.to_number 16 v }, none)
  set_order_param order_param_update_freq v i j s =
      some (record s { update_freq = c.to_number 16 v }, none)
  set_order_param order_param_none v i j s = some (s, some invalid_parameter)
  set_order_param order_param_cond_close_num v i j s = some (s, some invalid_parameter)
  set_order_param order_param_other v i j s = some (s, some invalid_parameter)
