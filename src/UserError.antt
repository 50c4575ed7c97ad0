-- ===== src/UserError.antt =====
-- The user errors that the structures report through SetUserError.
pub data UserError : Type 0 where
  invalid_parameter : UserError
