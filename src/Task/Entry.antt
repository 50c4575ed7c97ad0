-- ===== src/Task/Entry.antt =====
-- The structures ActionEntry, ConditionEntry and TaskEntry of src/include/classes/Action.struct.h,
-- Condition.struct.h and Task.struct.h. The identifier of an action or a condition is a pattern of 64
-- bits; arguments have the type D.
use ea31337_fft.Prelude.{ℕ, ◌-◌, ◌^◌, Bool, not, ◌&&◌, ◌||◌, Option, none, some, List, [], ◌==◌}
use ea31337_fft.Bits.Flags.{has_any, add_flags, remove_flags, set_flag}
pub mod Laws

-- WRONG_VALUE as a long
abbrev pub wrong_id : ℕ
wrong_id = 2 ^ 64 - 1

-- ENUM_ACTION_ENTRY_FLAGS
abbrev pub action_is_active : ℕ
action_is_active = 2 ^ 0

abbrev pub action_is_done : ℕ
action_is_done = 2 ^ 1

abbrev pub action_is_failed : ℕ
action_is_failed = 2 ^ 2

abbrev pub action_is_invalid : ℕ
action_is_invalid = 2 ^ 3

-- ENUM_CONDITION_ENTRY_FLAGS
abbrev pub cond_is_active : ℕ
cond_is_active = 2 ^ 0

abbrev pub cond_is_expired : ℕ
cond_is_expired = 2 ^ 1

abbrev pub cond_is_invalid : ℕ
cond_is_invalid = 2 ^ 2

abbrev pub cond_is_ready : ℕ
cond_is_ready = 2 ^ 3

-- ENUM_TASK_ENTRY_FLAGS
abbrev pub task_is_active : ℕ
task_is_active = 2 ^ 0

abbrev pub task_is_done : ℕ
task_is_done = 2 ^ 1

abbrev pub task_is_expired : ℕ
task_is_expired = 2 ^ 2

abbrev pub task_is_failed : ℕ
task_is_failed = 2 ^ 3

abbrev pub task_is_invalid : ℕ
task_is_invalid = 2 ^ 4

-- ENUM_CONDITION_STATEMENT; `cond_other` stands for every other number.
pub data Statement : Type 0 where
  cond_and cond_or cond_seq cond_other : Statement

pub record ActionEntry (D : Type 0) : Type 0 where
  pub flags : ℕ
  pub last_success : ℕ
  pub frequency : ℕ
  pub action_id : ℕ
  pub tries : ℕ
  pub obj : Option ℕ
  pub type : ℕ
  pub args : List D

pub record ConditionEntry (D : Type 0) : Type 0 where
  pub flags : ℕ
  pub last_check : ℕ
  pub last_success : ℕ
  pub frequency : ℕ
  pub cond_id : ℕ
  pub tries : ℕ
  pub obj : Option ℕ
  pub next_statement : Statement
  pub type : ℕ
  pub args : List D

pub record TaskEntry (D : Type 0) : Type 0 where
  pub action : ActionEntry D
  pub cond : ConditionEntry D
  pub expires : ℕ
  pub last_process : ℕ
  pub last_success : ℕ
  pub flags : ℕ

module _ {D : Type 0} where
  -- The state methods of an action and of a condition
  unfoldable pub action_active : ActionEntry D → Bool
  action_active a = has_any a.flags action_is_active

  unfoldable pub action_done : ActionEntry D → Bool
  action_done a = has_any a.flags action_is_done

  unfoldable pub action_failed : ActionEntry D → Bool
  action_failed a = has_any a.flags action_is_failed

  unfoldable pub action_invalid : ActionEntry D → Bool
  action_invalid a = has_any a.flags action_is_invalid

  unfoldable pub cond_active : ConditionEntry D → Bool
  cond_active c = has_any c.flags cond_is_active

  unfoldable pub cond_expired : ConditionEntry D → Bool
  cond_expired c = has_any c.flags cond_is_expired

  unfoldable pub cond_ready : ConditionEntry D → Bool
  cond_ready c = has_any c.flags cond_is_ready

  unfoldable pub cond_invalid : ConditionEntry D → Bool
  cond_invalid c = has_any c.flags cond_is_invalid

  -- Init of an action and of a condition
  unfoldable pub init_action : ActionEntry D → ActionEntry D
  init_action a = record a {
    flags =
        set_flag (set_flag 0 action_is_active (not (a.action_id == wrong_id))) action_is_invalid
          (a.action_id == wrong_id);
    frequency = 60;
    last_success = 0;
    tries = 1;
  }

  unfoldable pub init_condition : ConditionEntry D → ConditionEntry D
  init_condition c = record c {
    flags =
        set_flag (set_flag 0 cond_is_active (not (c.cond_id == wrong_id))) cond_is_invalid
          (c.cond_id == wrong_id);
    frequency = 60;
    last_check = 0;
    last_success = 0;
    next_statement = cond_and;
    tries = 1;
  }

  -- The constructors from an identifier and a type, on memory that holds `raw`
  unfoldable pub new_action : ActionEntry D → ℕ → ℕ → ActionEntry D
  unfolding init_action
  new_action raw id type = init_action (record raw { action_id = id; type = type; args = [] })

  unfoldable pub new_condition : ConditionEntry D → ℕ → ℕ → ConditionEntry D
  unfolding init_condition
  new_condition raw id type = init_condition (record raw { cond_id = id; type = type; args = [] })

  -- SetObject and SetTries of an action and of a condition
  unfoldable pub set_action_object : Option ℕ → ActionEntry D → ActionEntry D
  set_action_object o a = record a { obj = o }

  unfoldable pub set_action_tries : ℕ → ActionEntry D → ActionEntry D
  set_action_tries count a = record a { tries = count }

  unfoldable pub set_cond_object : Option ℕ → ConditionEntry D → ConditionEntry D
  set_cond_object o c = record c { obj = o }

  unfoldable pub set_cond_tries : ℕ → ConditionEntry D → ConditionEntry D
  set_cond_tries count c = record c { tries = count }

  -- HasFlag, AddFlags, RemoveFlags, SetFlag and SetFlags of a task entry
  unfoldable pub has_task_flag : ℕ → TaskEntry D → Bool
  has_task_flag f t = has_any t.flags f

  unfoldable pub add_task_flags : ℕ → TaskEntry D → TaskEntry D
  add_task_flags f t = record t { flags = add_flags t.flags f }

  unfoldable pub remove_task_flags : ℕ → TaskEntry D → TaskEntry D
  remove_task_flags f t = record t { flags = remove_flags t.flags f }

  unfoldable pub set_task_flag : ℕ → Bool → TaskEntry D → TaskEntry D
  set_task_flag f v t = record t { flags = set_flag t.flags f v }

  unfoldable pub set_task_flags : ℕ → TaskEntry D → TaskEntry D
  set_task_flags f t = record t { flags = f }

  -- IsActive, IsDone, IsFailed and IsValid of a task entry, which read the flags of actions
  unfoldable pub task_active : TaskEntry D → Bool
  unfolding has_task_flag
  task_active t = has_task_flag action_is_active t

  unfoldable pub task_done : TaskEntry D → Bool
  unfolding has_task_flag
  task_done t = has_task_flag action_is_done t

  unfoldable pub task_failed : TaskEntry D → Bool
  unfolding has_task_flag
  task_failed t = has_task_flag action_is_failed t

  unfoldable pub task_valid : TaskEntry D → Bool
  unfolding has_task_flag
  task_valid t = not (has_task_flag action_is_invalid t)

  -- Init of a task entry
  unfoldable pub init_task : TaskEntry D → TaskEntry D
  unfolding set_task_flag action_active cond_active action_invalid cond_invalid
  init_task t =
      record (set_task_flag task_is_invalid (action_invalid t.action || cond_invalid t.cond) (
        set_task_flag task_is_active (action_active t.action && cond_active t.cond)
          (record t { flags = 0 }))) { expires = 0; last_process = 0; last_success = 0 }

  -- The constructor from the identifiers and types of an action and a condition
  unfoldable pub new_task : TaskEntry D → ℕ → ℕ → ℕ → ℕ → TaskEntry D
  unfolding init_task new_action new_condition
  new_task raw aid atype cid ctype = init_task (record raw {
    action = new_action raw.action aid atype;
    cond = new_condition raw.cond cid ctype;
  })
