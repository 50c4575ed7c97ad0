-- ===== src/Task/Process.antt =====
-- Task::Process of Task.mqh, with Action::Execute of Action.mqh and Condition::Test of Condition.mqh.
-- What the object of an action or a condition does is an operation on the world W.
use ea31337_fft.Prelude.{
  ℕ, ◌+◌, ◌-◌, ◌%◌, ◌^◌, Bool, true, false, not, ◌&&◌, ◌||◌, List, [], ◌∷◌, length, ltb, ◌==◌,
  if◌then◌else◌,
}
use ea31337_fft.Bits.Flags.{add_flags, remove_flags}
use ea31337_fft.Task.Entry.{
  ActionEntry, ConditionEntry, TaskEntry, Statement, cond_and, cond_or, cond_seq, cond_other,
  cond_is_invalid, action_is_active, action_is_done, action_is_invalid, task_is_active,
  task_is_done, task_is_failed, task_is_invalid, action_done, action_failed, action_invalid,
  cond_active, cond_invalid, task_active, has_task_flag, set_task_flag, remove_task_flags,
}
pub mod Laws

-- The answer of an object: none was there, or the result.
pub data Answer : Type 0 where
  missing : Answer
  answered : Bool → Answer

-- What the switches over the types do, and TimeCurrent().
pub record TaskWorld (D W : Type 0) : Type 0 where
  pub check : ConditionEntry D → W → Answer × W
  pub execute : ActionEntry D → W → Answer × W
  pub time_current : W → ℕ

-- One less of a short
unfoldable pub less_tries : ℕ → ℕ
less_tries n = (n + 2 ^ 16 - 1) % 2 ^ 16

module _ {D W : Type 0} (p : TaskWorld D W) where
  -- The end of Condition::Test of an entry, after the switch
  unfoldable pub tested : Answer → W → ConditionEntry D → Bool × ConditionEntry D × W
  unfolding less_tries
  tested missing w c = (
    false,
    record c { flags = add_flags c.flags cond_is_invalid; last_check = p.time_current w },
    w,
  )
  tested (answered true) w c = (
    true,
    record c {
      last_success = p.time_current w;
      tries = less_tries c.tries;
      last_check = p.time_current w;
    },
    w,
  )
  tested (answered false) w c = (false, record c { last_check = p.time_current w }, w)

  unfoldable pub test_condition : ConditionEntry D → W → Bool × ConditionEntry D × W
  unfolding tested
  test_condition c w = let (a, w1) = p.check c w in tested a w1 c

  -- Condition::Test of all entries, which it reads and does not change; `result` and `prev` are
  -- _result and _prev_result. A statement that is none of the three makes the result false.
  unfoldable pub test_from : List (ConditionEntry D) → Bool → Bool → W → Bool × W
  unfolding test_condition cond_invalid cond_active
  test_from [] result prev w = (result, w)
  test_from (c ∷ cs) result prev w =
      let (ok, _, w1) = test_condition c w in
      let go_true = test_from cs true true w in
      let go_false = test_from cs false false w in
      let go_tested = test_from cs ok ok w1 in
      let skip = test_from cs result prev w in
      if cond_invalid c
      then skip
      else if cond_active c
      then elim c.next_statement [
        | cond_and ↦ if prev then go_tested else go_false
        | cond_or ↦ if prev then go_true else go_tested
        | cond_seq ↦ if ok then go_tested else (false, w1)
        | cond_other ↦ go_false
      ]
      else skip

  unfoldable pub test_all : List (ConditionEntry D) → W → Bool × W
  unfolding test_from
  test_all cs w = test_from cs false true w

  -- The end of Action::Execute of an entry, after the switch; a failed try is one less, and the last
  -- one, where no positive number of tries is left as a short, makes the action invalid.
  unfoldable pub failed_try : ActionEntry D → ActionEntry D
  unfolding less_tries
  failed_try a =
      let left = less_tries a.tries in
      if ltb 0 left && ltb left (2 ^ 15) then record a { tries = left } else record a {
        tries = left;
        flags = remove_flags (add_flags a.flags action_is_invalid) action_is_active;
      }

  unfoldable pub executed : Answer → W → ActionEntry D → ActionEntry D
  unfolding failed_try
  executed missing w a = failed_try (record a { flags = add_flags a.flags action_is_invalid })
  executed (answered false) w a = failed_try a
  executed (answered true) w a = record a {
    flags = remove_flags (add_flags a.flags action_is_done) action_is_active;
    last_success = p.time_current w;
  }

  unfoldable pub execute_action : ActionEntry D → W → ActionEntry D × W
  unfolding executed
  execute_action a w = let (r, w1) = p.execute a w in (executed r w1 a, w1)

  -- What the executed copy of the action says to the task entry
  unfoldable pub mark : ActionEntry D → TaskEntry D → TaskEntry D
  unfolding set_task_flag remove_task_flags action_done action_failed action_invalid
  mark a t =
      if action_done a
      then remove_task_flags task_is_active (
          set_task_flag task_is_invalid (action_invalid a) (
            set_task_flag task_is_failed (action_failed a)
              (set_task_flag task_is_done (action_done a) t)))
      else t

  -- Task::Process of an entry
  unfoldable pub process_entry : TaskEntry D → W → Bool × TaskEntry D × W
  unfolding test_condition execute_action mark task_active
  process_entry t w =
      let (met, _, w1) = test_condition t.cond w in
      let (a, w2) = execute_action t.action w1 in
      if task_active t
      then if met
        then (true, record (mark a t) { last_process = p.time_current w2 }, w2)
        else (true, record t { last_process = p.time_current w1 }, w1)
      else (false, t, w)

  -- Task::Process of all: each entry is processed as a copy, and false is returned.
  unfoldable pub process_all : List (TaskEntry D) → W → Bool × W
  unfolding process_entry
  process_all [] w = (false, w)
  process_all (t ∷ ts) w = let (_, _, w1) = process_entry t w in process_all ts w1

module _ {D : Type 0} where
  -- GetFlagCount, and the state methods of all tasks
  unfoldable pub flag_count : ℕ → List (TaskEntry D) → ℕ
  unfolding has_task_flag
  flag_count f [] = 0
  flag_count f (t ∷ ts) = (if has_task_flag f t then 1 else 0) + flag_count f ts

  unfoldable pub tasks_active : List (TaskEntry D) → Bool
  unfolding flag_count
  tasks_active ts = ltb 0 (flag_count task_is_active ts)

  unfoldable pub tasks_done : List (TaskEntry D) → Bool
  unfolding flag_count
  tasks_done ts = flag_count task_is_done ts == length ts

  unfoldable pub tasks_failed : List (TaskEntry D) → Bool
  unfolding flag_count
  tasks_failed ts = ltb 0 (flag_count task_is_failed ts)

  unfoldable pub tasks_finished : List (TaskEntry D) → Bool
  unfolding flag_count
  tasks_finished ts = flag_count task_is_active ts == 0

  unfoldable pub tasks_invalid : List (TaskEntry D) → Bool
  unfolding flag_count
  tasks_invalid ts = ltb 0 (flag_count task_is_invalid ts)

  -- SetFlags of all tasks, which writes to copies: whether an entry has the flag otherwise.
  unfoldable pub set_all_flags : ℕ → Bool → List (TaskEntry D) → Bool
  unfolding has_task_flag
  set_all_flags f value [] = false
  set_all_flags f value (t ∷ ts) =
      (if value then not (has_task_flag f t) else has_task_flag f t) || set_all_flags f value ts
