-- ===== src/Examples/Tasks.antt =====
-- Tasks: src/include/classes/Task.struct.h and Task.mqh.
use ea31337_fft.Prelude.{ℕ, ◌≡◌, refl, true, false, not, ◌||◌, ◌==◌, none, [], ◌+◌}
use ea31337_fft.Bits.Flags.{has_any}
use ea31337_fft.Task.Entry.{
  action_done, TaskEntry, cond_and, new_task, task_active, task_done, task_failed, task_valid,
  has_task_flag, task_is_invalid, wrong_id,
}
use ea31337_fft.Task.Entry.Laws.{new_task_lem}
use ea31337_fft.Task.Process.{TaskWorld, answered}
use ea31337_fft.Task.Process.Laws.{processed_times, processed_times-active}

-- Memory that held other numbers.
abbrev raw : TaskEntry ℕ
raw = record {
  action = record {
    flags = 77;
    last_success = 77;
    frequency = 77;
    action_id = 77;
    tries = 77;
    obj = none;
    type = 77;
    args = [];
  };
  cond = record {
    flags = 77;
    last_check = 77;
    last_success = 77;
    frequency = 77;
    cond_id = 77;
    tries = 77;
    obj = none;
    next_statement = cond_and;
    type = 77;
    args = [];
  };
  expires = 77;
  last_process = 77;
  last_success = 77;
  flags = 77;
}

-- An action without an identifier.
new_task_lem_example :
    let t = new_task raw wrong_id 2 1 3 in
    let invalid = wrong_id == wrong_id || 1 == wrong_id in
    (task_active t ≡ not invalid)
    × (has_task_flag task_is_invalid t ≡ invalid)
    × (task_done t ≡ false)
    × (task_failed t ≡ false)
    × (task_valid t ≡ true)
new_task_lem_example = new_task_lem raw wrong_id 2 1 3

-- A world in which every condition is met and every action fails, and which counts the tries.
abbrev failing : TaskWorld ℕ ℕ
failing = record {
  check = λ c w. (answered true, w);
  execute = λ a w. (answered false, w + 1);
  time_current = λ w. w;
}

processed_times-active_example :
    (task_active (processed_times failing 5 (record raw { flags = 1 }) 0) ≡ true)
    × ((processed_times failing 5 (record raw { flags = 1 }) 0).action ≡ raw.action)
unfolding task_active has_any action_done
processed_times-active_example =
    processed_times-active failing (λ a w. refl) 5 (record raw { flags = 1 }) 0 refl refl
