-- ===== src/Task/Process/Laws.antt =====
-- A task whose action fails is tried for ever.
use ea31337_fft.Prelude.{
  ℕ, zero, suc, ◌^◌, ◌≡◌, ◌∙◌, ap, refl, arith, true, false, Bool-cases, inl, inr, ltb, ◌&&◌,
}
use ea31337_fft.Bits.Flags.{has_any, set_flag, add_flags, remove_flags}
use ea31337_fft.Bits.OneFlag.{has_any-set_two_pow}
use ea31337_fft.Task.Entry.{ActionEntry, TaskEntry, action_done, task_active, has_task_flag}
use ea31337_fft.Task.Process.{
  TaskWorld, answered, failed_try, executed, execute_action, mark, process_entry, less_tries,
  test_condition,
}

-- The last try leaves the flag of an action that is done.
invalidated :
    (f : ℕ) → has_any (remove_flags (add_flags f (2 ^ 3)) (2 ^ 0)) (2 ^ 1) ≡ has_any f (2 ^ 1)
unfolding set_flag
invalidated f =
    has_any-set_two_pow (add_flags f (2 ^ 3)) 0 1 false (omega arith) (omega arith)
    ∙ has_any-set_two_pow f 3 1 true (omega arith) (omega arith)

module _ {D W : Type 0} (p : TaskWorld D W) where
  failed_try-done : (a : ActionEntry D) → action_done (failed_try p a) ≡ action_done a
  unfolding failed_try action_done
  failed_try-done a =
      elim (Bool-cases (ltb 0 (less_tries a.tries) && ltb (less_tries a.tries) (2 ^ 15))) [
        | inl left ↦ rw (left, failed_try) refl
        | inr last ↦ rw (last, failed_try) (invalidated a.flags)
      ]

module _ {D W : Type 0} (p : TaskWorld D W) where
  -- So many calls of Process
  abbrev pub processed_times : ℕ → TaskEntry D → W → TaskEntry D
  processed_times zero t w = t
  processed_times (suc n) t w = let (_, t1, w1) = process_entry p t w in processed_times n t1 w1

module _ {D W : Type 0} (p : TaskWorld D W)
    (fails : (a : ActionEntry D) (w : W) → (p.execute a w).0 ≡ answered false) where
  execute_action-done :
      (a : ActionEntry D) (w : W) → action_done (execute_action p a w).0 ≡ action_done a
  unfolding execute_action executed
  execute_action-done a w =
      ap (λ r. action_done (executed p r (p.execute a w).1 a)) (fails a w) ∙ failed_try-done p a

  -- An entry that is active with an action that is not done keeps both.
  process_entry-kept :
      (t : TaskEntry D) (w : W)
      → task_active t ≡ true
      → action_done t.action ≡ false
      → (task_active (process_entry p t w).1 ≡ true) × ((process_entry p t w).1.action ≡ t.action)
  unfolding process_entry mark task_active has_task_flag
  process_entry-kept t w active undone =
      let (met, c, w1) = test_condition p t.cond w in
      let still : action_done (execute_action p t.action w1).0 ≡ false =
        execute_action-done t.action w1 ∙ undone in
      elim (Bool-cases met) [
        | inl holds ↦ rw (active, holds, still) (active, refl)
        | inr fails_it ↦ rw (active, fails_it) (active, refl)
      ]

  -- In a world where every action fails, an entry that is active, with an action that is not done, is
  -- active still after any number of calls of Process, and has the same action with the same number of
  -- tries.
  pub processed_times-active :
      (n : ℕ) (t : TaskEntry D) (w : W)
      → task_active t ≡ true
      → action_done t.action ≡ false
      → (task_active (processed_times p n t w) ≡ true)
        × ((processed_times p n t w).action ≡ t.action)
  processed_times-active zero t w active undone = (active, refl)
  processed_times-active (suc n) t w active undone =
      let (active1, same) = process_entry-kept t w active undone in
      let (active2, same2) =
        processed_times-active n (process_entry p t w).1 (process_entry p t w).2 active1
          (ap action_done same ∙ undone) in
      (active2, same2 ∙ same)
