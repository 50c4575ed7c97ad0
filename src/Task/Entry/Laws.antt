-- ===== src/Task/Entry/Laws.antt =====
-- What a new task entry says of itself.
use ea31337_fft.Prelude.{
  ℕ, ◌≡◌, refl, arith, Bool, true, false, not, ◌||◌, ◌==◌, Bool-cases, inl, inr, ◌&&◌, ap, ◌∙◌,
}
use ea31337_fft.Bits.Flags.{has_any, set_flag, add_flags, remove_flags}
use ea31337_fft.Bits.Digits.{bit_not}
use ea31337_fft.Task.Entry.{
  ActionEntry, ConditionEntry, task_is_active, action_is_active, action_is_done, action_is_failed,
  action_is_invalid, TaskEntry, new_task, init_task, new_action, init_action, new_condition,
  init_condition, set_task_flag, has_task_flag, action_active, action_invalid, cond_active,
  cond_invalid, task_active, task_done, task_failed, task_valid, task_is_invalid, wrong_id,
}

-- The flag words that Init makes, read by each test.
abbrev init_flags : Bool → Bool → ℕ
init_flags active invalid = set_flag (set_flag 0 task_is_active active) task_is_invalid invalid

init_flags_lem :
    (active invalid : Bool)
    → (has_any (init_flags active invalid) action_is_active ≡ active)
      × (has_any (init_flags active invalid) task_is_invalid ≡ invalid)
      × (has_any (init_flags active invalid) action_is_done ≡ false)
      × (has_any (init_flags active invalid) action_is_failed ≡ false)
      × (not (has_any (init_flags active invalid) action_is_invalid) ≡ true)
unfolding has_any set_flag add_flags remove_flags bit_not
init_flags_lem true true = (refl, refl, refl, refl, refl)
init_flags_lem true false = (refl, refl, refl, refl, refl)
init_flags_lem false true = (refl, refl, refl, refl, refl)
init_flags_lem false false = (refl, refl, refl, refl, refl)

module _ {D : Type 0} where
  new_action_lem :
      (raw : ActionEntry D) (id type : ℕ)
      → (action_active (new_action raw id type) ≡ not (id == wrong_id))
        × (action_invalid (new_action raw id type) ≡ (id == wrong_id))
  unfolding new_action init_action action_active action_invalid has_any set_flag add_flags
      remove_flags bit_not
  new_action_lem raw id type = elim (Bool-cases (id == wrong_id)) [
    | inl wrong ↦ rw wrong (refl, refl)
    | inr right ↦ rw right (refl, refl)
  ]

  new_condition_lem :
      (raw : ConditionEntry D) (id type : ℕ)
      → (cond_active (new_condition raw id type) ≡ not (id == wrong_id))
        × (cond_invalid (new_condition raw id type) ≡ (id == wrong_id))
  unfolding new_condition init_condition cond_active cond_invalid has_any set_flag add_flags
      remove_flags bit_not
  new_condition_lem raw id type = elim (Bool-cases (id == wrong_id)) [
    | inl wrong ↦ rw wrong (refl, refl)
    | inr right ↦ rw right (refl, refl)
  ]

  init_task-flags :
      (t : TaskEntry D) (active invalid : Bool)
      → (action_active t.action && cond_active t.cond) ≡ active
      → (action_invalid t.action || cond_invalid t.cond) ≡ invalid
      → (init_task t).flags ≡ init_flags active invalid
  unfolding init_task set_task_flag
  init_task-flags t active invalid h k =
      ap (λ a. init_flags a (action_invalid t.action || cond_invalid t.cond)) h
      ∙ ap (init_flags active) k

  -- A new task entry is active exactly when both its action and its condition have an identifier; else
  -- it has the flag of an invalid task. It is neither done nor failed, and IsValid is true of it in any
  -- case.
  pub new_task_lem :
      (raw : TaskEntry D) (aid atype cid ctype : ℕ)
      → let t = new_task raw aid atype cid ctype in
        let invalid = aid == wrong_id || cid == wrong_id in
        (task_active t ≡ not invalid)
        × (has_task_flag task_is_invalid t ≡ invalid)
        × (task_done t ≡ false)
        × (task_failed t ≡ false)
        × (task_valid t ≡ true)
  unfolding new_task has_task_flag task_active task_done task_failed task_valid
  new_task_lem raw aid atype cid ctype =
      let invalid = aid == wrong_id || cid == wrong_id in
      let (a, b) = new_action_lem raw.action aid atype in
      let (c, d) = new_condition_lem raw.cond cid ctype in
      let t = record raw {
        action = new_action raw.action aid atype;
        cond = new_condition raw.cond cid ctype;
      } in
      let active : (action_active t.action && cond_active t.cond) ≡ not invalid =
        ground (arith, a, c) in
      let wrong : (action_invalid t.action || cond_invalid t.cond) ≡ invalid = rw (b, d) refl in
      rw (init_task-flags t (not invalid) invalid active wrong)
        (init_flags_lem (not invalid) invalid)
