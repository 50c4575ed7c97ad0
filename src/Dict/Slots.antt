-- ===== src/Dict/Slots.antt =====
-- Slots, and the operations of the dictionary in list mode: include/classes/DictSlot.mqh,
-- DictSlotsRef.h, DictIteratorBase.mqh, DictBase.mqh and DictObject.mqh.
use ea31337_fft.Prelude.{
  ℕ, zero, suc, ◌+◌, ◌-◌, ◌*◌, ◌/◌, ◌%◌, min, max, Bool, true, false, ◌&&◌, Option, none, some,
  List, [], ◌∷◌, leb, ◌==◌, if◌then◌else◌, length, get_elem?, set, replicate,
}

-- A slot; in list mode no slot has a key, and none is invalid.
pub record Slot {ℓ} (V : Type ℓ) : Type ℓ where
  pub is_used : Bool
  pub was_used : Bool
  pub value : V

pub record ListDict {ℓ} (V : Type ℓ) : Type ℓ where
  pub slots : List (Slot V)
  pub list_index : ℕ
  pub num_used : ℕ

module _ {ℓ} {V : Type ℓ} where
  unfoldable pub option_used : Option (Slot V) → Bool
  option_used none = false
  option_used (some s) = s.is_used

  -- `DictSlots[position].IsUsed()`
  unfoldable pub used_at : List (Slot V) → ℕ → Bool
  unfolding option_used
  used_at slots i = option_used (get_elem? slots i)

  -- `while (IsUsed(position)) position = (position + 1) % size;`, none where the fuel runs out.
  unfoldable pub probe : ℕ → List (Slot V) → ℕ → Option ℕ
  unfolding used_at
  probe zero slots position = none
  probe (suc fuel) slots position =
      let later = probe fuel slots ((position + 1) % length slots) in
      if used_at slots position then later else some position

  -- The value goes into the slot that the search has found.
  unfoldable pub put_at : V → ListDict V → Option ℕ → Option (ListDict V)
  put_at v d none = none
  put_at v d (some position) = some (record {
    slots = set d.slots position (record { is_used = true; was_used = true; value = v });
    list_index = d.list_index + 1;
    num_used = d.num_used + 1;
  })

  -- InsertInto of a value, when the array is not full. A search of as many rounds as there are slots
  -- has looked at all of them.
  unfoldable pub insert_value : V → ListDict V → Option (ListDict V)
  unfolding probe put_at
  insert_value v d = put_at v d (probe (length d.slots) d.slots (d.list_index % length d.slots))

  -- InsertInto after a step that may have failed.
  unfoldable pub insert_after : V → Option (ListDict V) → Option (ListDict V)
  unfolding insert_value
  insert_after v none = none
  insert_after v (some d) = insert_value v d

  -- The loop of Resize that copies the used slots.
  unfoldable pub copy_slots : List (Slot V) → Option (ListDict V) → Option (ListDict V)
  unfolding insert_after
  copy_slots [] copied = copied
  copy_slots (s ∷ ss) copied =
      copy_slots ss (if s.is_used then insert_after s.value copied else copied)

  -- `return true` with the dictionary of a step.
  unfoldable pub succeed : Option (ListDict V) → Option (Bool × ListDict V)
  succeed none = none
  succeed (some d) = some (true, d)

  -- Resize; `blank` is the value of a slot that was never used, and `array_resize` says whether the
  -- platform's ArrayResize to a size succeeds.
  unfoldable pub resize : (ℕ → Bool) → V → ℕ → ListDict V → Option (Bool × ListDict V)
  unfolding copy_slots succeed
  resize array_resize blank new_size d =
      let fresh : ListDict V = record {
        slots = replicate new_size (record { is_used = false; was_used = false; value = blank });
        list_index = 0;
        num_used = 0;
      } in
      if leb new_size (min d.num_used (length d.slots))
      then some (true, d)
      else if array_resize new_size
      then succeed (copy_slots d.slots (some fresh))
      else some (false, d)

  -- GrowUp by 25 percent; the factor 1.25 is exact, and so is the product below 2 ^ 22 slots.
  unfoldable pub grow_up : (ℕ → Bool) → V → ListDict V → Option (Bool × ListDict V)
  unfolding resize
  grow_up array_resize blank d = resize array_resize blank (max 10 (length d.slots * 5 / 4)) d

  -- InsertInto after GrowUp: where that fails, nothing is inserted.
  unfoldable pub insert_grown : V → Option (Bool × ListDict V) → Option (Bool × ListDict V)
  unfolding insert_value succeed
  insert_grown v none = none
  insert_grown v (some (false, d)) = some (false, d)
  insert_grown v (some (true, d)) = succeed (insert_value v d)

  -- Push, with its result
  unfoldable pub push : (ℕ → Bool) → V → V → ListDict V → Option (Bool × ListDict V)
  unfolding grow_up insert_value insert_grown succeed
  push array_resize blank v d =
      if d.num_used == length d.slots
      then insert_grown v (grow_up array_resize blank d)
      else succeed (insert_value v d)

  -- The dictionary beside a result that nobody looks at.
  unfoldable pub ignore_result : Option (Bool × ListDict V) → Option (ListDict V)
  ignore_result none = none
  ignore_result (some (r, d)) = some d

  -- Push as a statement, where memory suffices for every ArrayResize.
  unfoldable pub pushed : V → V → ListDict V → Option (ListDict V)
  unfolding push ignore_result
  pushed blank v d = ignore_result (push (λ n. true) blank v d)

  -- `RemoveFlags(DICT_SLOT_IS_USED)`
  unfoldable pub clear_used : Option (Slot V) → ℕ → List (Slot V) → List (Slot V)
  clear_used none i slots = slots
  clear_used (some s) i slots = set slots i (record s { is_used = false })

  unfoldable pub free_slot : ℕ → List (Slot V) → List (Slot V)
  unfolding clear_used
  free_slot i slots = clear_used (get_elem? slots i) i slots

  unfoldable pub copy_to : Option (Slot V) → ℕ → List (Slot V) → List (Slot V)
  copy_to none i slots = slots
  copy_to (some s) i slots = set slots i s

  -- FillHoleUnsorted
  unfoldable pub fill_hole : ℕ → ListDict V → ListDict V
  unfolding free_slot copy_to
  fill_hole hole d =
      let last = d.num_used - 1 in
      record d {
        slots =
            if hole == last
            then d.slots
            else free_slot last (copy_to (get_elem? d.slots last) hole d.slots);
        num_used = last;
      }

  -- Unset of the slot at an iterator's position. A slot that is not in use is left alone; one that is
  -- in use was used, so that the test of DICT_SLOT_WAS_USED before the removal does not end it.
  unfoldable pub unset : ℕ → ListDict V → ListDict V
  unfolding fill_hole used_at free_slot
  unset i d =
      if used_at d.slots i then fill_hole i (record d { slots = free_slot i d.slots }) else d

  -- The first slot in use from `start` on, of slots that stand from `here` on: Begin, and the
  -- search of an iterator's increment.
  unfoldable pub seek_from : List (Slot V) → ℕ → ℕ → Option ℕ
  seek_from [] here start = none
  seek_from (s ∷ ss) here start =
      let later = seek_from ss (here + 1) start in
      if s.is_used && leb start here then some here else later

  unfoldable pub seek : ℕ → ListDict V → Option ℕ
  unfolding seek_from
  seek start d = seek_from d.slots 0 start

  -- The constructor's dictionary.
  unfoldable pub empty_dict : ListDict V
  empty_dict = record { slots = []; list_index = 0; num_used = 0 }
