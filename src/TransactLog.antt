-- ===== src/TransactLog.antt =====
-- Realm/ObjectStore/impl/transact_log_handler.cpp: the instructions of a transaction log, as the
-- log parser hands them to the handlers. Values that no handler reads are left out.
pub mod Validator
pub mod Observer
pub mod Advance
use realm_cocoa.Base.{ℕ, Bool, List, [], ◌∷◌, ◌≡◌, refl}

-- The setters of a single field.
pub data Setter : Type 0 where
  set_int set_bool set_float set_double set_string set_binary set_date_time : Setter
  set_table set_mixed set_link set_null nullify_link : Setter
  set_int_unique set_string_unique insert_substring erase_substring : Setter

pub data Instr : Type 0 where
  insert_group_level_table erase_group_level_table rename_group_level_table : ℕ → Instr
  move_group_level_table : ℕ → ℕ → Instr
  insert_column insert_link_column add_primary_key set_link_type : ℕ → Instr
  erase_column erase_link_column rename_column : ℕ → Instr
  move_column : ℕ → ℕ → Instr
  remove_primary_key : Instr
  add_search_index remove_search_index : ℕ → Instr
  select_descriptor select_table : ℕ → Instr
  -- the column and the row of the list
  select_link_list : ℕ → ℕ → Instr
  insert_empty_rows : Instr
  -- row_ndx, last_row_ndx, unordered
  erase_rows : ℕ → ℕ → Bool → Instr
  swap_rows : ℕ → ℕ → Instr
  clear_table optimize_table : Instr
  -- the column and the row of the field
  write : Setter → ℕ → ℕ → Instr
  link_list_set link_list_insert link_list_erase link_list_nullify link_list_clear : ℕ → Instr
  link_list_move link_list_swap : ℕ → ℕ → Instr
  change_link_targets : ℕ → ℕ → Instr

-- A handler accepts an instruction, returns false, or throws for a change of the schema. A use of a
-- dangling pointer has no defined outcome.
pub data Outcome {ℓ} (A : Type ℓ) : Type ℓ where
  accepted : A → Outcome A
  rejected schema_error undefined : Outcome A

infixl 5 ◌>>=◌
abbrev pub ◌>>=◌ {ℓ κ} : {A : Type ℓ} {B : Type κ} → Outcome A → (A → Outcome B) → Outcome B
accepted a >>= f = f a
rejected >>= f = rejected
schema_error >>= f = schema_error
undefined >>= f = undefined

-- The parser's loop: each instruction in turn, up to the first that is not accepted.
unfoldable pub parse {ℓ} : {S : Type ℓ} → (S → Instr → Outcome S) → S → List Instr → Outcome S
parse step s [] = accepted s
parse step s (i ∷ is) = do s' ← step s i; parse step s' is

pub >>=-eq-accepted {ℓ κ} :
    {A : Type ℓ} {B : Type κ} (m : Outcome A) (f : A → Outcome B) {b : B}
    → (m >>= f) ≡ accepted b
    → (a : A) × (m ≡ accepted a) × (f a ≡ accepted b)
>>=-eq-accepted (accepted a) f h = (a, refl, h)
>>=-eq-accepted rejected f h = cc
>>=-eq-accepted schema_error f h = cc
>>=-eq-accepted undefined f h = cc
