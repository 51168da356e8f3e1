-- ===== src/TransactLog/Validator.antt =====
-- TransactLogValidator (Realm/ObjectStore/impl/transact_log_handler.cpp): accepts the instructions
-- that the object store supports, and throws for a change of a table that was there before.
pub mod NewTables
use realm_cocoa.Base.{
  ℕ, ◌+◌, ◌%◌, Bool, List, [], ◌∷◌, ◌++◌, map, leb, ◌==◌, if◌then◌else◌, incr, any,
}
use realm_cocoa.TransactLog.{
  Instr, insert_group_level_table, erase_group_level_table, rename_group_level_table,
  move_group_level_table, insert_column, insert_link_column, add_primary_key, set_link_type,
  erase_column, erase_link_column, rename_column, move_column, remove_primary_key,
  select_descriptor, select_table, Outcome, accepted, rejected, schema_error, parse,
}

pub record Validator : Type 0 where
  pub current_table : ℕ
  pub new_tables : List ℕ

abbrev pub initial : Validator
initial = record { current_table = 0; new_tables = [] }

-- std::find over m_new_tables
unfoldable pub is_new : Validator → ℕ → Bool
is_new v table = any (λ t. t == table) v.new_tables

schema_error_unless_new_table : Validator → Outcome Validator
unfolding is_new
schema_error_unless_new_table v = if is_new v v.current_table then accepted v else schema_error

shift_tables : ℕ → List ℕ → List ℕ
shift_tables table_ndx [] = []
shift_tables table_ndx (t ∷ ts) =
    (if leb table_ndx t then incr t else t) ∷ shift_tables table_ndx ts

unfoldable pub insert_table : Validator → ℕ → Validator
unfolding shift_tables
insert_table v table_ndx = record v {
  new_tables = shift_tables table_ndx v.new_tables ++ table_ndx ∷ [];
}

-- The handler of each instruction; those not listed return true and do nothing.
unfoldable pub validate : Validator → Instr → Outcome Validator
unfolding schema_error_unless_new_table insert_table
validate v (insert_group_level_table table_ndx) = accepted (insert_table v table_ndx)
validate v (insert_column col) = schema_error_unless_new_table v
validate v (insert_link_column col) = schema_error_unless_new_table v
validate v (add_primary_key col) = schema_error_unless_new_table v
validate v (set_link_type col) = schema_error_unless_new_table v
validate v (erase_group_level_table table_ndx) = schema_error
validate v (rename_group_level_table table_ndx) = schema_error
validate v (erase_column col) = schema_error
validate v (erase_link_column col) = schema_error
validate v (rename_column col) = schema_error
validate v remove_primary_key = schema_error
validate v (move_column from to) = schema_error
validate v (move_group_level_table from to) = schema_error
validate v (select_descriptor levels) = if levels == 0 then accepted v else rejected
validate v (select_table group_level_ndx) = accepted (record v { current_table = group_level_ndx })
validate v _ = accepted v

unfoldable pub validate_log : Validator → List Instr → Outcome Validator
unfolding parse validate
validate_log v log = parse validate v log
