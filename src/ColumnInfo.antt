-- ===== src/ColumnInfo.antt =====
-- BindingContext::ColumnInfo (Realm/ObjectStore/binding_context.hpp), and what the handlers of
-- TransactLogObserver (Realm/ObjectStore/impl/transact_log_handler.cpp) do to the one that the
-- active link list has.
pub mod Removals
pub mod Insertions
pub mod Kinds
use realm_cocoa.Base.{ℕ, zero, suc, ◌+◌, ◌-◌, ◌%◌, Bool, true, false, [], ltb, if◌then◌else◌, word}
use realm_cocoa.IndexSet.Ranges.{IndexSet}
use realm_cocoa.IndexSet

-- enum class Kind; the source's names are None, Set, Insert, Remove and SetAll.
pub data Kind : Type 0 where
  none_kind set_kind insert_kind remove_kind set_all : Kind

pub record ColumnInfo : Type 0 where
  pub changed : Bool
  pub kind : Kind
  pub indices : IndexSet

-- The default member initialisers.
abbrev pub fresh : ColumnInfo
fresh = record { changed = false; kind = none_kind; indices = [] }

abbrev give_up : ColumnInfo → ColumnInfo
give_up o = record o { kind = set_all; indices = IndexSet.set 0 }

-- append_link_list_change, where the new change has kind Set, Insert or Remove. The kind that the
-- column has is the last argument.
append_to : Kind → ℕ → ColumnInfo → Kind → ColumnInfo
append_to kind index o set_all = o
append_to kind index o none_kind = record o {
  kind = kind;
  changed = true;
  indices = IndexSet.add o.indices index;
}
append_to remove_kind index o remove_kind = record o {
  indices = IndexSet.add_shifted o.indices index;
}
append_to insert_kind index o insert_kind = record o {
  indices = IndexSet.insert_at o.indices index;
}
append_to set_kind index o set_kind = record o { indices = IndexSet.add o.indices index }
append_to _ index o _ = give_up o

unfoldable pub append_link_list_change : Kind → ℕ → ColumnInfo → ColumnInfo
unfolding append_to
append_link_list_change kind index o = append_to kind index o o.kind

-- The size that link_list_clear takes the list to have had when the transaction began.
size_before : ColumnInfo → ℕ → Kind → ℕ
size_before o old_size remove_kind = (old_size + IndexSet.size o.indices) % word
size_before o old_size insert_kind = (old_size + word - IndexSet.size o.indices) % word
size_before o old_size _ = old_size

cleared : ColumnInfo → ℕ → Kind → ColumnInfo
unfolding size_before
cleared o old_size set_all = o
cleared o old_size kind = record {
  changed = true;
  kind = remove_kind;
  indices = IndexSet.set (size_before o old_size kind);
}

unfoldable pub link_list_clear : ℕ → ColumnInfo → ColumnInfo
unfolding cleared
link_list_clear old_size o = cleared o old_size o.kind

-- for (size_t i = from; i <= to; ++i) o->indices.add(i), by the rounds that are left
add_each : ℕ → ℕ → IndexSet → IndexSet
add_each zero i s = s
add_each (suc rounds) i s = add_each rounds (i + 1) (IndexSet.add s i)

moved : ℕ → ℕ → ColumnInfo → Kind → ColumnInfo
unfolding add_each
moved from to o set_all = o
moved from to o none_kind = record {
  changed = true;
  kind = set_kind;
  indices = add_each (to + 1 - from) from o.indices;
}
moved from to o set_kind = record o { indices = add_each (to + 1 - from) from o.indices }
moved from to o _ = give_up o

unfoldable pub link_list_move : ℕ → ℕ → ColumnInfo → ColumnInfo
unfolding moved
link_list_move from to o = if ltb to from then moved to from o o.kind else moved from to o o.kind

unfoldable pub link_list_swap : ℕ → ℕ → ColumnInfo → ColumnInfo
unfolding append_link_list_change
link_list_swap index1 index2 o =
    append_link_list_change set_kind index2 (append_link_list_change set_kind index1 o)
