-- ===== src/Tests/Tables.antt =====
-- Examples for the table.
use mathlib.Core.Option
use sd_projeto.Base.{
  ℕ, ◌<◌, ◌≡◌, pos, minus_one, [], ◌∷◌, none, some, is_some, ok, arith, length, if◌then◌else◌,
}
use sd_projeto.Data.{Data}
use sd_projeto.Data.Copies.{data_of}
use sd_projeto.EntryList.Assoc.{Assoc}
use sd_projeto.EntryList.Keys.{keys_of, array_of}
use sd_projeto.Table.{
  Table, table_put, table_get, table_remove, table_size, table_get_keys, table_get_entries,
}
use sd_projeto.Table.Hash.{hash_code, hash_code-lt}
use sd_projeto.Table.Methods.{
  Models, update, table_put-update, table_remove-update, table_get-Models,
}
use sd_projeto.Table.Whole.{Graph, entries_of, table_lists_map}
use sd_projeto.Tests.{key_a, key_b, key_c, key_d, stored_table, stored_map, stored-Models}

table_put-update_example :
    (t : Table) × (table_put (some stored_table) (some key_b) (some (data_of (9 ∷ [])))
      ≡ ok (pos 0, some t))
    × Models (update stored_map key_b (some (9 ∷ []))) t
table_put-update_example = table_put-update stored-Models key_b (9 ∷ []) (omega arith)

table_remove-update_example :
    (t : Table) × (table_remove (some stored_table) (some key_a)
      ≡ ok ((if is_some (stored_map key_a) then pos 0 else pos 1), some t))
    × Models (update stored_map key_a none) t
table_remove-update_example = table_remove-update stored-Models key_a

table_get-Models_example :
    table_get (some stored_table) (some key_c) ≡ ok (Option.map data_of (stored_map key_c))
table_get-Models_example = table_get-Models stored-Models key_c

table_lists_map_example :
    (m : Assoc) × Graph stored_map m
    × (table_size (some stored_table) ≡ ok (pos (length m)))
    × (table_get_keys (some stored_table) ≡ ok (some (array_of (keys_of m))))
    × (table_get_entries (some stored_table) ≡ ok (some (entries_of m)))
table_lists_map_example = table_lists_map stored-Models

hash_code-lt_example : (i : ℕ) × (hash_code key_d (pos 5) ≡ ok (pos i)) × (i < 5)
hash_code-lt_example = hash_code-lt key_d 5 (omega arith) (omega arith)

abbrev nothing_to_copy : Data
nothing_to_copy = record { datasize = minus_one; content = some (4 ∷ []) }
