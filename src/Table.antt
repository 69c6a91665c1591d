-- ===== src/Table.antt =====
-- source/table.c, include/table.h and include/table-private.h: the hash table of lists.
pub mod Hash
pub mod Rows
pub mod Methods
pub mod Contents
mod Arrays
pub mod Listing
pub mod Errors
pub mod Whole
use sd_projeto.Base.{
  ℕ, ◌+◌, ℤ, pos, pos_part, minus_one, ◌+ℤ◌, ◌==ℤ◌, leb_ℤ, List, Option, none, some, Bool, ◌&&◌,
  Run, ok, ◌>>=◌, ◌>>◌, deref, at, at_int, write, memcpy, set, replicate, Flow, go, return,
  for_range, if◌then◌else◌, fault, out_of_bounds, [], ◌∷◌,
}
use sd_projeto.CString.{CString}
use sd_projeto.Data.{Data, data_dup}
use sd_projeto.Entry.{Entry, entry_create}
use sd_projeto.EntryList.{
  EntryList, KeyArray, list_create, list_destroy, list_add, list_remove, list_get, list_size,
  list_get_keys, list_free_keys,
}
use Hash.{hash_code}

-- `struct table_t`; `lists` is the array of its rows.
pub record Table : Type 0 where
  pub lists : List (Option EntryList)
  pub size : ℤ

-- The counter of a loop is below `size`, so it runs over `pos_part size` values.
abbrev pub rounds : ℤ → ℕ
rounds = pos_part

pub create_row : ℕ → List (Option EntryList) → Run (Flow (List (Option EntryList)) (Unit {0}))
create_row i lists = do lists' ← write lists i (some list_create); ok (go lists')

pub created : ℤ → Flow (List (Option EntryList)) (Unit {0}) → Run (Option Table)
created n (go lists) = ok (some (record { lists = lists; size = n }))
created n (return u) = ok none

unfoldable pub table_create : ℤ → Run (Option Table)
table_create n =
    if leb_ℤ n (pos 0)
    then ok none
    else do lists ← for_range (rounds n) 0 create_row (replicate (rounds n) none); created n lists

-- `status || list_destroy(row)`, which is 0 or 1
destroy_row : Option EntryList → ℤ → Run (Flow ℤ ℤ)
destroy_row row status =
    let status' = if status ==ℤ pos 0 && list_destroy row ==ℤ pos 0 then pos 0 else pos 1 in
    if status' ==ℤ pos 0 then ok (go status') else ok (return status')

destroyed : Flow ℤ ℤ → Run ℤ
destroyed (go status) = ok (pos 0)
destroyed (return status) = ok status

-- What is returned; on success the rows and the table are freed.
unfoldable pub table_destroy : Option Table → Run ℤ
unfolding destroy_row destroyed
table_destroy none = ok minus_one
table_destroy (some table) = do
  status ←
      for_range (rounds table.size) 0 (λ i s. at table.lists i >>= λ row. destroy_row row s) (pos 0)
  destroyed status

-- The list at `index` is changed through its pointer.
abbrev with_row : Table → ℤ → Option EntryList → Option Table
with_row table index row = some (record table { lists = set table.lists (pos_part index) row })

unfoldable pub table_put : Option Table → Option CString → Option Data → Run (ℤ × Option Table)
table_put (some table) (some key) (some value) = do
  index ← hash_code key table.size
  dup_value ← data_dup (some value)
  let entry = entry_create (some key) dup_value
  row ← at_int table.lists index
  let (result, row') = list_add row entry
  ok ((if result ==ℤ pos 1 then pos 0 else result), with_row table index row')
table_put table _ _ = ok (minus_one, table)

found_value : Option Entry → Run (Option Data)
found_value none = ok none
found_value (some entry) = data_dup entry.value

unfoldable pub table_get : Option Table → Option CString → Run (Option Data)
unfolding found_value
table_get (some table) (some key) = do
  index ← hash_code key table.size
  row ← at_int table.lists index
  entry ← list_get row (some key)
  found_value entry
table_get _ _ = ok none

unfoldable pub table_remove : Option Table → Option CString → Run (ℤ × Option Table)
table_remove (some table) (some key) = do
  index ← hash_code key table.size
  row ← at_int table.lists index
  (result, row') ← list_remove row (some key)
  ok (result, with_row table index row')
table_remove table _ = ok (minus_one, table)

count_row : Option EntryList → ℤ → Run (Flow ℤ ℤ)
count_row row entry_count =
    let result = list_size row in
    if result ==ℤ minus_one then ok (return result) else ok (go (entry_count +ℤ result))

counted : Flow ℤ ℤ → Run ℤ
counted (go entry_count) = ok entry_count
counted (return result) = ok result

-- The field `size` is read before the test of the pointer.
unfoldable pub table_size : Option Table → Run ℤ
unfolding count_row counted
table_size table = do
  t ← deref table
  if t.size ==ℤ pos 0 then ok minus_one else do
    count ← for_range (rounds t.size) 0 (λ i s. at t.lists i >>= λ row. count_row row s) (pos 0)
    counted count

-- The array that is filled, and `write_index`.
abbrev pub Filling : Type 0 → Type 0
Filling A = List (Option A) × ℕ

copy_place : Option CString → Filling CString → Run (Flow (Filling CString) (Unit {0}))
copy_place place (key_arr, write_index) = do
  key ← deref place
  key_arr' ← write key_arr write_index (some key)
  ok (go (key_arr', write_index + 1))

copy_key : KeyArray → ℕ → Filling CString → Run (Flow (Filling CString) (Unit {0}))
copy_key list_keys j s = do place ← at list_keys j; copy_place place s

copy_keys :
    Option EntryList → Option KeyArray → Filling CString → Run (Flow (Filling CString) (Unit {0}))
copy_keys row none s = ok (go s)
copy_keys row (some list_keys) s = do
  s' ← for_range (pos_part (list_size row)) 0 (copy_key list_keys) s
  list_free_keys (some list_keys)
  ok s'

row_keys : Option EntryList → Filling CString → Run (Flow (Filling CString) (Unit {0}))
row_keys row s = do list_keys ← list_get_keys row; copy_keys row list_keys s

filled {ℓ} :
    {A : Type ℓ} {R : Type ℓ} → Flow (List (Option A) × ℕ) R → Run (Option (List (Option A)))
filled (go (arr, write_index)) = ok (some arr)
filled (return u) = ok none

unfoldable pub table_get_keys : Option Table → Run (Option KeyArray)
unfolding row_keys copy_keys copy_key copy_place filled
table_get_keys none = ok none
table_get_keys (some table) = do
  size ← table_size (some table)
  keys ←
      for_range (rounds table.size) 0 (λ i s. at table.lists i >>= λ row. row_keys row s)
        (replicate (pos_part (size +ℤ pos 1)) none, 0)
  filled keys

abbrev pub EntryArray : Type 0
EntryArray = List (Option Entry)

copy_entry : Entry → Run Entry
copy_entry entry = do
  key ← deref entry.key
  value ← deref entry.value
  content ← deref value.content
  copy ← memcpy content (pos_part value.datasize)
  ok (record {
    key = some key;
    value = some (record { datasize = value.datasize; content = some copy });
  })

copy_nodes : List Entry → Filling Entry → Run (Filling Entry)
copy_nodes [] s = ok s
copy_nodes (node ∷ next) (arr, c) = do
  entry ← copy_entry node
  arr' ← write arr c (some entry)
  copy_nodes next (arr', c + 1)

row_entries : Option EntryList → Filling Entry → Run (Flow (Filling Entry) (Unit {0}))
row_entries none s = ok (return tt)
row_entries (some list) s = do s' ← copy_nodes list.head s; ok (go s')

unfoldable pub table_get_entries : Option Table → Run (Option EntryArray)
unfolding row_entries copy_nodes copy_entry filled
table_get_entries none = ok none
table_get_entries (some table) = do
  size ← table_size (some table)
  entries ←
      for_range (rounds table.size) 0 (λ i s. at table.lists i >>= λ row. row_entries row s)
        (replicate (pos_part (size +ℤ pos 1)) none, 0)
  filled entries

free_loop : KeyArray → Run ℤ
free_loop [] = fault out_of_bounds
free_loop (none ∷ rest) = ok (pos 0)
free_loop (some key ∷ rest) = free_loop rest

unfoldable pub table_free_keys : Option KeyArray → Run ℤ
unfolding free_loop
table_free_keys none = ok minus_one
table_free_keys (some keys) = free_loop keys
