-- ===== src/EntryList.antt =====
-- source/list.c, include/list.h and include/list-private.h: the list of one row of the table.
-- A chain of nodes that is linked by `next` is the list of the entries that the nodes hold.
pub mod Assoc
pub mod Refines
pub mod Keys
pub mod Heap
use sd_projeto.Base.{
  ℕ, zero, suc, ◌+◌, ℤ, pos, pos_part, minus_one, ◌+ℤ◌, ◌-ℤ◌, ◌==ℤ◌, List, [], ◌∷◌, Option, none,
  some, Run, ok, fault, out_of_bounds, ◌>>=◌, ◌>>◌, deref, write, replicate, if◌then◌else◌,
}
use sd_projeto.CString.{CString, strcmp}
use sd_projeto.Entry.{
  Entry, entry_destroy, entry_compare, entry_cmp_error, entry_equal, entry_lesser,
}

-- `struct list_t`
pub record EntryList : Type 0 where
  pub size : ℤ
  pub head : List Entry

unfoldable pub list_create : EntryList
list_create = record { size = pos 0; head = [] }

unfoldable pub node_create : Entry → List Entry → List Entry
node_create entry next = entry ∷ next

unfoldable pub node_destroy : Option Entry → ℤ
node_destroy none = minus_one
node_destroy (some entry) = pos 0

destroy_loop : List Entry → ℤ → ℤ
destroy_loop [] result = result
destroy_loop (entry ∷ next) result = destroy_loop next result

-- What is returned; the nodes and the list are freed.
unfoldable pub list_destroy : Option EntryList → ℤ
unfolding destroy_loop
list_destroy none = minus_one
list_destroy (some l) = destroy_loop l.head (pos 0)

-- The `while` of `list_add`: what is returned, the new size, and the chain from `node` on, which
-- `previous_node` then points at.
pub add_loop : Entry → ℤ → List Entry → ℤ × ℤ × List Entry
add_loop entry size [] = (pos 0, size +ℤ pos 1, node_create entry [])
add_loop entry size (node ∷ next) =
    let cmp_ret = entry_compare (some entry) (some node) in
    let (ret, size', next') = add_loop entry size next in
    if cmp_ret ==ℤ entry_cmp_error
    then (minus_one, size, node ∷ next)
    else if cmp_ret ==ℤ entry_equal
    then (pos 1, size, entry ∷ next)
    else if cmp_ret ==ℤ entry_lesser
    then (pos 0, size +ℤ pos 1, node_create entry (node ∷ next))
    else (ret, size', node ∷ next')

-- The part before the loop, at the chain `head`.
add_head : Entry → ℤ → List Entry → ℤ × ℤ × List Entry
add_head entry size [] = (pos 0, size +ℤ pos 1, node_create entry [])
add_head entry size (node ∷ next) =
    let cmp_ret = entry_compare (some entry) (some node) in
    let (ret, size', next') = add_loop entry size next in
    if cmp_ret ==ℤ entry_cmp_error
    then (minus_one, size, node ∷ next)
    else if cmp_ret ==ℤ entry_equal
    then (pos 1, size, entry ∷ next)
    else if cmp_ret ==ℤ entry_lesser
    then (pos 0, size +ℤ pos 1, node_create entry (node ∷ next))
    else (ret, size', node ∷ next')

-- What is returned, and the list that `list` then points at.
unfoldable pub list_add : Option EntryList → Option Entry → ℤ × Option EntryList
unfolding add_head add_loop entry_compare node_create
list_add (some list) (some entry) =
    let (ret, size, head) = add_head entry list.size list.head in
    (ret, some (record { size = size; head = head }))
list_add list entry = (minus_one, list)

-- The unlinked node: what is returned, the new size, and the rest of the chain.
pub drop_node : ℤ → Entry → List Entry → ℤ × ℤ × List Entry
drop_node size old next =
    let ret = entry_destroy (some old) in
    if ret ==ℤ pos 0 then (ret, size -ℤ pos 1, next) else (minus_one, size, next)

pub remove_loop : CString → ℤ → List Entry → Run (ℤ × ℤ × List Entry)
remove_loop key size [] = ok (pos 1, size, [])
remove_loop key size (node ∷ next) = do
  node_key ← deref node.key
  if strcmp node_key key ==ℤ pos 0
      then ok (drop_node size node next)
      else do (ret, size', next') ← remove_loop key size next; ok (ret, size', node ∷ next')

-- The part before the loop, at the chain `head`.
remove_head : CString → ℤ → List Entry → Run (ℤ × ℤ × List Entry)
remove_head key size [] = ok (pos 1, size, [])
remove_head key size (node ∷ next) = do
  node_key ← deref node.key
  if strcmp node_key key ==ℤ pos 0
      then ok (drop_node size node next)
      else do (ret, size', next') ← remove_loop key size next; ok (ret, size', node ∷ next')

unfoldable pub list_remove : Option EntryList → Option CString → Run (ℤ × Option EntryList)
unfolding remove_head remove_loop drop_node entry_destroy
list_remove (some list) (some key) = do
  (ret, size, head) ← remove_head key list.size list.head
  ok (ret, some (record { size = size; head = head }))
list_remove list key = ok (minus_one, list)

get_loop : CString → List Entry → Run (Option Entry)
get_loop key [] = ok none
get_loop key (node ∷ next) = do
  node_key ← deref node.key
  if strcmp node_key key ==ℤ pos 0 then ok (some node) else get_loop key next

unfoldable pub list_get : Option EntryList → Option CString → Run (Option Entry)
unfolding get_loop
list_get (some list) (some key) = get_loop key list.head
list_get _ _ = ok none

size_loop : List Entry → ℤ → ℤ
size_loop [] count = count
size_loop (node ∷ next) count = size_loop next (count +ℤ pos 1)

unfoldable pub list_size : Option EntryList → ℤ
unfolding size_loop
list_size none = minus_one
list_size (some list) = size_loop list.head (pos 0)

-- An array of `char *`: each place holds NULL or a string.
abbrev pub KeyArray : Type 0
KeyArray = List (Option CString)

keys_loop : List Entry → ℕ → KeyArray → Run KeyArray
keys_loop [] i keys = write keys i none
keys_loop (node ∷ next) i keys = do
  key ← deref node.key
  keys' ← write keys i (some key)
  keys_loop next (i + 1) keys'

-- `calloc` fills the array with NULL.
collect_keys : ℤ → List Entry → Run (Option KeyArray)
collect_keys size [] = ok none
collect_keys size (node ∷ next) = do
  keys ← keys_loop (node ∷ next) 0 (replicate (pos_part (size +ℤ pos 1)) none)
  ok (some keys)

unfoldable pub list_get_keys : Option EntryList → Run (Option KeyArray)
unfolding collect_keys keys_loop write
list_get_keys none = ok none
list_get_keys (some list) = collect_keys list.size list.head

free_keys_loop : KeyArray → Run ℤ
free_keys_loop [] = fault out_of_bounds
free_keys_loop (none ∷ rest) = ok (pos 0)
free_keys_loop (some key ∷ rest) = free_keys_loop rest

-- The strings up to the first NULL are freed, and then the array.
unfoldable pub list_free_keys : Option KeyArray → Run ℤ
unfolding free_keys_loop
list_free_keys none = ok minus_one
list_free_keys (some keys) = free_keys_loop keys
