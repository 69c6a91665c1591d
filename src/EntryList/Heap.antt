-- ===== src/EntryList/Heap.antt =====
-- source/list.c once more, with its nodes on a heap and the pointers that link them. `struct list_t`
-- is a value, and so is the entry of a node. `calloc` gives the address `fresh`; each loop is given a
-- number of rounds.
pub mod Cells
pub mod Chain
pub mod AddLoop
pub mod Adding
pub mod RemoveLoop
pub mod Removing
pub mod Reading
use sd_projeto.Base.{
  ℕ, zero, suc, ℤ, pos, minus_one, ◌+ℤ◌, ◌-ℤ◌, ◌==ℤ◌, ◌==◌, Option, none, some, Run, ok, fault,
  null_pointer, dangling, endless, ◌>>=◌, deref, if◌then◌else◌,
}
use sd_projeto.CString.{CString, strcmp}
use sd_projeto.Entry.{
  Entry, entry_destroy, entry_compare, entry_cmp_error, entry_equal, entry_lesser,
}

-- `struct node_t`; NULL is none.
pub record Node : Type 0 where
  pub entry : Entry
  pub next : Option ℕ

abbrev pub node_with : Entry → Option ℕ → Node
node_with entry next = record { entry = entry; next = next }

-- The node at each address, if there is one.
abbrev pub Heap : Type 0
Heap = ℕ → Option Node

unfoldable pub put_node : Heap → ℕ → Option Node → Heap
put_node h p cell a = if a == p then cell else h a

node_there : Option Node → Run Node
node_there none = fault dangling
node_there (some node) = ok node

-- `*p`
pub load : Heap → Option ℕ → Run Node
load h none = fault null_pointer
load h (some p) = node_there (h p)

store : Heap → Option ℕ → Option Node → Run Heap
store h none cell = fault null_pointer
store h (some p) cell = ok (put_node h p cell)

-- `p->next = next`
pub set_next : Heap → Option ℕ → Option ℕ → Run Heap
set_next h p next = do node ← load h p; store h p (some (node_with node.entry next))

-- `p->entry = entry`
pub set_entry : Heap → Option ℕ → Entry → Run Heap
set_entry h p entry = do node ← load h p; store h p (some (node_with entry node.next))

-- `free(p)`
pub free_node : Heap → Option ℕ → Run Heap
free_node h p = do node ← load h p; store h p none

-- `struct list_t`
pub record HeapList : Type 0 where
  pub size : ℤ
  pub head : Option ℕ

pub heap_create : HeapList
heap_create = record { size = pos 0; head = none }

with_head : Option ℕ → Run (ℤ × (ℤ × Heap)) → Run (ℤ × (HeapList × Heap))
with_head head run = run >>= λ r. ok (r.0, (record { size = r.1.0; head = head }, r.1.1))

module _ (fresh : ℕ) where
  pub heap_node_create : Heap → Entry → Option ℕ → Heap
  heap_node_create h entry next = put_node h fresh (some (node_with entry next))

  -- A new node behind `previous_node`.
  link_behind : Heap → Entry → ℤ → (previous_node node : Option ℕ) → Run (ℤ × (ℤ × Heap))
  link_behind h entry size previous_node node = do
    h' ← set_next (heap_node_create h entry node) previous_node (some fresh)
    ok (pos 0, (size +ℤ pos 1, h'))

  -- What is returned, the new size and the heap.
  pub heap_add_loop :
      (rounds : ℕ) → Entry → ℤ → (previous_node node : Option ℕ) → Heap → Run (ℤ × (ℤ × Heap))
  heap_add_loop zero entry size previous_node _ h = fault endless
  heap_add_loop (suc rounds) entry size previous_node none h =
      link_behind h entry size previous_node none
  heap_add_loop (suc rounds) entry size previous_node (some p) h = load h (some p) >>= λ node.
      let cmp_ret = entry_compare (some entry) (some node.entry) in
      let rest = heap_add_loop rounds entry size (some p) node.next h in
      if cmp_ret ==ℤ entry_cmp_error
      then ok (minus_one, (size, h))
      else if cmp_ret ==ℤ entry_equal
      then (set_entry h (some p) entry >>= λ h'. ok (pos 1, (size, h')))
      else if cmp_ret ==ℤ entry_lesser
      then link_behind h entry size previous_node (some p)
      else rest

  heap_add_head : (rounds : ℕ) → Entry → ℤ → Option ℕ → Heap → Run (ℤ × (HeapList × Heap))
  heap_add_head rounds entry size none h =
      ok
        (pos 0, (record { size = size +ℤ pos 1; head = some fresh }, heap_node_create h entry none))
  heap_add_head rounds entry size (some p) h = load h (some p) >>= λ node.
      let cmp_ret = entry_compare (some entry) (some node.entry) in
      if cmp_ret ==ℤ entry_cmp_error
      then ok (minus_one, (record { size = size; head = some p }, h))
      else if cmp_ret ==ℤ entry_equal
      then with_head (some p) (set_entry h (some p) entry >>= λ h'. ok (pos 1, (size, h')))
      else if cmp_ret ==ℤ entry_lesser
      then ok (
        pos 0,
        (record { size = size +ℤ pos 1; head = some fresh }, heap_node_create h entry (some p)),
      )
      else with_head (some p) (heap_add_loop rounds entry size (some p) node.next h)

  pub heap_add :
      (rounds : ℕ) → Option HeapList → Option Entry → Heap → Run (ℤ × (Option HeapList × Heap))
  heap_add rounds (some list) (some entry) h = do
    (ret, (list', h')) ← heap_add_head rounds entry list.size list.head h
    ok (ret, (some list', h'))
  heap_add rounds list entry h = ok (minus_one, (list, h))

-- The node `old_node` has been taken out of the chain.
pub heap_drop : Heap → Option ℕ → Entry → ℤ → Run (ℤ × (ℤ × Heap))
heap_drop h old_node entry size =
    let ret = entry_destroy (some entry) in
    if ret ==ℤ pos 0
    then (free_node h old_node >>= λ h'. ok (ret, (size -ℤ pos 1, h')))
    else ok (minus_one, (size, h))

pub heap_remove_loop :
    (rounds : ℕ) → CString → ℤ → (previous_node node : Option ℕ) → Heap → Run (ℤ × (ℤ × Heap))
heap_remove_loop zero key size previous_node _ h = fault endless
heap_remove_loop (suc rounds) key size previous_node none h = ok (pos 1, (size, h))
heap_remove_loop (suc rounds) key size previous_node (some p) h = load h (some p) >>= λ node.
    deref node.entry.key >>= λ node_key.
    let rest = heap_remove_loop rounds key size (some p) node.next h in
    if strcmp node_key key ==ℤ pos 0
    then (set_next h previous_node node.next >>= λ h'. heap_drop h' (some p) node.entry size)
    else rest

heap_remove_head : (rounds : ℕ) → CString → ℤ → Option ℕ → Heap → Run (ℤ × (HeapList × Heap))
heap_remove_head rounds key size none h = ok (pos 1, (record { size = size; head = none }, h))
heap_remove_head rounds key size (some p) h = load h (some p) >>= λ node.
    deref node.entry.key >>= λ node_key.
    if strcmp node_key key ==ℤ pos 0
    then with_head node.next (heap_drop h (some p) node.entry size)
    else with_head (some p) (heap_remove_loop rounds key size (some p) node.next h)

pub heap_remove :
    (rounds : ℕ) → Option HeapList → Option CString → Heap → Run (ℤ × (Option HeapList × Heap))
heap_remove rounds (some list) (some key) h = do
  (ret, (list', h')) ← heap_remove_head rounds key list.size list.head h
  ok (ret, (some list', h'))
heap_remove rounds list key h = ok (minus_one, (list, h))

heap_destroy_loop : (rounds : ℕ) → Option ℕ → Heap → Run Heap
heap_destroy_loop zero _ h = fault endless
heap_destroy_loop (suc rounds) none h = ok h
heap_destroy_loop (suc rounds) (some p) h =
    load h (some p) >>= λ node. free_node h (some p) >>= λ h'. heap_destroy_loop rounds node.next h'

pub heap_destroy : (rounds : ℕ) → Option HeapList → Heap → Run (ℤ × Heap)
heap_destroy rounds none h = ok (minus_one, h)
heap_destroy rounds (some list) h = heap_destroy_loop rounds list.head h >>= λ h'. ok (pos 0, h')

heap_get_loop : (rounds : ℕ) → CString → Option ℕ → Heap → Run (Option Entry)
heap_get_loop zero key _ h = fault endless
heap_get_loop (suc rounds) key none h = ok none
heap_get_loop (suc rounds) key (some p) h = load h (some p) >>= λ node.
    deref node.entry.key >>= λ node_key.
    let rest = heap_get_loop rounds key node.next h in
    if strcmp node_key key ==ℤ pos 0 then ok (some node.entry) else rest

pub heap_get : (rounds : ℕ) → Option HeapList → Option CString → Heap → Run (Option Entry)
heap_get rounds (some list) (some key) h = heap_get_loop rounds key list.head h
heap_get rounds _ _ h = ok none
