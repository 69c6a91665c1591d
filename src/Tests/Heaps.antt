-- ===== src/Tests/Heaps.antt =====
-- Examples for a list on the heap: the nodes of "a" and "c" stand at the addresses 10 and 12.
use sd_projeto.Base.{◌≡◌, refl, ℤ, pos, [], ◌∷◌, none, some, ok, ◌==◌, arith, if◌then◌else◌}
use sd_projeto.Entry.{Entry}
use sd_projeto.Entry.Order.{entry_of}
use sd_projeto.EntryList.{EntryList, list_add, list_remove}
use sd_projeto.EntryList.Heap.{node_with, Heap, HeapList, heap_add, heap_remove, heap_destroy}
use sd_projeto.EntryList.Heap.Chain.{Nodes, entries, Chain, ends, links}
use sd_projeto.EntryList.Heap.Adding.{AddedTo, heap_add-list_add}
use sd_projeto.EntryList.Heap.Removing.{RemovesAs, heap_remove-list_remove}
use sd_projeto.EntryList.Heap.Reading.{Freed, heap_destroy-Freed}
use sd_projeto.Tests.{key_a, key_b, key_c}

abbrev entry_a : Entry
entry_a = entry_of (key_a, 1 ∷ 2 ∷ [])

abbrev entry_b : Entry
entry_b = entry_of (key_b, 7 ∷ [])

abbrev entry_c : Entry
entry_c = entry_of (key_c, 3 ∷ [])

abbrev heap : Heap
heap a =
    if a == 10
    then some (node_with entry_a (some 12))
    else if a == 12
    then some (node_with entry_c none)
    else none

abbrev nodes : Nodes
nodes = (10, entry_a) ∷ (12, entry_c) ∷ []

abbrev list : HeapList
list = record { size = pos 2; head = some 10 }

two-Chain : Chain heap list.head nodes
two-Chain = links refl refl (links refl refl ends)

-- The new node stands at 7.
heap_add-list_add_example :
    (l : EntryList) × (list' : HeapList) × (h' : Heap) × (ret : ℤ) × (list_add
        (some (record { size = pos 2; head = entries nodes }))
        (some entry_b)
      ≡ (ret, some l))
    × (heap_add 7 3 (some list) (some entry_b) heap ≡ ok (ret, (some list', h')))
    × AddedTo 7 entry_b (pos 2) heap nodes l list' h'
heap_add-list_add_example =
    heap_add-list_add 7 3 heap list nodes entry_b refl two-Chain (omega arith)

heap_remove-list_remove_example :
    RemovesAs heap nodes
      (heap_remove 3 (some list) (some key_c) heap)
      (list_remove (some (record { size = pos 2; head = entries nodes })) (some key_c))
heap_remove-list_remove_example =
    heap_remove-list_remove 3 heap list nodes key_c two-Chain (omega arith)

heap_destroy-Freed_example :
    (h' : Heap) × (heap_destroy 3 (some list) heap ≡ ok (pos 0, h')) × Freed heap nodes h'
heap_destroy-Freed_example = heap_destroy-Freed 3 heap list nodes two-Chain (omega arith)
