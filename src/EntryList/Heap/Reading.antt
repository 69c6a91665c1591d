-- ===== src/EntryList/Heap/Reading.antt =====
-- Getting from a list on the heap, and destroying it.
use sd_projeto.Base.{
  ℕ, zero, suc, ◌<◌, ◌≡◌, refl, pos, true, false, Option, none, some, ok, arith, length,
}
use sd_projeto.CString.{CString}
use sd_projeto.EntryList.{get_loop, list_get}
use sd_projeto.EntryList.Heap.{
  node_with, Heap, put_node, HeapList, heap_get_loop, heap_get, heap_destroy_loop, heap_destroy,
}
use sd_projeto.EntryList.Heap.Cells.{load-holds, free_node-holds}
use sd_projeto.EntryList.Heap.Chain.{Nodes, entries, at_node, Chain, ends, links, Chain-put_node}

heap_get_loop-get_loop :
    (key : CString) (k : ℕ) (h : Heap) (q : Option ℕ) (xs : Nodes)
    → Chain h q xs
    → length xs < k
    → heap_get_loop k key q h ≡ get_loop key (entries xs)
unfolding heap_get_loop get_loop
heap_get_loop-get_loop key zero h q xs c fuel = absurd (omega arith)
heap_get_loop-get_loop key (suc k) h q xs ends fuel = refl
heap_get_loop-get_loop key (suc k) h q xs (links {p} {e} {q = q1} {xs = xs1} holds out c) fuel =
    rw
      (load-holds h p (node_with e q1) holds, heap_get_loop-get_loop key k h q1 xs1 c (omega arith))
      refl

pub heap_get-list_get :
    (key : CString) (k : ℕ) (h : Heap) (list : HeapList) (xs : Nodes)
    → Chain h list.head xs
    → length xs < k
    → heap_get k (some list) (some key) h
      ≡ list_get (some (record { size = list.size; head = entries xs })) (some key)
unfolding heap_get list_get
heap_get-list_get key k h list xs c fuel = heap_get_loop-get_loop key k h list.head xs c fuel

-- The nodes are freed, and no other is touched.
pub record Freed (h : Heap) (xs : Nodes) (h' : Heap) : Type 0 where
  pub gone : (a : ℕ) → at_node a xs ≡ true → h' a ≡ none
  pub same : (a : ℕ) → at_node a xs ≡ false → h' a ≡ h a

heap_destroy_loop-Freed :
    (k : ℕ) (h : Heap) (q : Option ℕ) (xs : Nodes)
    → Chain h q xs
    → length xs < k
    → (h' : Heap) × (heap_destroy_loop k q h ≡ ok h') × Freed h xs h'
unfolding heap_destroy_loop put_node
heap_destroy_loop-Freed zero h q xs c fuel = absurd (omega arith)
heap_destroy_loop-Freed (suc k) h q xs ends fuel =
    (h, refl, record { gone = λ a i. cc; same = λ a o. refl })
heap_destroy_loop-Freed (suc k) h q xs (links {p} {e} {q = q1} {xs = xs1} holds out c) fuel =
    let (h', runs, freed) =
      heap_destroy_loop-Freed k (put_node h p none) q1 xs1 (Chain-put_node p none out c)
        (omega arith) in
    (
      h',
      rw (load-holds h p (node_with e q1) holds, free_node-holds h p (node_with e q1) holds, runs)
          refl,
      record {
        gone = λ a i. ground (arith, freed.gone a, freed.same a);
        same = λ a o. ground (arith, freed.same a);
      },
    )

-- Destroying a list whose nodes are linked on the heap, with more rounds than there are nodes,
-- returns 0 without a fault, frees each of its nodes, and changes no other address.
pub heap_destroy-Freed :
    (k : ℕ) (h : Heap) (list : HeapList) (xs : Nodes)
    → Chain h list.head xs
    → length xs < k
    → (h' : Heap) × (heap_destroy k (some list) h ≡ ok (pos 0, h')) × Freed h xs h'
unfolding heap_destroy
heap_destroy-Freed k h list xs c fuel =
    let (h', runs, freed) = heap_destroy_loop-Freed k h list.head xs c fuel in
    (h', rw runs refl, freed)
