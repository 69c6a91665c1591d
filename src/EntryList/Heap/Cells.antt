-- ===== src/EntryList/Heap/Cells.antt =====
-- One node on the heap: what reading and writing it gives.
use sd_projeto.Base.{ℕ, ◌≡◌, ◌≢◌, refl, Option, none, some, ok, arith}
use sd_projeto.Entry.{Entry}
use sd_projeto.EntryList.Heap.{
  Node, node_with, Heap, put_node, node_there, load, store, set_next, set_entry, free_node,
}

pub load-holds : (h : Heap) (p : ℕ) (n : Node) → h p ≡ some n → load h (some p) ≡ ok n
unfolding load node_there
load-holds h p n e = rw e refl

pub set_next-holds :
    (h : Heap) (p : ℕ) (e : Entry) (q r : Option ℕ)
    → h p ≡ some (node_with e q)
    → set_next h (some p) r ≡ ok (put_node h p (some (node_with e r)))
unfolding set_next store
set_next-holds h p e q r holds = rw (load-holds h p (node_with e q) holds) refl

pub set_entry-holds :
    (h : Heap) (p : ℕ) (e e' : Entry) (q : Option ℕ)
    → h p ≡ some (node_with e q)
    → set_entry h (some p) e' ≡ ok (put_node h p (some (node_with e' q)))
unfolding set_entry store
set_entry-holds h p e e' q holds = rw (load-holds h p (node_with e q) holds) refl

pub put_node-here : (h : Heap) (p : ℕ) (c : Option Node) → put_node h p c p ≡ c
unfolding put_node
put_node-here h p c = ground arith

pub put_node-there : (h : Heap) (p a : ℕ) (c : Option Node) → a ≢ p → put_node h p c a ≡ h a
unfolding put_node
put_node-there h p a c ne = ground arith

pub free_node-holds :
    (h : Heap) (p : ℕ) (n : Node) → h p ≡ some n → free_node h (some p) ≡ ok (put_node h p none)
unfolding free_node store
free_node-holds h p n e = rw (load-holds h p n e) refl
