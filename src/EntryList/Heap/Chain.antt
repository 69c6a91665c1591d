-- ===== src/EntryList/Heap/Chain.antt =====
-- Chains of nodes on the heap.
use sd_projeto.Base.{
  ℕ, ◌≡◌, refl, Bool, true, false, ◌||◌, ◌==◌, List, [], ◌∷◌, Option, none, some, arith,
}
use sd_projeto.Entry.{Entry}
use sd_projeto.EntryList.Heap.{Node, node_with, Heap, put_node}

-- addresses and entries, in order
abbrev pub Nodes : Type 0
Nodes = List (ℕ × Entry)

abbrev pub entries : Nodes → List Entry
entries [] = []
entries ((p, e) ∷ xs) = e ∷ entries xs

abbrev pub at_node : ℕ → Nodes → Bool
at_node a [] = false
at_node a ((p, e) ∷ xs) = a == p || at_node a xs

-- From this pointer on, `next` leads through these nodes to NULL, and to none of them twice.
pub data Chain (h : Heap) : Option ℕ → Nodes → Type 0 where
  ends : Chain h none []
  links :
      {p : ℕ} {e : Entry} {q : Option ℕ} {xs : Nodes}
      → h p ≡ some (node_with e q)
      → at_node p xs ≡ false
      → Chain h q xs
      → Chain h (some p) ((p, e) ∷ xs)

-- A chain is kept by what leaves its nodes as they are.
pub Chain-same :
    {h h' : Heap} {q : Option ℕ} {xs : Nodes}
    → Chain h q xs
    → ((a : ℕ) → at_node a xs ≡ true → h' a ≡ h a)
    → Chain h' q xs
Chain-same ends same = ends
Chain-same (links {p} holds out c) same =
    links (ground (arith, same p)) out (Chain-same c (λ a i. same a (ground arith)))

-- Writing to another address keeps it.
pub Chain-put_node :
    {h : Heap} {q : Option ℕ} {xs : Nodes} (a : ℕ) (cell : Option Node)
    → at_node a xs ≡ false
    → Chain h q xs
    → Chain (put_node h a cell) q xs
unfolding put_node
Chain-put_node a cell out c = Chain-same c (ground arith)

-- No chain runs through an address without a node.
pub Chain-unused :
    {h : Heap} {q : Option ℕ} {xs : Nodes} (a : ℕ)
    → Chain h q xs
    → h a ≡ none
    → at_node a xs ≡ false
Chain-unused a ends unused = refl
Chain-unused a (links {p} holds out c) unused = ground (arith, Chain-unused a c unused)
