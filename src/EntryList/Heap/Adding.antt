-- ===== src/EntryList/Heap/Adding.antt =====
-- Adding an entry to a list on the heap does what it does to the sequence of its entries.
use sd_projeto.Base.{
  ℕ, ◌<◌, ◌≡◌, ◌≢◌, refl, ap, ℤ, pos, ◌+ℤ◌, ◌==ℤ◌, false, List, [], ◌∷◌, Option, none, some, ok,
  arith, length, Bool-cases, inl, inr,
}
use sd_projeto.Entry.{Entry, entry_compare, entry_cmp_error, entry_equal, entry_lesser}
use sd_projeto.EntryList.{EntryList, node_create, add_loop, add_head, list_add}
use sd_projeto.EntryList.Heap.{
  node_with, Heap, put_node, HeapList, heap_node_create, with_head, heap_add_head, heap_add,
}
use sd_projeto.EntryList.Heap.Cells.{load-holds, set_entry-holds, put_node-here, put_node-there}
use sd_projeto.EntryList.Heap.Chain.{
  Nodes, entries, at_node, Chain, ends, links, Chain-put_node, Chain-unused,
}
use sd_projeto.EntryList.Heap.AddLoop.{Added, unchanged-Added, heap_add_loop-Adds}

module _ (fresh : ℕ) (entry : Entry) (size : ℤ) where
  -- The list on the heap after the call, which saw the nodes `xs`.
  pub record AddedTo (h : Heap) (xs : Nodes) (list : EntryList) (list' : HeapList) (h' : Heap)
      : Type 0 where
    pub ys : Nodes
    pub chain : Chain h' list'.head ys
    pub holds : record { size = list'.size; head = entries ys } ≡ list
    pub same : (a : ℕ) → at_node a xs ≡ false → a ≢ fresh → h' a ≡ h a
    pub within : (a : ℕ) → at_node a xs ≡ false → a ≢ fresh → at_node a ys ≡ false

  Added-AddedTo :
      {h h' : Heap} {p : ℕ} {e : Entry} {xs : Nodes} {next : List Entry} (size' : ℤ)
      → Added fresh entry size h p e xs next h'
      → AddedTo h
          ((p, e) ∷ xs)
          (record { size = size'; head = e ∷ next })
          (record { size = size'; head = some p })
          h'
  Added-AddedTo {p} {e} size' added = record {
    ys = (p, e) ∷ added.ys;
    chain = added.chain;
    holds = ap (λ next. record { size = size'; head = e ∷ next }) added.holds;
    same = added.same;
    within = λ a o n. ground (arith, added.within a);
  }

  -- A new node before all others.
  created-AddedTo :
      (h : Heap) (q : Option ℕ) (xs : Nodes) (size' : ℤ)
      → h fresh ≡ none
      → Chain h q xs
      → AddedTo h xs
          (record { size = size'; head = entry ∷ entries xs })
          (record { size = size'; head = some fresh })
          (heap_node_create fresh h entry q)
  unfolding heap_node_create
  created-AddedTo h q xs size' unused c = record {
    ys = (fresh, entry) ∷ xs;
    chain =
        links (put_node-here h fresh _) (Chain-unused fresh c unused)
          (Chain-put_node fresh _ (Chain-unused fresh c unused) c);
    holds = refl;
    same = λ a o n. put_node-there h fresh a _ n;
    within = ground arith;
  }

  -- The entry of the first node is replaced.
  replaced-AddedTo :
      (h : Heap) (p : ℕ) (e : Entry) (q : Option ℕ) (xs : Nodes)
      → at_node p xs ≡ false
      → Chain h q xs
      → AddedTo h
          ((p, e) ∷ xs)
          (record { size = size; head = entry ∷ entries xs })
          (record { size = size; head = some p })
          (put_node h p (some (node_with entry q)))
  replaced-AddedTo h p e q xs out c = record {
    ys = (p, entry) ∷ xs;
    chain = links (put_node-here h p _) out (Chain-put_node p _ out c);
    holds = refl;
    same = λ a o n. put_node-there h p a _ (ground arith);
    within = ground arith;
  }

  abbrev AddsTo : ℕ → Heap → Option ℕ → Nodes → ℤ × ℤ × List Entry → Type 0
  AddsTo k h q xs (ret, size', head) =
      (list' : HeapList) × (h' : Heap) × (heap_add_head fresh k entry size q h
        ≡ ok (ret, (list', h')))
      × AddedTo h xs (record { size = size'; head = head }) list' h'

  heap_add_head-AddsTo :
      (k : ℕ) (h : Heap) (q : Option ℕ) (xs : Nodes)
      → h fresh ≡ none
      → Chain h q xs
      → length xs < k
      → AddsTo k h q xs (add_head entry size (entries xs))
  unfolding heap_add_head add_head node_create with_head
  heap_add_head-AddsTo k h q xs unused ends fuel =
      (_, _, refl, created-AddedTo h none [] (size +ℤ pos 1) unused ends)
  heap_add_head-AddsTo k h q xs unused (links {p} {e} {q = q1} {xs = xs1} holds out c) fuel =
      let (h', rest, added) =
        heap_add_loop-Adds fresh entry size k h p e q1 xs1 unused holds out c (omega arith) in
      let cmp = entry_compare (some entry) (some e) in
      rw (load-holds h p (node_with e q1) holds) (elim (Bool-cases (cmp ==ℤ entry_cmp_error)) [
        | inl bad ↦
            rw bad (_, h, refl, Added-AddedTo size (unchanged-Added fresh entry size holds out c))
        | inr good ↦ elim (Bool-cases (cmp ==ℤ entry_equal)) [
          | inl hit ↦
              rw (good, hit)
                (
                  _,
                  _,
                  rw (set_entry-holds h p e entry q1 holds) refl,
                  replaced-AddedTo h p e q1 xs1 out c,
                )
          | inr miss ↦ elim (Bool-cases (cmp ==ℤ entry_lesser)) [
            | inl less ↦
                rw (good, miss, less)
                  (
                    _,
                    _,
                    refl,
                    created-AddedTo h (some p) ((p, e) ∷ xs1) (size +ℤ pos 1) unused
                        (links holds out c),
                  )
            | inr more ↦
                rw (good, miss, more)
                  (_, _, rw rest refl, Added-AddedTo (add_loop entry size (entries xs1)).1 added)
          ]
        ]
      ])

module _ (fresh : ℕ) (k : ℕ) (h : Heap) (list : HeapList) (xs : Nodes) (entry : Entry)
    (unused : h fresh ≡ none) (c : Chain h list.head xs) (fuel : length xs < k) where
  -- Adding an entry to a list whose nodes are linked on the heap, with more rounds than there are
  -- nodes and a fresh address that holds no node, ends without a fault and returns what it returns
  -- for the sequence of the entries; the nodes that are then linked from the head hold the
  -- resulting sequence, under the resulting size, they are the old ones and perhaps the fresh one,
  -- and no other address is changed.
  pub heap_add-list_add :
      (l : EntryList) × (list' : HeapList) × (h' : Heap) × (ret : ℤ) × (list_add
          (some (record { size = list.size; head = entries xs }))
          (some entry)
        ≡ (ret, some l))
      × (heap_add fresh k (some list) (some entry) h ≡ ok (ret, (some list', h')))
      × AddedTo fresh entry list.size h xs l list' h'
  unfolding heap_add list_add
  heap_add-list_add =
      let (list', h', runs, added) =
        heap_add_head-AddsTo fresh entry list.size k h list.head xs unused c fuel in
      (_, list', h', _, refl, rw runs refl, added)
