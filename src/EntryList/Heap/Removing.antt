-- ===== src/EntryList/Heap/Removing.antt =====
-- Removing a key from a list on the heap does what it does to the sequence of its entries.
use sd_projeto.Base.{
  ℕ, ◌<◌, ◌≡◌, ◌∙◌, refl, ap, ℤ, pos, ◌==ℤ◌, true, false, List, [], ◌∷◌, Option, none, some, Run,
  ok, fault, ◌>>=◌, deref, arith, length, Bool-cases, Option-cases, inl, inr,
}
use sd_projeto.CString.{CString, strcmp}
use sd_projeto.Entry.{Entry, entry_destroy}
use sd_projeto.EntryList.{EntryList, drop_node, remove_head, list_remove}
use sd_projeto.EntryList.Heap.{
  node_with, Heap, put_node, HeapList, heap_drop, with_head, heap_remove_head, heap_remove,
}
use sd_projeto.EntryList.Heap.Cells.{load-holds, free_node-holds}
use sd_projeto.EntryList.Heap.Chain.{Nodes, entries, at_node, Chain, ends, links, Chain-put_node}
use sd_projeto.EntryList.Heap.RemoveLoop.{Removes, heap_remove_loop-Removes}

-- The list on the heap after the call, which saw the nodes `xs`. A node that is no longer in the list
-- has been freed if 0 is returned.
pub record RemovedFrom (h : Heap) (xs : Nodes) (ret : ℤ) (list : EntryList) (list' : HeapList)
    (h' : Heap) : Type 0 where
  pub ys : Nodes
  pub chain : Chain h' list'.head ys
  pub holds : record { size = list'.size; head = entries ys } ≡ list
  pub same : (a : ℕ) → at_node a xs ≡ false → h' a ≡ h a
  pub within : (a : ℕ) → at_node a xs ≡ false → at_node a ys ≡ false
  pub freed :
      (ret ==ℤ pos 0) ≡ true → (a : ℕ) → at_node a xs ≡ true → at_node a ys ≡ false → h' a ≡ none

abbrev RemovesFrom : Heap → Nodes → Run (ℤ × (HeapList × Heap)) → Run (ℤ × ℤ × List Entry) → Type 0
RemovesFrom h xs (ok (ret, (list', h'))) (ok (ret', size, head)) =
    (ret ≡ ret') × RemovedFrom h xs ret (record { size = size; head = head }) list' h'
RemovesFrom h xs (fault f) (fault f') = f ≡ f'
RemovesFrom h xs _ _ = ⊥

Removes-RemovesFrom :
    (h : Heap) (p : ℕ) (e : Entry) (xs : Nodes) (run : Run (ℤ × (ℤ × Heap)))
    (r : Run (ℤ × ℤ × List Entry))
    → Removes h p e xs run r
    → RemovesFrom h ((p, e) ∷ xs) (with_head (some p) run) (r >>= λ t. ok (t.0, t.1, e ∷ t.2))
unfolding with_head
Removes-RemovesFrom h p e xs (ok (ret, (size, h'))) (ok (ret', size', next)) (er, es, removed) = (
  er,
  record {
    ys = (p, e) ∷ removed.ys;
    chain = removed.chain;
    holds =
        ap (λ next. record { size = size; head = e ∷ next }) removed.holds
        ∙ ap (λ s. record { size = s; head = e ∷ next }) es;
    same = removed.same;
    within = λ a o. ground (arith, removed.within a);
    freed = λ z a i o. removed.freed z a (ground arith) (ground arith);
  },
)
Removes-RemovesFrom h p e xs (ok run) (fault f) removes = absurd removes
Removes-RemovesFrom h p e xs (fault f) (ok r) removes = absurd removes
Removes-RemovesFrom h p e xs (fault f) (fault f') removes = removes

module _ (key : CString) (size : ℤ) (h : Heap) where
  drop-RemovesFrom :
      (p : ℕ) (e : Entry) (q : Option ℕ) (xs : Nodes)
      → h p ≡ some (node_with e q)
      → at_node p xs ≡ false
      → Chain h q xs
      → RemovesFrom h
          ((p, e) ∷ xs)
          (with_head q (heap_drop h (some p) e size))
          (ok (drop_node size e (entries xs)))
  unfolding heap_drop drop_node with_head put_node
  drop-RemovesFrom p e q xs holds out c = elim (Bool-cases (entry_destroy (some e) ==ℤ pos 0)) [
    | inl whole ↦
        rw (whole, free_node-holds h p (node_with e q) holds)
          (
            refl,
            record {
              ys = xs;
              chain = Chain-put_node p _ out c;
              holds = refl;
              same = ground arith;
              within = ground arith;
              freed = ground arith;
            },
          )
    | inr broken ↦ rw broken (
      refl,
      record {
        ys = xs;
        chain = c;
        holds = refl;
        same = λ a o. refl;
        within = ground arith;
        freed = λ z. cc;
      },
    )
  ]

  heap_remove_head-RemovesFrom :
      (k : ℕ) (q : Option ℕ) (xs : Nodes)
      → Chain h q xs
      → length xs < k
      → RemovesFrom h xs (heap_remove_head k key size q h) (remove_head key size (entries xs))
  unfolding heap_remove_head remove_head
  heap_remove_head-RemovesFrom k q xs ends fuel = (
    refl,
    record {
      ys = [];
      chain = ends;
      holds = refl;
      same = λ a o. refl;
      within = λ a o. refl;
      freed = λ z. cc;
    },
  )
  heap_remove_head-RemovesFrom k q xs (links {p} {e} {q = q1} {xs = xs1} holds out c) fuel =
      let behind = heap_remove_loop-Removes key size k h p e q1 xs1 holds out c (omega arith) in
      rw (load-holds h p (node_with e q1) holds) (elim (Option-cases e.key) [
        | inl missing ↦ rw (ap deref missing) refl
        | inr (node_key, e_key) ↦ elim (Bool-cases (strcmp node_key key ==ℤ pos 0)) [
          | inl hit ↦ rw (ap deref e_key, hit) (drop-RemovesFrom p e q1 xs1 holds out c)
          | inr miss ↦ rw (ap deref e_key, miss) (Removes-RemovesFrom h p e xs1 _ _ behind)
        ]
      ])

-- The run on the heap ends as the one on the sequence.
abbrev pub RemovesAs :
    Heap → Nodes → Run (ℤ × (Option HeapList × Heap)) → Run (ℤ × Option EntryList) → Type 0
RemovesAs h xs (ok (ret, (some list', h'))) (ok (ret', some list)) =
    (ret ≡ ret') × RemovedFrom h xs ret list list' h'
RemovesAs h xs (fault f) (fault f') = f ≡ f'
RemovesAs h xs _ _ = ⊥

RemovesFrom-RemovesAs :
    (h : Heap) (xs : Nodes) (run : Run (ℤ × (HeapList × Heap))) (r : Run (ℤ × ℤ × List Entry))
    → RemovesFrom h xs run r
    → RemovesAs h xs
        (run >>= λ t. ok (t.0, (some t.1.0, t.1.1)))
        (r >>= λ t. ok (t.0, some (record { size = t.1; head = t.2 })))
RemovesFrom-RemovesAs h xs (ok run) (ok r) removes = removes
RemovesFrom-RemovesAs h xs (ok run) (fault f) removes = removes
RemovesFrom-RemovesAs h xs (fault f) (ok r) removes = removes
RemovesFrom-RemovesAs h xs (fault f) (fault f') removes = removes

module _ (k : ℕ) (h : Heap) (list : HeapList) (xs : Nodes) (key : CString)
    (c : Chain h list.head xs) (fuel : length xs < k) where
  -- Removing a key from a list whose nodes are linked on the heap, with more rounds than there are
  -- nodes, ends with the same fault as for the sequence of the entries, or returns the same; the
  -- nodes that are then linked from the head are old ones and hold the resulting sequence, under
  -- the resulting size, no other address is changed, and if 0 is returned a node that is no longer
  -- linked has been freed.
  pub heap_remove-list_remove :
      RemovesAs h xs
        (heap_remove k (some list) (some key) h)
        (list_remove (some (record { size = list.size; head = entries xs })) (some key))
  unfolding heap_remove list_remove
  heap_remove-list_remove =
      RemovesFrom-RemovesAs h xs _ _
        (heap_remove_head-RemovesFrom key list.size h k list.head xs c fuel)
