-- ===== src/EntryList/Heap/RemoveLoop.antt =====
-- The loop of `list_remove` on the heap.
use sd_projeto.Base.{
  ℕ, zero, suc, ◌<◌, ◌≡◌, ◌≢◌, ◌∙◌, refl, sym, ap, ℤ, pos, ◌==ℤ◌, true, false, List, ◌∷◌, Option,
  none, some, Run, ok, fault, ◌>>=◌, deref, arith, length, Bool-cases, Option-cases, inl, inr,
}
use sd_projeto.CString.{CString, strcmp}
use sd_projeto.Entry.{Entry, entry_destroy}
use sd_projeto.EntryList.{drop_node, remove_loop}
use sd_projeto.EntryList.Heap.{node_with, Heap, put_node, set_next, heap_drop, heap_remove_loop}
use sd_projeto.EntryList.Heap.Cells.{
  load-holds, set_next-holds, free_node-holds, put_node-here, put_node-there,
}
use sd_projeto.EntryList.Heap.Chain.{Nodes, entries, at_node, Chain, ends, links, Chain-put_node}

-- The chain of the node `p` after the loop, which saw the nodes `xs` behind it. A node that is no
-- longer in the chain has been freed if 0 is returned.
pub record Removed (h : Heap) (p : ℕ) (e : Entry) (xs : Nodes) (ret : ℤ) (next : List Entry)
    (h' : Heap) : Type 0 where
  pub ys : Nodes
  pub chain : Chain h' (some p) ((p, e) ∷ ys)
  pub holds : entries ys ≡ next
  pub same : (a : ℕ) → at_node a ((p, e) ∷ xs) ≡ false → h' a ≡ h a
  pub within : (a : ℕ) → at_node a xs ≡ false → at_node a ys ≡ false
  pub freed :
      (ret ==ℤ pos 0) ≡ true → (a : ℕ) → at_node a xs ≡ true → at_node a ys ≡ false → h' a ≡ none

-- The run on the heap ends as the one on the sequence.
abbrev pub Removes :
    Heap → ℕ → Entry → Nodes → Run (ℤ × (ℤ × Heap)) → Run (ℤ × ℤ × List Entry) → Type 0
Removes h p e xs (ok (ret, (size, h'))) (ok (ret', size', next)) =
    (ret ≡ ret') × (size ≡ size') × Removed h p e xs ret next h'
Removes h p e xs (fault f) (fault f') = f ≡ f'
Removes h p e xs _ _ = ⊥

unchanged-Removed :
    {h : Heap} {p : ℕ} {e : Entry} {q : Option ℕ} {xs : Nodes} (ret : ℤ)
    → h p ≡ some (node_with e q)
    → at_node p xs ≡ false
    → Chain h q xs
    → Removed h p e xs ret (entries xs) h
unchanged-Removed {xs} ret holds out c = record {
  ys = xs;
  chain = links holds out c;
  holds = refl;
  same = λ a o. refl;
  within = λ a o. o;
  freed = λ z a i o. cc;
}

-- The node `p` keeps its place before what was done behind it.
Removes-links :
    (h : Heap) (p p1 : ℕ) (e e1 : Entry) (xs : Nodes)
    → h p ≡ some (node_with e (some p1))
    → at_node p ((p1, e1) ∷ xs) ≡ false
    → (run : Run (ℤ × (ℤ × Heap))) (r : Run (ℤ × ℤ × List Entry)) → Removes h p1 e1 xs run r
    → Removes h p e ((p1, e1) ∷ xs) run (r >>= λ t. ok (t.0, t.1, e1 ∷ t.2))
Removes-links h p p1 e e1 xs holds out (ok (ret, (size, h'))) (ok (ret', size', next))
      (er, es, removed) =
    (
      er,
      es,
      record {
        ys = (p1, e1) ∷ removed.ys;
        chain = links (removed.same p out ∙ holds) (ground (arith, removed.within p)) removed.chain;
        holds = ap (λ next. e1 ∷ next) removed.holds;
        same = λ a o. removed.same a (ground arith);
        within = λ a o. ground (arith, removed.within a);
        freed = λ z a i o. removed.freed z a (ground arith) (ground arith);
      },
    )
Removes-links h p p1 e e1 xs holds out (ok run) (fault f) removes = absurd removes
Removes-links h p p1 e e1 xs holds out (fault f) (ok r) removes = absurd removes
Removes-links h p p1 e e1 xs holds out (fault f) (fault f') removes = removes

module _ (key : CString) (size : ℤ) where
  -- The node behind `p` is taken out.
  drop-Removes :
      (h : Heap) (p : ℕ) (e : Entry) (p1 : ℕ) (e1 : Entry) (q1 : Option ℕ) (xs : Nodes)
      → h p ≡ some (node_with e (some p1))
      → at_node p ((p1, e1) ∷ xs) ≡ false
      → h p1 ≡ some (node_with e1 q1)
      → at_node p1 xs ≡ false
      → Chain h q1 xs
      → Removes h p e
          ((p1, e1) ∷ xs)
          (set_next h (some p) q1 >>= λ h'. heap_drop h' (some p1) e1 size)
          (ok (drop_node size e1 (entries xs)))
  unfolding heap_drop drop_node put_node
  drop-Removes h p e p1 e1 q1 xs holds out holds1 out1 c =
      let h1 = put_node h p (some (node_with e q1)) in
      let ne : p1 ≢ p = ground arith in
      rw (set_next-holds h p e (some p1) q1 holds)
        (elim (Bool-cases (entry_destroy (some e1) ==ℤ pos 0)) [
          | inl whole ↦
              rw
                (
                  whole,
                  free_node-holds h1 p1 (node_with e1 q1) (put_node-there h p p1 _ ne ∙ holds1),
                )
                (
                  refl,
                  refl,
                  record {
                    ys = xs;
                    chain =
                        links (put_node-there h1 p1 p _ (λ s. ne (sym s)) ∙ put_node-here h p _)
                          (ground arith)
                          (Chain-put_node p1 _ out1 (Chain-put_node p _ (ground arith) c));
                    holds = refl;
                    same = ground arith;
                    within = ground arith;
                    freed = ground arith;
                  },
                )
          | inr broken ↦ rw broken (
            refl,
            refl,
            record {
              ys = xs;
              chain =
                  links (put_node-here h p _) (ground arith) (Chain-put_node p _ (ground arith) c);
              holds = refl;
              same = ground arith;
              within = ground arith;
              freed = λ z. cc;
            },
          )
        ])

  pub heap_remove_loop-Removes :
      (k : ℕ) (h : Heap) (p : ℕ) (e : Entry) (q : Option ℕ) (xs : Nodes)
      → h p ≡ some (node_with e q)
      → at_node p xs ≡ false
      → Chain h q xs
      → length xs < k
      → Removes h p e xs
          (heap_remove_loop k key size (some p) q h)
          (remove_loop key size (entries xs))
  unfolding heap_remove_loop remove_loop
  heap_remove_loop-Removes zero h p e q xs holds out c fuel = absurd (omega arith)
  heap_remove_loop-Removes (suc k) h p e q xs holds out ends fuel =
      (refl, refl, unchanged-Removed (pos 1) holds out ends)
  heap_remove_loop-Removes (suc k) h p e q xs holds out
        (links {p = p1} {e = e1} {q = q1} {xs = xs1} holds1 out1 c) fuel =
      let behind = heap_remove_loop-Removes k h p1 e1 q1 xs1 holds1 out1 c (omega arith) in
      rw (load-holds h p1 (node_with e1 q1) holds1) (elim (Option-cases e1.key) [
        | inl missing ↦ rw (ap deref missing) refl
        | inr (node_key, e_key) ↦ elim (Bool-cases (strcmp node_key key ==ℤ pos 0)) [
          | inl hit ↦
              rw (ap deref e_key, hit) (drop-Removes h p e p1 e1 q1 xs1 holds out holds1 out1 c)
          | inr miss ↦
              rw (ap deref e_key, miss) (Removes-links h p p1 e e1 xs1 holds out _ _ behind)
        ]
      ])
