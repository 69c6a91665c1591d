-- ===== src/EntryList/Heap/AddLoop.antt =====
-- The loop of `list_add` on the heap.
use sd_projeto.Base.{
  ℕ, zero, suc, ◌<◌, ◌≡◌, ◌≢◌, ◌∙◌, refl, ap, ℤ, pos, ◌+ℤ◌, ◌==ℤ◌, false, List, [], ◌∷◌, Option,
  none, some, ok, arith, length, Bool-cases, inl, inr,
}
use sd_projeto.Entry.{Entry, entry_compare, entry_cmp_error, entry_equal, entry_lesser}
use sd_projeto.EntryList.{node_create, add_loop}
use sd_projeto.EntryList.Heap.{
  node_with, Heap, put_node, heap_node_create, link_behind, heap_add_loop,
}
use sd_projeto.EntryList.Heap.Cells.{
  load-holds, set_next-holds, set_entry-holds, put_node-here, put_node-there,
}
use sd_projeto.EntryList.Heap.Chain.{
  Nodes, entries, at_node, Chain, ends, links, Chain-put_node, Chain-unused,
}

module _ (fresh : ℕ) (entry : Entry) (size : ℤ) where
  -- The chain of the node `p` after the loop, which saw the nodes `xs` behind it.
  pub record Added (h : Heap) (p : ℕ) (e : Entry) (xs : Nodes) (next : List Entry) (h' : Heap)
      : Type 0 where
    pub ys : Nodes
    pub chain : Chain h' (some p) ((p, e) ∷ ys)
    pub holds : entries ys ≡ next
    pub same : (a : ℕ) → at_node a ((p, e) ∷ xs) ≡ false → a ≢ fresh → h' a ≡ h a
    pub within : (a : ℕ) → at_node a xs ≡ false → a ≢ fresh → at_node a ys ≡ false

  abbrev pub Adds : Heap → ℕ → Entry → Option ℕ → Nodes → ℕ → ℤ × ℤ × List Entry → Type 0
  Adds h p e q xs k (ret, size', next) =
      (h' : Heap) × (heap_add_loop fresh k entry size (some p) q h ≡ ok (ret, (size', h')))
      × Added h p e xs next h'

  link_behind-Added :
      (h : Heap) (p : ℕ) (e : Entry) (q : Option ℕ) (xs : Nodes)
      → h fresh ≡ none
      → h p ≡ some (node_with e q)
      → at_node p xs ≡ false
      → Chain h q xs
      → (h' : Heap) × (link_behind fresh h entry size (some p) q ≡ ok (pos 0, (size +ℤ pos 1, h')))
        × Added h p e xs (entry ∷ entries xs) h'
  unfolding link_behind heap_node_create put_node
  link_behind-Added h p e q xs unused holds out c =
      let h1 = put_node h fresh (some (node_with entry q)) in
      let ne : p ≢ fresh = ground arith in
      (
        put_node h1 p (some (node_with e (some fresh))),
        rw (set_next-holds h1 p e q (some fresh) (put_node-there h fresh p _ ne ∙ holds)) refl,
        record {
          ys = (fresh, entry) ∷ xs;
          chain = links (put_node-here h1 p _) (ground (arith, Chain-unused fresh c unused)) (
              Chain-put_node p _ (ground arith) (
                links (put_node-here h fresh _) (Chain-unused fresh c unused)
                  (Chain-put_node fresh _ (Chain-unused fresh c unused) c)));
          holds = refl;
          same = ground arith;
          within = ground arith;
        },
      )

  -- The entry of the node behind `p` is replaced.
  set_entry-Added :
      (h : Heap) (p : ℕ) (e : Entry) (p1 : ℕ) (e1 : Entry) (q1 : Option ℕ) (xs : Nodes)
      → h p ≡ some (node_with e (some p1))
      → at_node p ((p1, e1) ∷ xs) ≡ false
      → h p1 ≡ some (node_with e1 q1)
      → at_node p1 xs ≡ false
      → Chain h q1 xs
      → Added h p e ((p1, e1) ∷ xs) (entry ∷ entries xs) (put_node h p1 (some (node_with entry q1)))
  unfolding put_node
  set_entry-Added h p e p1 e1 q1 xs holds out holds1 out1 c = record {
    ys = (p1, entry) ∷ xs;
    chain =
        links (put_node-there h p1 p _ (ground arith) ∙ holds) (ground arith)
          (links (put_node-here h p1 _) out1 (Chain-put_node p1 _ out1 c));
    holds = refl;
    same = ground arith;
    within = ground arith;
  }

  -- The node `p` keeps its place before what was done behind it.
  Added-links :
      {h h' : Heap} {p p1 : ℕ} {e e1 : Entry} {xs : Nodes} {next : List Entry}
      → h p ≡ some (node_with e (some p1))
      → at_node p ((p1, e1) ∷ xs) ≡ false
      → p ≢ fresh
      → Added h p1 e1 xs next h'
      → Added h p e ((p1, e1) ∷ xs) (e1 ∷ next) h'
  Added-links {p} {p1} {e1} holds out ne added = record {
    ys = (p1, e1) ∷ added.ys;
    chain = links (added.same p out ne ∙ holds) (ground (arith, added.within p)) added.chain;
    holds = ap (λ next. e1 ∷ next) added.holds;
    same = λ a o n. added.same a (ground arith) n;
    within = λ a o n. ground (arith, added.within a);
  }

  pub unchanged-Added :
      {h : Heap} {p : ℕ} {e : Entry} {q : Option ℕ} {xs : Nodes}
      → h p ≡ some (node_with e q)
      → at_node p xs ≡ false
      → Chain h q xs
      → Added h p e xs (entries xs) h
  unchanged-Added {xs} holds out c = record {
    ys = xs;
    chain = links holds out c;
    holds = refl;
    same = λ a o n. refl;
    within = λ a o n. o;
  }

  pub heap_add_loop-Adds :
      (k : ℕ) (h : Heap) (p : ℕ) (e : Entry) (q : Option ℕ) (xs : Nodes)
      → h fresh ≡ none
      → h p ≡ some (node_with e q)
      → at_node p xs ≡ false
      → Chain h q xs
      → length xs < k
      → Adds h p e q xs k (add_loop entry size (entries xs))
  unfolding heap_add_loop add_loop node_create
  heap_add_loop-Adds zero h p e q xs unused holds out c fuel = absurd (omega arith)
  heap_add_loop-Adds (suc k) h p e q xs unused holds out ends fuel =
      link_behind-Added h p e none [] unused holds out ends
  heap_add_loop-Adds (suc k) h p e q xs unused holds out
        (links {p = p1} {e = e1} {q = q1} {xs = xs1} holds1 out1 c) fuel =
      let (h', rest, added) =
        heap_add_loop-Adds k h p1 e1 q1 xs1 unused holds1 out1 c (omega arith) in
      let ne : p ≢ fresh = ground arith in
      let cmp = entry_compare (some entry) (some e1) in
      rw (load-holds h p1 (node_with e1 q1) holds1) (elim (Bool-cases (cmp ==ℤ entry_cmp_error)) [
        | inl bad ↦ rw bad (h, refl, unchanged-Added holds out (links holds1 out1 c))
        | inr good ↦ elim (Bool-cases (cmp ==ℤ entry_equal)) [
          | inl hit ↦
              rw (good, hit)
                (
                  _,
                  rw (set_entry-holds h p1 e1 entry q1 holds1) refl,
                  set_entry-Added h p e p1 e1 q1 xs1 holds out holds1 out1 c,
                )
          | inr miss ↦ elim (Bool-cases (cmp ==ℤ entry_lesser)) [
            | inl less ↦
                rw (good, miss, less)
                  (link_behind-Added h p e (some p1) ((p1, e1) ∷ xs1) unused holds out
                    (links holds1 out1 c))
            | inr more ↦ rw (good, miss, more) (h', rest, Added-links holds out ne added)
          ]
        ]
      ])
