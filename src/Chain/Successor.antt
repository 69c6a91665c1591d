-- ===== src/Chain/Successor.antt =====
-- The next server that `server_watch_children` leaves.
use mathlib.Core.Path.{subst}
use sd_projeto.Base.{
  ◌⊎◌, ap, negsuc, ◌++◌, ℕ, ◌≡◌, ◌≢◌, refl, sym, pos, ◌==ℤ◌, true, false, List, [], ◌∷◌, Option,
  some, is_some, arith, Option-cases, inl, inr,
}
use sd_projeto.CString.{CString, strcmp}
use sd_projeto.CString.Order.{strcmp-cases, less, same, greater, eq_of_strcmp}
use sd_projeto.Stub.{Rtable}
use sd_projeto.Skel.{Server}
use sd_projeto.Chain.{
  children_abs_zpaths, successor, reconnect, change_successor, server_watch_children,
}

-- None of the paths is greater than the own one.
abbrev pub NoneAfter : CString → List CString → Type 0
NoneAfter own [] = Unit
NoneAfter own (path ∷ paths) = (strcmp own path ≢ negsuc 0) × NoneAfter own paths

-- The path is empty and none is greater than the own one, or it is the first that is greater.
abbrev pub IsNext : CString → List CString → CString → Type 0
IsNext own paths path =
    ((path ≡ []) × NoneAfter own paths)
    ⊎ ((earlier : List CString) × (later : List CString) × (paths ≡ earlier ++ (path ∷ later))
        × NoneAfter own earlier
        × (strcmp own path ≡ negsuc 0))

not_before :
    (own path : CString) (paths : List CString) (next : CString)
    → strcmp own path ≢ negsuc 0
    → IsNext own paths next
    → IsNext own (path ∷ paths) next
not_before own path paths next n (inl (e, none_after)) = inl (e, (n, none_after))
not_before own path paths next n (inr (earlier, later, e, none_after, h)) =
    inr (path ∷ earlier, later, ap (λ ps. path ∷ ps) e, (n, none_after), h)

successor-IsNext : (own : CString) (paths : List CString) → IsNext own paths (successor own paths)
unfolding successor
successor-IsNext own [] = inl (refl, tt)
successor-IsNext own (path ∷ paths) =
    let skips : successor own (path ∷ paths) ≡ successor own paths
        → strcmp own path ≢ negsuc 0
        → IsNext own (path ∷ paths) (successor own (path ∷ paths)) =
      λ e n.
        subst (IsNext own (path ∷ paths)) (sym e)
          (not_before own path paths (successor own paths) n (successor-IsNext own paths)) in
    elim (strcmp-cases own path) [
      | less h ↦
          let takes : successor own (path ∷ paths) ≡ path = rw h refl in
          subst (IsNext own (path ∷ paths)) (sym takes) (inr ([], paths, refl, tt, h))
      | same h ↦ skips (rw h refl) (λ e. ground (arith, h, e))
      | greater h ↦ skips (rw h refl) (λ e. ground (arith, h, e))
    ]

no_cons : (b : ℕ) (s : CString) → ◌≢◌ {A = CString} (b ∷ s) []
no_cons b s e = cc

module _ (zoo_get : CString → Option CString) (connect : CString → Option Rtable)
    (this_node_path : CString) (server : Server) where
  -- the path is not empty, and differs from the one that is known
  renewed :
      (path : CString)
      → is_some (zoo_get path) ≡ true
      → (reconnect connect path server (zoo_get path)).next_server_node_path ≡ path
  unfolding reconnect
  renewed path found = elim (Option-cases (zoo_get path)) [
    | inl e ↦ absurd (ground (arith, e, found))
    | inr (addr, e) ↦ rw e refl
  ]

  filled :
      (path : CString)
      → (strcmp path [] ==ℤ pos 0) ≡ false
      → is_some (zoo_get path) ≡ true
      → (change_successor zoo_get connect path server).next_server_node_path ≡ path
  unfolding change_successor
  filled path ne found = elim (strcmp-cases path server.next_server_node_path) [
    | less h ↦ rw (ne, h) (renewed path found)
    | same h ↦ rw (ne, h) (sym (eq_of_strcmp path server.next_server_node_path h))
    | greater h ↦ rw (ne, h) (renewed path found)
  ]

  emptied : (change_successor zoo_get connect [] server).next_server_node_path ≡ []
  unfolding change_successor strcmp
  emptied = elim (strcmp-cases server.next_server_node_path []) [
    | less h ↦ rw h refl
    | same h ↦
        let e = eq_of_strcmp server.next_server_node_path [] h in
        let h' = subst (λ p. strcmp [] p ≡ pos 0) (sym e) refl in rw (h, h') e
    | greater h ↦ rw h refl
  ]

  not_empty : (path : CString) → path ≢ [] → (strcmp path [] ==ℤ pos 0) ≡ false
  unfolding strcmp
  not_empty [] ne = absurd (ne refl)
  not_empty (b ∷ path) ne = refl

  changed :
      (path : CString)
      → (path ≢ [] → is_some (zoo_get path) ≡ true)
      → (change_successor zoo_get connect path server).next_server_node_path ≡ path
  changed [] found = emptied
  changed (b ∷ path) found =
      let ne : ◌≢◌ {A = CString} (b ∷ path) [] = λ e. no_cons b path e in
      filled (b ∷ path) (not_empty (b ∷ path) ne) (found ne)

  -- After an event on the nodes, when the nodes could be read, and so could the address of the
  -- first listed one whose path is greater than the own path, if there is one, the path of the
  -- next server is that of this node, or empty if there is none.
  pub server_watch_children-successor :
      (children : List CString)
      → ((path : CString)
          → IsNext this_node_path (children_abs_zpaths children) path
          → path ≢ []
          → is_some (zoo_get path) ≡ true)
      → IsNext this_node_path
          (children_abs_zpaths children)
          (server_watch_children zoo_get connect true
            (some children)
            this_node_path
            server).next_server_node_path
  unfolding server_watch_children
  server_watch_children-successor children found =
      let paths = children_abs_zpaths children in
      let next = successor-IsNext this_node_path paths in
      subst (IsNext this_node_path paths)
        (sym
          (changed (successor this_node_path paths) (found (successor this_node_path paths) next)))
        next
