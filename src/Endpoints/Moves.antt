-- ===== src/Endpoints/Moves.antt =====
-- Where the client's connections point after the nodes have changed.
use sd_projeto.Base.{ℤ, ◌≡◌, refl, ◌∙◌, true, List, Option, some, ok}
use sd_projeto.CString.{CString}
use sd_projeto.CString.Order.{strcmp-cases, less, same, greater, eq_of_strcmp}
use sd_projeto.Stub.{Rtable}
use sd_projeto.Chain.{children_abs_zpaths}
use sd_projeto.Address.{target}
use sd_projeto.NetworkClient.{Os, Link, rtable_disconnect, connect_to, rtable_connect-target}
use sd_projeto.Endpoints.{
  head_of, tail_of, Ends, server_addr, moved, with_head, with_tail, moved_head, moved_tail,
  client_watch_children,
}

-- The node has an address, which can be read.
abbrev pub HasAddress : (CString → Option CString) → CString → Type 0
HasAddress zoo_get path =
    (addr : CString) × (place : CString × ℤ) × ((zoo_get path ≡ some addr)
      × (target (some addr) ≡ ok (some place)))

module _ {S : Type 0} (os : Os S) (zoo_get : CString → Option CString) (garbage : ℤ) where
  moved-returns :
      (path : CString)
      → HasAddress zoo_get path
      → (rtable : Option Rtable) (link : Link S)
      → (r : Option Rtable × Link S) × (moved os zoo_get garbage path rtable link ≡ ok r)
  unfolding moved server_addr
  moved-returns path (addr, place, (e, h)) rtable link = (
    connect_to os place garbage (rtable_disconnect os rtable link).1,
    rw e (rtable_connect-target os addr place garbage _ h),
  )

  moved_head-returns :
      (path : CString)
      → HasAddress zoo_get path
      → (ends : Ends S)
      → (ends' : Ends S) × (moved_head os zoo_get garbage path ends ≡ ok ends')
        × ((ends'.head_path ≡ path) × (ends'.tail_path ≡ ends.tail_path))
  unfolding moved_head with_head
  moved_head-returns path address ends =
      let (r, m) =
        moved-returns path address ends.rtable_head
          (record { connected = ends.connected_to_head; system = ends.system }) in
      elim (strcmp-cases ends.head_path path) [
        | same e ↦ (ends, rw e refl, (eq_of_strcmp ends.head_path path e, refl))
        | less e ↦ (with_head os zoo_get garbage path ends r, rw (e, m) refl, (refl, refl))
        | greater e ↦ (with_head os zoo_get garbage path ends r, rw (e, m) refl, (refl, refl))
      ]

  moved_tail-returns :
      (path : CString)
      → HasAddress zoo_get path
      → (ends : Ends S)
      → (ends' : Ends S) × (moved_tail os zoo_get garbage path ends ≡ ok ends')
        × ((ends'.tail_path ≡ path) × (ends'.head_path ≡ ends.head_path))
  unfolding moved_tail with_tail
  moved_tail-returns path address ends =
      let (r, m) =
        moved-returns path address ends.rtable_tail
          (record { connected = ends.connected_to_tail; system = ends.system }) in
      elim (strcmp-cases ends.tail_path path) [
        | same e ↦ (ends, rw e refl, (eq_of_strcmp ends.tail_path path e, refl))
        | less e ↦ (with_tail os zoo_get garbage path ends r, rw (e, m) refl, (refl, refl))
        | greater e ↦ (with_tail os zoo_get garbage path ends r, rw (e, m) refl, (refl, refl))
      ]

  -- When the nodes have changed, and the nodes found as head and tail have addresses that can be
  -- read, the callback of the client returns, and its paths of the head and of the tail are those
  -- that the searches find.
  pub client_watch_children-ends :
      (children : List CString) (ends : Ends S)
      → let paths = children_abs_zpaths children in
        HasAddress zoo_get (head_of paths)
        → HasAddress zoo_get (tail_of paths)
        → (ends' : Ends S) × (client_watch_children os zoo_get garbage true (some children) ends
            ≡ ok ends')
          × ((ends'.head_path ≡ head_of paths) × (ends'.tail_path ≡ tail_of paths))
  unfolding client_watch_children
  client_watch_children-ends children ends head_address tail_address =
      let paths = children_abs_zpaths children in
      let (first, e, (h, _)) = moved_head-returns (head_of paths) head_address ends in
      let (both, f, (t, kept)) = moved_tail-returns (tail_of paths) tail_address first in
      (both, rw e f, (kept ∙ h, t))
