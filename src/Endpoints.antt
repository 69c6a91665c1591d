-- ===== src/Endpoints.antt =====
-- The two ends of the chain: the node with the least path and the one with the greatest, as
-- source/table_client.c and source/client_callbacks.c choose them for writes and reads, and as
-- source/table_server.c chooses the server to copy from; and the callback that follows them.
pub mod Extremes
pub mod Moves
pub mod Start
use sd_projeto.Base.{
  ℤ, pos, ltb_ℤ, ◌==ℤ◌, Bool, true, false, not, List, [], ◌∷◌, Option, none, some, Run, ok, fault,
  ◌>>=◌, uninitialised, if◌then◌else◌,
}
use sd_projeto.CString.{CString, strcmp}
use sd_projeto.Stub.{Rtable}
use sd_projeto.Chain.{children_abs_zpaths}
use sd_projeto.NetworkClient.{Os, Link, rtable_connect, rtable_disconnect}

-- A round of the loops: an empty path is replaced by any other.
pub toward_head : CString → CString → CString
toward_head head child_path =
    if strcmp head [] ==ℤ pos 0
    then child_path
    else if ltb_ℤ (pos 0) (strcmp head child_path)
    then child_path
    else head

pub toward_tail : CString → CString → CString
toward_tail tail child_path =
    if strcmp tail [] ==ℤ pos 0
    then child_path
    else if ltb_ℤ (strcmp tail child_path) (pos 0)
    then child_path
    else tail

pub find_head : CString → List CString → CString
find_head head [] = head
find_head head (child_path ∷ rest) = find_head (toward_head head child_path) rest

pub find_tail : CString → List CString → CString
find_tail tail [] = tail
find_tail tail (child_path ∷ rest) = find_tail (toward_tail tail child_path) rest

-- The buffers come from `calloc`: they start as the empty string.
pub head_of : List CString → CString
head_of children = find_head [] children

pub tail_of : List CString → CString
tail_of children = find_tail [] children

-- What the callbacks of a connection to ZooKeeper write into their flag, if they write it.
pub connection_handler : (session_event connected_state : Bool) → Bool → Bool
connection_handler true connected_state connected = connected_state
connection_handler false connected_state connected = connected

-- The variables of source/table_client.c that the callback uses.
pub record Ends (S : Type 0) : Type 0 where
  pub head_path : CString
  pub tail_path : CString
  pub rtable_head : Option Rtable
  pub rtable_tail : Option Rtable
  pub connected_to_head : Bool
  pub connected_to_tail : Bool
  pub system : S

module _ {S : Type 0} (os : Os S) (zoo_get : CString → Option CString) (garbage : ℤ) where
  -- The result of `zoo_get` is not tested: without an address the buffer is used as `malloc` gave it.
  server_addr : Option CString → Run CString
  server_addr none = fault uninitialised
  server_addr (some addr) = ok addr

  -- The old connection is closed, and one to the new node is made.
  pub moved : CString → Option Rtable → Link S → Run (Option Rtable × Link S)
  moved path rtable link = do
    addr ← server_addr (zoo_get path)
    rtable_connect os (some addr) garbage (rtable_disconnect os rtable link).1

  pub with_head : CString → Ends S → Option Rtable × Link S → Ends S
  with_head new_head ends (rtable, link) = record ends {
    head_path = new_head;
    rtable_head = rtable;
    connected_to_head = link.connected;
    system = link.system;
  }

  pub moved_head : CString → Ends S → Run (Ends S)
  moved_head new_head ends =
      if not (strcmp ends.head_path new_head ==ℤ pos 0)
      then moved new_head ends.rtable_head
          (record { connected = ends.connected_to_head; system = ends.system })
        >>= (λ r. ok (with_head new_head ends r))
      else ok ends

  pub with_tail : CString → Ends S → Option Rtable × Link S → Ends S
  with_tail new_tail ends (rtable, link) = record ends {
    tail_path = new_tail;
    rtable_tail = rtable;
    connected_to_tail = link.connected;
    system = link.system;
  }

  pub moved_tail : CString → Ends S → Run (Ends S)
  moved_tail new_tail ends =
      if not (strcmp ends.tail_path new_tail ==ℤ pos 0)
      then moved new_tail ends.rtable_tail
          (record { connected = ends.connected_to_tail; system = ends.system })
        >>= (λ r. ok (with_tail new_tail ends r))
      else ok ends

  -- `children` is none if `zoo_wget_children` fails.
  pub client_watch_children :
      (child_event : Bool) (children : Option (List CString)) → Ends S → Run (Ends S)
  client_watch_children true (some children) ends =
      let paths = children_abs_zpaths children in
      moved_head (head_of paths) ends >>= moved_tail (tail_of paths)
  client_watch_children true none ends = ok ends
  client_watch_children false children ends = ok ends
