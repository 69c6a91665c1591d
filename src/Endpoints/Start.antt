-- ===== src/Endpoints/Start.antt =====
-- The start of the client, `main` of source/table_client.c, once ZooKeeper is connected: the first
-- choice of head and tail. The bytes that `zoo_get` writes are taken to end where the data ends.
use sd_projeto.Base.{
  ℕ, ◌*◌, ℤ, Bool, false, List, Option, none, some, Run, ok, fault, uninitialised, ◌>>=◌, length,
  take,
}
use sd_projeto.CString.{CString}
use sd_projeto.Stub.{Rtable}
use sd_projeto.Chain.{children_abs_zpaths}
use sd_projeto.NetworkClient.{Os, Link, rtable_connect}
use sd_projeto.Endpoints.{head_of, tail_of, Ends}

-- The size of a buffer for the data of a node.
abbrev pub zdatalen : ℕ
zdatalen = 1024 * 1024

-- `zoo_get` writes as much of the data as the buffer is said to hold; its result is not tested.
node_address : Option CString → (zoo_data_len : ℕ) → Run CString
node_address none zoo_data_len = fault uninitialised
node_address (some bytes) zoo_data_len = ok (take zoo_data_len bytes)

-- The addresses of head and tail. The first call leaves in `zoo_data_len` how much it wrote, and
-- the second one is made with this.
node_addresses :
    (CString → Option CString) → (head_path tail_path : CString) → Run (CString × CString)
node_addresses zoo_get head_path tail_path = do
  head_server_addr ← node_address (zoo_get head_path) zdatalen
  tail_server_addr ← node_address (zoo_get tail_path) (length head_server_addr)
  ok (head_server_addr, tail_server_addr)

-- The two connections are local variables of `main`; the global ones of the same names stay NULL.
pub record Started (S : Type 0) : Type 0 where
  pub rtable_head : Rtable
  pub rtable_tail : Rtable
  pub ends : Ends S

module _ {S : Type 0} (os : Os S) (zoo_get : CString → Option CString) (garbage : ℤ) where
  -- Without both connections the program exits.
  both_connected :
      (head_path tail_path : CString)
      → Option Rtable
      → (connected_to_head : Bool) → Option Rtable
      → Link S
      → Option (Started S)
  both_connected head_path tail_path (some rtable_head) connected_to_head (some rtable_tail) link =
      some (record {
        rtable_head = rtable_head;
        rtable_tail = rtable_tail;
        ends = record {
          head_path = head_path;
          tail_path = tail_path;
          rtable_head = none;
          rtable_tail = none;
          connected_to_head = connected_to_head;
          connected_to_tail = link.connected;
          system = link.system;
        };
      })
  both_connected head_path tail_path _ connected_to_head _ link = none

  -- `children` is none if `zoo_wget_children` fails.
  pub client_start : (children : Option (List CString)) → S → Run (Option (Started S))
  client_start none s = ok none
  client_start (some children) s = do
    let paths = children_abs_zpaths children
    (head_server_addr, tail_server_addr) ← node_addresses zoo_get (head_of paths) (tail_of paths)
    (head, link) ←
        rtable_connect os (some head_server_addr) garbage (record { connected = false; system = s })
    (tail, link') ←
        rtable_connect os (some tail_server_addr) garbage
          (record { connected = false; system = link.system })
    ok (both_connected (head_of paths) (tail_of paths) head link.connected tail link')
