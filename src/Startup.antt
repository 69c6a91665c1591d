-- ===== src/Startup.antt =====
-- `main` of source/table_server.c: a server makes its resources, waits for ZooKeeper, copies the table
-- of the last server of the chain, registers itself, and serves. What the system and ZooKeeper answer
-- are arguments.
pub mod Main
use sd_projeto.Base.{
  ℤ, pos, minus_one, ◌==ℤ◌, to_unsigned, Bool, true, false, not, ◌||◌, List, [], ◌∷◌, Option, none,
  some, Run, ok, ◌>>=◌, deref, if◌then◌else◌,
}
use sd_projeto.CString.{CString}
use sd_projeto.Message.{MessageT}
use sd_projeto.Stub.{Rtable}
use sd_projeto.Skel.{Server}
use sd_projeto.Framing.{to_short}
use sd_projeto.Address.{strtol, int_of_long, ServerAddress, interpret_addr, destory_addr_struct}
use sd_projeto.Chain.{children_abs_zpaths, dup_table_from_server}
use sd_projeto.Endpoints.{find_tail}
use sd_projeto.Resources.{init_server_resources, destroy_server_resources}
use sd_projeto.NetworkServer.{Round, Event, network_main_loop}

-- What `calloc` leaves.
no_address : ServerAddress
no_address = record { addr_str = none; ip = none; port = pos 0 }

-- Before the server waits for ZooKeeper.
pub record Setup : Type 0 where
  pub server : Server
  pub my_server_addr : ServerAddress
  pub sockfd : ℤ

-- The address is used whether it could be read or not. `open_socket` is `network_server_init`, which
-- takes the port as a `short`.
with_resources : (open_socket : ℤ → ℤ) → CString → Option Server → Run (Option Setup)
with_resources open_socket my_addr none = ok none
with_resources open_socket my_addr (some server) = do
  (ret, address) ← interpret_addr (some my_addr) no_address
  let sockfd = open_socket (to_short (to_unsigned address.port))
  let setup : Setup = record { server = server; my_server_addr = address; sockfd = sockfd }
  ok (if sockfd ==ℤ minus_one then none else some setup)

-- None if `main` returns -1.
pub set_up : (open_socket : ℤ → ℤ) → (n_lists : ℤ) → (my_addr : CString) → Run (Option Setup)
set_up open_socket n_lists my_addr = do
  (ret, server) ← init_server_resources n_lists
  with_resources open_socket my_addr server

-- One round of the loop that waits: whether ZooKeeper is connected, whether the root node exists or
-- can be created, and its children, if they can be listed.
pub record Attempt : Type 0 where
  pub connected_to_zk : Bool
  pub root_exists : Bool
  pub root_created : Bool
  pub children : Option (List CString)

-- The loop goes on after the last attempt, the program exits, or the children are known.
pub data Waited : Type 0 where
  waiting exits : Waited
  listed : List CString → Waited

after_listing : Option (List CString) → Waited → Waited
after_listing none later = later
after_listing (some children) later = listed children

pub wait : List Attempt → Waited
wait [] = waiting
wait (attempt ∷ attempts) =
    let later = wait attempts in
    if not attempt.connected_to_zk
    then later
    else if attempt.root_exists || attempt.root_created
    then after_listing attempt.children later
    else exits

-- How `main` ends: it never does, it returns or exits with a status before it serves, or it returns
-- after it has served; then with the address and the path of its node.
pub data Ending (W : Type 0) : Type 0 where
  waits : Ending W
  ends_with : ℤ → Ending W
  serves : ℤ → (address : CString) → (this_node_path : CString) → List Event → W → Ending W

module _ {W : Type 0} (zoo_get : CString → Option CString) (connect : CString → Option Rtable)
    (exchange : W → Rtable → MessageT → Run (Option MessageT × W)) where
  -- The result of the copy is not tested.
  copy_from : Option CString → Server → W → Run (Option (Server × W))
  copy_from none server world = ok none
  copy_from (some last_node_addr) server world = do
    ((ret, table), world') ←
        dup_table_from_server exchange (connect last_node_addr) world server.table
    ok (some (record server { table = table }, world'))

  -- The table of the last node, if there is one; none if `main` returns -1. `unset` is what `malloc`
  -- leaves in the path.
  pub take_table :
      (unset : CString) → (children : List CString) → Server → W → Run (Option (Server × W))
  take_table unset [] server world = ok (some (server, world))
  take_table unset (child ∷ children) server world =
      copy_from (zoo_get (find_tail unset (children_abs_zpaths (child ∷ children)))) server world

  -- Registering, the loop of the server, and the end. `created_node_path` is none if `zoo_create`
  -- fails; `threads` is what the connections make of the server while the loop runs.
  registered :
      Setup
      → (created_node_path : Option CString) → List Round
      → (threads : Server × W → Server × W) → Option (Server × W)
      → Run (Ending W)
  registered setup created_node_path rounds threads none = ok (ends_with minus_one)
  registered setup created_node_path rounds threads (some (server, world)) = do
    addr_str ← deref setup.my_server_addr.addr_str
    elim created_node_path [
      | none ↦ ok (ends_with (pos 1))
      | some path ↦ do
        (ret_net, log) ← network_main_loop rounds
        let (server', world') = threads (server, world)
        ret ← destroy_server_resources server'
        let freed = destory_addr_struct (some setup.my_server_addr)
        ok (serves ret_net addr_str path log world')
    ]

  entered :
      (unset : CString)
      → Setup
      → (created_node_path : Option CString) → List Round
      → (threads : Server × W → Server × W) → W
      → Waited
      → Run (Ending W)
  entered unset setup created_node_path rounds threads world waiting = ok waits
  entered unset setup created_node_path rounds threads world exits = ok (ends_with (pos 1))
  entered unset setup created_node_path rounds threads world (listed children) =
      take_table unset children setup.server world
      >>= registered setup created_node_path rounds threads

  started :
      (unset : CString)
      → (created_node_path : Option CString) → List Round
      → (threads : Server × W → Server × W) → List Attempt
      → W
      → Option Setup
      → Run (Ending W)
  started unset created_node_path rounds threads attempts world none = ok (ends_with minus_one)
  started unset created_node_path rounds threads attempts world (some setup) =
      entered unset setup created_node_path rounds threads world (wait attempts)

  pub server_main :
      (open_socket : ℤ → ℤ)
      → (n_lists : ℤ) → (my_addr : CString) → (unset : CString)
      → (created_node_path : Option CString) → List Round
      → (threads : Server × W → Server × W) → List Attempt
      → W
      → Run (Ending W)
  server_main open_socket n_lists my_addr unset created_node_path rounds threads attempts world =
      set_up open_socket n_lists my_addr
      >>= started unset created_node_path rounds threads attempts world

  -- `main` with the arguments that it is started with, the name of the program first. `exit(-1)` is
  -- the end without them.
  pub server_program :
      (argv : List CString)
      → (open_socket : ℤ → ℤ) → (unset : CString) → (created_node_path : Option CString)
      → List Round
      → (threads : Server × W → Server × W) → List Attempt
      → W
      → Run (Ending W)
  server_program (program ∷ zk_addr ∷ n_lists ∷ my_addr ∷ []) open_socket unset created_node_path
        rounds threads attempts world =
      server_main open_socket (int_of_long (strtol n_lists).0) my_addr unset created_node_path
        rounds threads attempts world
  server_program argv open_socket unset created_node_path rounds threads attempts world =
      ok (ends_with minus_one)
