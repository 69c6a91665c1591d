-- ===== src/Chain.antt =====
-- The chain of servers: source/zoo_utils.c, `server_watch_children` of source/server_callbacks.c,
-- which finds the next server, and `dup_table_from_server` of source/table_server.c, which copies
-- the table of another one. What ZooKeeper answers, and what connecting to an address gives, are
-- arguments.
pub mod Successor
pub mod Copy
use sd_projeto.Base.{
  ℕ, ℤ, pos, minus_one, ltb_ℤ, ◌==ℤ◌, pos_part, Bool, true, false, not, ◌&&◌, List, [], ◌∷◌, ◌++◌,
  map, Option, none, some, Run, ok, ◌>>=◌, deref, at, Flow, go, return, for_range, if◌then◌else◌,
}
use sd_projeto.CString.{CString, strcmp}
use sd_projeto.Entry.{Entry}
use sd_projeto.Table.{Table, EntryArray, table_put}
use sd_projeto.Message.{MessageT}
use sd_projeto.Stub.{Rtable, rtable_get_table, rtable_size, rtable_free_entries}
use sd_projeto.Skel.{Server}

-- "/chain"
abbrev pub chain_path : CString
chain_path = 47 ∷ 99 ∷ 104 ∷ 97 ∷ 105 ∷ 110 ∷ []

-- 47 is a slash.
abbrev pub concat_zpath : CString → CString
concat_zpath node = chain_path ++ (47 ∷ node)

unfoldable pub children_abs_zpaths : List CString → List CString
children_abs_zpaths children = map concat_zpath children

-- The first path that is greater than the own one, or the empty string.
unfoldable pub successor : CString → List CString → CString
successor this_node_path [] = []
successor this_node_path (child_path ∷ rest) =
    if ltb_ℤ (strcmp this_node_path child_path) (pos 0)
    then child_path
    else successor this_node_path rest

reconnect : (CString → Option Rtable) → CString → Server → Option CString → Server
reconnect connect new_successor_path server none = server
reconnect connect new_successor_path server (some new_successor_addr) = record server {
  next_server_rtable = connect new_successor_addr;
  next_server_node_path = new_successor_path;
}

-- A disconnected table stays in the field `next_server_rtable`.
change_successor :
    (CString → Option CString) → (CString → Option Rtable) → CString → Server → Server
change_successor zoo_get connect new_successor_path server =
    if strcmp new_successor_path [] ==ℤ pos 0
      && not (strcmp server.next_server_node_path [] ==ℤ pos 0)
    then record server { next_server_node_path = [] }
    else if not (strcmp new_successor_path server.next_server_node_path ==ℤ pos 0)
    then reconnect connect new_successor_path server (zoo_get new_successor_path)
    else server

pub server_watch_children :
    (zoo_get : CString → Option CString) (connect : CString → Option Rtable) (child_event : Bool)
    (children : Option (List CString)) (this_node_path : CString)
    → Server
    → Server
server_watch_children zoo_get connect true (some children) this_node_path server =
    change_successor zoo_get connect (successor this_node_path (children_abs_zpaths children))
      server
server_watch_children zoo_get connect _ _ this_node_path server = server

copy_in : EntryArray → ℕ → Option Table → Run (Flow (Option Table) (ℤ × Option Table))
copy_in entries i table = do
  place ← at entries i
  entry ← deref place
  (ret, table') ← table_put table entry.key entry.value
  ok (if ret ==ℤ minus_one then return (ret, table') else go table')

copied : Flow (Option Table) (ℤ × Option Table) → ℤ × Option Table
copied (go table) = (pos 0, table)
copied (return r) = r

module _ {W : Type 0} (exchange : W → Rtable → MessageT → Run (Option MessageT × W)) where
  copy_entries : Option Rtable → W → Option Table → Option EntryArray → Run ((ℤ × Option Table) × W)
  copy_entries rtable world table none = ok ((minus_one, table), world)
  copy_entries rtable world table (some entries) = do
    (tab_size, world') ← rtable_size (exchange world) world rtable
    if tab_size ==ℤ minus_one then ok ((minus_one, table), world') else do
      f ← for_range (pos_part tab_size) 0 (copy_in entries) table
      freed ← rtable_free_entries entries
      ok (copied f, world')

  -- `rtable` is what `rtable_connect` gave for the address of the other server.
  pub dup_table_from_server : Option Rtable → W → Option Table → Run ((ℤ × Option Table) × W)
  dup_table_from_server none world table = ok ((minus_one, table), world)
  dup_table_from_server (some rtable) world table = do
    (entries, world') ← rtable_get_table (exchange world) world (some rtable)
    copy_entries (some rtable) world' table entries
