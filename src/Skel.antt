-- ===== src/Skel.antt =====
-- source/table_skel.c with its headers: the server carries out requests. The state is that of the
-- global `resources` (include/table_server-private.h), whose table is the one that `invoke` is
-- called with. The two readings of the clock are arguments, and so is what lies behind the
-- connection to the next server of the chain (see Stub).
pub mod Sections
pub mod Invoke
use sd_projeto.Base.{
  ℕ, ◌+◌, ◌*◌, ℤ, pos, minus_one, ◌+ℤ◌, ◌-ℤ◌, ◌==ℤ◌, leb_ℤ, to_int, to_unsigned, pos_part, ◌==◌,
  Bool, true, false, ◌&&◌, ◌||◌, not, List, [], ◌∷◌, Option, none, some, is_some, Run, ok, fault,
  null_pointer, ◌>>=◌, ◌>>◌, deref, at, write, memcpy, replicate, Flow, go, return, for_range,
  if◌then◌else◌, zero, suc,
}
use sd_projeto.CString.{CString, strcmp}
use sd_projeto.Data.{Bytes, Data, data_create}
use sd_projeto.Entry.{Entry, entry_create}
use sd_projeto.EntryList.{KeyArray}
use sd_projeto.Table.{
  Table, EntryArray, table_create, table_destroy, table_put, table_get, table_remove, table_size,
  table_get_keys, table_get_entries,
}
use sd_projeto.Mutex.{Locks, enter_read, exit_read, enter_write, exit_write}
use sd_projeto.Stats.{Statistics, acquire, increase_operations, increase_time}
use sd_projeto.Message.{MessageT, EntryT, Binary}
use sd_projeto.Message.Opcode
use sd_projeto.Message.CType
use sd_projeto.Stub.{Rtable, size_of, rtable_put, rtable_del}

-- `server_resources`, without the handle of ZooKeeper and the own path
pub record Server : Type 0 where
  pub table : Option Table
  pub global_stats : Option Statistics
  pub table_locks : Locks
  pub stats_locks : Locks
  pub next_server_rtable : Option Rtable
  pub next_server_node_path : CString

unfoldable pub table_skel_init : ℤ → Run (Option Table)
table_skel_init n_lists = table_create n_lists

unfoldable pub table_skel_destroy : Option Table → Run ℤ
table_skel_destroy table = table_destroy table

-- `struct timeval`
pub record TimeVal : Type 0 where
  pub tv_sec : ℕ
  pub tv_usec : ℕ

unfoldable pub return_time : TimeVal → ℤ
return_time tv = to_int (tv.tv_usec + tv.tv_sec * 1000000)

unfoldable pub respond_bad_op : MessageT → MessageT
respond_bad_op msg = record msg { opcode = Opcode.bad; c_type = CType.bad }

unfoldable pub respond_err_in_exec : MessageT → MessageT
respond_err_in_exec msg = record msg { opcode = Opcode.error; c_type = CType.nothing }

-- `timeend - timestart`
unfoldable pub elapsed : TimeVal → TimeVal → ℤ
elapsed timestart timeend = return_time timeend -ℤ return_time timestart

-- What `invoke` leaves: its result, the message, the server, and what is behind the connection.
pub record Outcome (W : Type 0) : Type 0 where
  pub res : ℤ
  pub msg : MessageT
  pub server : Server
  pub world : W

-- Work on the table between `enter_write` and `exit_write`, counted and timed.
unfoldable pub under_write :
    {A : Type 0} → ℤ → (Option Table → Run (A × Option Table)) → Server → Run (A × Server)
under_write time body server = do
  held ← acquire (enter_write server.table_locks)
  stats ← deref server.global_stats
  (stats', stats_locks) ← increase_operations stats server.stats_locks
  (a, table) ← body server.table
  (stats'', stats_locks') ← increase_time stats' stats_locks time
  ok (
    a,
    record server {
      table = table;
      global_stats = some stats'';
      table_locks = (exit_write held).0;
      stats_locks = stats_locks';
    },
  )

-- Between `enter_read` and `exit_read`.
unfoldable pub under_read : {A : Type 0} → ℤ → (Option Table → Run A) → Server → Run (A × Server)
under_read time body server = do
  held ← acquire (enter_read server.table_locks)
  stats ← deref server.global_stats
  (stats', stats_locks) ← increase_operations stats server.stats_locks
  a ← body server.table
  (stats'', stats_locks') ← increase_time stats' stats_locks time
  ok (
    a,
    record server {
      global_stats = some stats'';
      table_locks = (exit_read held).0;
      stats_locks = stats_locks';
    },
  )

-- `memcpy` of `n` bytes; of none, no address is read.
pub copy_bytes : Option Bytes → ℕ → Run Bytes
copy_bytes none zero = ok []
copy_bytes none (suc n) = fault null_pointer
copy_bytes (some src) n = memcpy src n

-- `strcmp(resources.next_server_node_path, "") != 0`
unfoldable pub has_next : Server → Bool
has_next server = not (strcmp server.next_server_node_path [] ==ℤ pos 0)

-- The answer of a successful call carries the next opcode.
pub finish : {W : Type 0} → Outcome W → Outcome W
finish o =
    if leb_ℤ (pos 0) o.res then record o { msg = record o.msg { opcode = o.msg.opcode + 1 } } else o
