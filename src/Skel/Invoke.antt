-- ===== src/Skel/Invoke.antt =====
-- `invoke` of source/table_skel.c: one part for each operation, as the `switch` has its cases. The
-- answer is written into the message of the request.
mod Dispatch
pub mod Reads
pub mod Listings
pub mod Writes
pub mod Malformed
use sd_projeto.Base.{
  ℕ, ◌+◌, ◌*◌, ℤ, pos, minus_one, ◌+ℤ◌, ◌-ℤ◌, ◌==ℤ◌, leb_ℤ, to_int, to_unsigned, pos_part, ◌==◌,
  Bool, true, false, ◌&&◌, ◌||◌, not, List, [], ◌∷◌, Option, none, some, is_some, Run, ok, fault,
  null_pointer, ◌>>=◌, ◌>>◌, deref, at, write, memcpy, replicate, Flow, go, return, for_range,
  if◌then◌else◌, zero, suc,
}
use sd_projeto.CString.{CString, strcmp}
use sd_projeto.Data.{Bytes, Data, data_create}
use sd_projeto.Entry.{Entry, entry_create}
use sd_projeto.EntryList.{KeyArray}
use sd_projeto.Table.{
  Table, EntryArray, table_create, table_destroy, table_put, table_get, table_remove, table_size,
  table_get_keys, table_get_entries,
}
use sd_projeto.Mutex.{Locks, enter_read, exit_read, enter_write, exit_write}
use sd_projeto.Stats.{Statistics, acquire, increase_operations, increase_time}
use sd_projeto.Message.{MessageT, EntryT, Binary}
use sd_projeto.Message.Opcode
use sd_projeto.Message.CType
use sd_projeto.Stub.{Rtable, size_of, rtable_put, rtable_del}
use sd_projeto.Skel.{
  Server, Outcome, respond_bad_op, respond_err_in_exec, under_write, under_read, copy_bytes,
  has_next, finish,
}

copy_entry : EntryArray → ℕ → List (Option EntryT) → Run (Flow (List (Option EntryT)) (Unit {0}))
copy_entry old_entries i entries = do
  place ← at old_entries i
  old ← deref place
  key ← deref old.key
  d ← deref old.value
  len ← size_of d.datasize
  copy ← copy_bytes d.content len
  entries' ←
      write entries i
        (some (record { key = some key; value = record { len = len; content = some copy } }))
  ok (go entries')

module _ {W : Type 0} (exchange : Rtable → MessageT → Run (Option MessageT × W)) (world : W)
    (time : ℤ) (msg : MessageT) (server : Server) where
  bad_op : Outcome W
  bad_op = record { res = minus_one; msg = respond_bad_op msg; server = server; world = world }

  replicate_put : Option Entry → Run W
  replicate_put dup_entry = if not (has_next server) then ok world else do
    entry ← deref dup_entry
    (ret, world') ← rtable_put exchange world server.next_server_rtable entry
    ok world'

  replicate_del : CString → Run W
  replicate_del key =
      if not (has_next server)
      then ok world
      else do (ret, world') ← rtable_del exchange world server.next_server_rtable key; ok world'

  -- between `enter_write` and `exit_write`
  put_locked : CString → Option Data → Option Entry → Option Table → Run ((ℤ × W) × Option Table)
  put_locked key dup_value dup_entry table = do
    (res, table') ← table_put table (some key) dup_value
    world' ← replicate_put dup_entry
    ok ((res, world'), table')

  put_outcome : ℤ → Server → W → Outcome W
  put_outcome res server' world' = record {
    res = res;
    msg = if res ==ℤ pos 0 then record msg { c_type = CType.nothing } else respond_err_in_exec msg;
    server = server';
    world = world';
  }

  pub put_entry : EntryT → Run (Outcome W)
  put_entry entry = do
    let entry_size = to_int entry.value.len
    size ← size_of entry_size
    v ← copy_bytes entry.value.content size
    key ← deref entry.key
    let dup_value = data_create entry_size (some v)
    let dup_entry = entry_create (some key) dup_value
    if entry_size ==ℤ pos 0 || not (is_some dup_value) || not (is_some dup_entry)
        then ok bad_op
        else do
          ((res, world'), server') ← under_write time (put_locked key dup_value dup_entry) server
          ok (put_outcome res server' world')

  pub invoke_put : Run (Outcome W)
  invoke_put = do entry ← deref msg.entry; put_entry entry

  get_outcome : Option Data → Server → Run (Outcome W)
  get_outcome none server' = ok (record {
    res = pos 0;
    msg = record msg { value = record msg.value { content = none } };
    server = server';
    world = world;
  })
  get_outcome (some d) server' = do
    len ← size_of d.datasize
    copy ← copy_bytes d.content len
    ok (record {
      res = pos 0;
      msg = record msg { value = record { len = len; content = some copy }; c_type = CType.value };
      server = server';
      world = world;
    })

  pub get_key : Option CString → Run (Outcome W)
  get_key none = ok bad_op
  get_key (some key) = do
    (gotten, server') ← under_read time (λ table. table_get table (some key)) server
    get_outcome gotten server'

  del_locked : CString → Option Table → Run ((ℤ × W) × Option Table)
  del_locked key table = do
    (res, table') ← table_remove table (some key)
    world' ← replicate_del key
    ok ((res, world'), table')

  del_outcome : ℤ → Server → W → Outcome W
  del_outcome res server' world' = record {
    res = res;
    msg =
        if res ==ℤ pos 0
        then record msg { c_type = CType.nothing }
        else if res ==ℤ pos 1
        then record msg { c_type = CType.bad }
        else respond_err_in_exec msg;
    server = server';
    world = world';
  }

  pub del_key : Option CString → Run (Outcome W)
  del_key none = ok bad_op
  del_key (some key) = do
    ((res, world'), server') ← under_write time (del_locked key) server
    ok (del_outcome res server' world')

  size_outcome : ℤ → Server → Outcome W
  size_outcome res server' = record {
    res = res;
    msg =
        if leb_ℤ (pos 0) res
        then record msg { result = res; c_type = CType.result }
        else respond_err_in_exec msg;
    server = server';
    world = world;
  }

  pub invoke_size : Run (Outcome W)
  invoke_size = do (res, server') ← under_read time table_size server; ok (size_outcome res server')

  -- The size is read again, after the lock is left.
  keys_outcome : Option KeyArray → Server → Run (Outcome W)
  keys_outcome none server' =
      ok
        (record { res = minus_one; msg = respond_err_in_exec msg; server = server'; world = world })
  keys_outcome (some keys) server' = do
    size ← table_size server'.table
    ok (record {
      res = pos 0;
      msg = record msg { n_keys = to_unsigned size; keys = some keys; c_type = CType.keys };
      server = server';
      world = world;
    })

  pub invoke_getkeys : Run (Outcome W)
  invoke_getkeys = do
    (keys, server') ← under_read time table_get_keys server
    keys_outcome keys server'

  table_outcome : ℤ → Server → Flow (List (Option EntryT)) (Unit {0}) → Outcome W
  table_outcome tab_size server' (return u) = record {
    res = minus_one;
    msg = respond_err_in_exec msg;
    server = server';
    world = world;
  }
  table_outcome tab_size server' (go entries) = record {
    res = pos 0;
    msg = record msg {
      n_entries = to_unsigned tab_size;
      entries = some entries;
      c_type = CType.table;
    };
    server = server';
    world = world;
  }

  copy_entries : ℤ → Server → Option EntryArray → Run (Outcome W)
  copy_entries tab_size server' none = ok (table_outcome tab_size server' (return tt))
  copy_entries tab_size server' (some old_entries) = do
    entries ←
        for_range (pos_part tab_size) 0 (copy_entry old_entries)
          (replicate (pos_part (tab_size +ℤ pos 1)) none)
    ok (table_outcome tab_size server' entries)

  -- The entries are read after the lock is left.
  pub invoke_gettable : Run (Outcome W)
  invoke_gettable = do
    (tab_size, server') ← under_read time table_size server
    old_entries ← table_get_entries server'.table
    copy_entries tab_size server' old_entries

  stats_outcome : Option Statistics → Server → Outcome W
  stats_outcome none server' = record {
    res = minus_one;
    msg = respond_err_in_exec msg;
    server = server';
    world = world;
  }
  stats_outcome (some stats) server' = record {
    res = pos 0;
    msg = record msg { stats = some stats; c_type = CType.stats };
    server = server';
    world = world;
  }

  pub invoke_stats : Run (Outcome W)
  invoke_stats = do
    held ← acquire (enter_read server.stats_locks)
    ok (stats_outcome server.global_stats (record server { stats_locks = (exit_read held).0 }))

  -- An opcode of no request.
  no_op : Outcome W
  no_op = record { res = minus_one; msg = msg; server = server; world = world }

  pub dispatch : Run (Outcome W)
  dispatch =
      if msg.opcode == Opcode.put
      then invoke_put
      else if msg.opcode == Opcode.get
      then get_key msg.key
      else if msg.opcode == Opcode.del
      then del_key msg.key
      else if msg.opcode == Opcode.size
      then invoke_size
      else if msg.opcode == Opcode.getkeys
      then invoke_getkeys
      else if msg.opcode == Opcode.gettable
      then invoke_gettable
      else if msg.opcode == Opcode.stats
      then invoke_stats
      else ok no_op

  pub invoke : Run (Outcome W)
  invoke = do o ← dispatch; ok (finish o)
