-- ===== src/Tests/Server.antt =====
-- Examples for the server. The next server of the chain answers nothing, and what lies behind the
-- connection is the list of the requests that it was sent.
use sd_projeto.Base.{
  Run, ◌<◌, ◌^◌, ℕ, ◌≡◌, refl, pos, minus_one, List, [], ◌∷◌, Option, none, some, is_some, ok,
  arith, length, if◌then◌else◌,
}
use sd_projeto.CString.{strcmp}
use sd_projeto.Mutex.{unlocked}
use sd_projeto.Mutex.Free.{IsFree}
use sd_projeto.Stats.{Statistics}
use sd_projeto.Message.{MessageT, message_init}
use sd_projeto.Message.Opcode
use sd_projeto.Message.CType
use sd_projeto.Stub.{Rtable}
use sd_projeto.Stub.Requests.{put_message, del_message, get_message}
use sd_projeto.Table.{Table}
use sd_projeto.Table.Methods.{Models, update}
use sd_projeto.Skel.{Server, has_next}
use sd_projeto.Skel.Sections.{Ready, read_done, write_done}
use sd_projeto.Skel.Invoke.{invoke}
use sd_projeto.Skel.Invoke.Writes.{Linked, invoke-put}
use mathlib.Core.Option
use sd_projeto.Data.{Bytes}
use sd_projeto.Data.Copies.{data_of}
use sd_projeto.Entry.Order.{entry_of}
use sd_projeto.EntryList.Assoc.{lookup}
use sd_projeto.Table.Hash.{hash_code}
use sd_projeto.Table.Rows.{view, home}
use sd_projeto.Stub.{rtable_put, rtable_get, rtable_del}
use sd_projeto.Skel.Invoke.Reads.{got}
use sd_projeto.Serve.{ask}
use sd_projeto.Serve.Transport.{Crosses}
use sd_projeto.Serve.Calls.{
  put_done, del_done, rtable_put-update, rtable_del-update, rtable_get-Ready,
}
use sd_projeto.Tests.{
  key_a, key_b, key_c, stored_table, stored_map, stored-Models, packed, unpacked,
}

abbrev Sent : Type 0
Sent = List MessageT

abbrev exchange : Rtable → MessageT → Run (Option MessageT × Sent)
exchange rtable m = ok (none, m ∷ [])

abbrev counters : Statistics
counters = record { n_clientes = pos 1; n_operacoes = pos 4; total_time = pos 90 }

abbrev next_rtable : Rtable
next_rtable = record { server_address = 49 ∷ []; server_port = pos 9000; sockfd = pos 5 }

abbrev pub server : Server
server = record {
  table = some stored_table;
  global_stats = some counters;
  table_locks = unlocked;
  stats_locks = unlocked;
  next_server_rtable = some next_rtable;
  next_server_node_path = 47 ∷ [];
}

free : IsFree unlocked
free = record { no_writer_waits = refl; no_reader = refl; no_writer = refl }

abbrev server_ready : Ready stored_map server
server_ready = record {
  table = stored_table;
  its_table = refl;
  models = stored-Models;
  stats = counters;
  its_stats = refl;
  table_free = free;
  stats_free = free;
}

linked : Linked (some next_rtable) server
unfolding has_next strcmp
linked = (refl, refl)

invoke-put_example :
    (t : Table) × (invoke exchange [] (pos 3) (put_message key_b (8 ∷ [])) server
      ≡ ok (record {
        res = pos 0;
        msg = record (put_message key_b (8 ∷ [])) { opcode = 11; c_type = CType.nothing };
        server = write_done (pos 3) counters (some t) server;
        world = put_message key_b (8 ∷ []) ∷ [];
      }))
    × Models (update stored_map key_b (some (8 ∷ []))) t
invoke-put_example =
    invoke-put exchange [] (pos 3) (put_message key_b (8 ∷ [])) server server_ready
      (some next_rtable) linked key_b (8 ∷ []) (omega arith) (omega arith) refl refl
      (put_message key_b (8 ∷ []) ∷ []) (none, refl)

abbrev asks : ℕ → MessageT
asks opcode = record message_init { opcode = opcode; c_type = CType.nothing }

abbrev gets_nothing : MessageT
gets_nothing = record message_init { opcode = Opcode.get; c_type = CType.key; key = none }

abbrev puts_b : List MessageT
puts_b = put_message key_b (8 ∷ []) ∷ put_done key_b (8 ∷ []) ∷ []

rtable_put-update_example :
    (t : Table) × (rtable_put
        (ask packed (unpacked puts_b) exchange (pos 3) (server, []))
        (server, [])
        (some next_rtable)
        (entry_of (key_b, 8 ∷ []))
      ≡ ok (pos 0, (write_done (pos 3) counters (some t) server, put_message key_b (8 ∷ []) ∷ [])))
    × Models (update stored_map key_b (some (8 ∷ []))) t
rtable_put-update_example =
    rtable_put-update packed (unpacked puts_b) exchange [] (pos 3) server next_rtable server_ready
      (some next_rtable) linked key_b (8 ∷ []) (omega arith) (omega arith) (refl, omega arith)
      (refl, omega arith) (put_message key_b (8 ∷ []) ∷ []) (none, refl)

abbrev dels_a : List MessageT
dels_a = del_message key_a ∷ del_done key_a (is_some (stored_map key_a)) ∷ []

rtable_del-update_example :
    (t : Table) × (rtable_del
        (ask packed (unpacked dels_a) exchange (pos 3) (server, []))
        (server, [])
        (some next_rtable)
        key_a
      ≡ ok (
        (if is_some (stored_map key_a) then pos 0 else minus_one),
        (write_done (pos 3) counters (some t) server, del_message key_a ∷ []),
      ))
    × Models (update stored_map key_a none) t
rtable_del-update_example =
    rtable_del-update packed (unpacked dels_a) exchange [] (pos 3) server next_rtable server_ready
      (some next_rtable) linked key_a (refl, omega arith) (refl, omega arith)
      (del_message key_a ∷ []) (none, refl)

c_value : stored_map key_c ≡ some (3 ∷ [])
unfolding view lookup home hash_code
c_value = refl

c_small : (v : Bytes) → stored_map key_c ≡ some v → length v < 2 ^ 31
c_small v e = ground (arith, c_value, e)

abbrev gets_c : List MessageT
gets_c = get_message key_c ∷ got (get_message key_c) (stored_map key_c) ∷ []

c_Crosses : Crosses packed (unpacked gets_c) (got (get_message key_c) (stored_map key_c))
unfolding view lookup home hash_code
c_Crosses = (refl, omega arith)

rtable_get-Ready_example :
    rtable_get
      (ask packed (unpacked gets_c) exchange (pos 3) (server, []))
      (server, [])
      (some next_rtable)
      key_c
    ≡ ok (Option.map data_of (stored_map key_c), (read_done (pos 3) counters server, []))
rtable_get-Ready_example =
    rtable_get-Ready packed (unpacked gets_c) exchange [] (pos 3) server next_rtable server_ready
      key_c c_small (refl, omega arith) c_Crosses
