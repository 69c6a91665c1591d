-- ===== src/Skel/Invoke/Listings.antt =====
-- What the server answers to the requests for the size, the keys and the whole table.
use sd_projeto.Base.{
  Run, ℕ, ◌+◌, ◌≡◌, ◌++◌, List, [], ◌∷◌, suc, for_range, go, replicate, at-append, write-append,
  length-append, refl, ℤ, pos, Option, none, some, ok, arith, length, to_unsigned, pos_add_one,
}
use sd_projeto.Message.{MessageT, EntryT}
use sd_projeto.Message.Opcode
use sd_projeto.Message.CType
use sd_projeto.EntryList.Assoc.{Assoc}
use sd_projeto.Entry.{Entry}
use sd_projeto.Entry.Order.{entry_of}
use mathlib.Core.List.{append_assoc}
use sd_projeto.EntryList.Keys.{keys_of, array_of}
use sd_projeto.Table.{table_size, table_get_keys}
use sd_projeto.Table.Methods.{Map}
use sd_projeto.Table.Whole.{Graph, Lists, listed, entries_of}
use sd_projeto.Stub.{Rtable, size_of}
use sd_projeto.Stub.Requests.{sent, sent_all}
use sd_projeto.Skel.{Server, Outcome, finish}
use sd_projeto.Skel.Invoke.{
  size_outcome, invoke_size, keys_outcome, invoke_getkeys, table_outcome, copy_entries, copy_entry,
  invoke_gettable, invoke,
}
use sd_projeto.Skel.Invoke.Dispatch.{dispatch-size, dispatch-getkeys, dispatch-gettable}
use sd_projeto.Skel.Invoke.Reads.{read_outcome, copy_bytes-all}
use sd_projeto.Skel.Sections.{Ready, read_done, under_read-ok}

copy_loop :
    (m : Assoc) (pre : List (Option Entry)) (done : List (Option EntryT))
    → length pre ≡ length done
    → for_range
        (length m)
        (length done)
        (copy_entry (pre ++ entries_of m))
        (done ++ replicate (suc (length m)) none)
      ≡ ok (go (done ++ sent_all m))
unfolding for_range copy_entry size_of
copy_loop [] pre done e = refl
copy_loop ((k, v) ∷ m) pre done e =
    rw (← e, at-append pre (some (entry_of (k, v))) (entries_of m))
      (rw
        (
          e,
          copy_bytes-all v,
          write-append done none (some (sent (k, v))) (replicate (suc (length m)) none),
        )
        (rw (length-append, append_assoc, append_assoc, append_assoc) at
          (copy_loop m (pre ++ some (entry_of (k, v)) ∷ []) (done ++ some (sent (k, v)) ∷ [])
            (rw (length-append, length-append, e)))))

module _ {W : Type 0} (exchange : Rtable → MessageT → Run (Option MessageT × W)) (world : W)
    (time : ℤ) (msg : MessageT) {server : Server} {f : Map} (r : Ready f server) where
  open r use {stats, models, table, its_table, stats_free, its_stats}

  abbrev answer_read : MessageT → Outcome W
  answer_read msg' = read_outcome exchange world time msg r msg'

  size_outcome-pos :
      (n : ℕ) (server' : Server)
      → finish (size_outcome exchange world time msg server (pos n) server') ≡ record {
        res = pos n;
        msg = record msg { opcode = msg.opcode + 1; result = pos n; c_type = CType.result };
        server = server';
        world = world;
      }
  unfolding size_outcome finish
  size_outcome-pos n server' = ground arith

  -- the answer to a gettable request, when the table lists `m`
  pub invoke-gettable_of :
      (m : Assoc)
      → Lists table m
      → msg.opcode ≡ Opcode.gettable
      → invoke exchange world time msg server
        ≡ ok (
            answer_read (record msg {
              opcode = msg.opcode + 1;
              n_entries = to_unsigned (pos (length m));
              entries = some (sent_all m);
              c_type = CType.table;
            }))
  unfolding invoke invoke_gettable copy_entries table_outcome finish
  invoke-gettable_of m lists op = rw (
    dispatch-gettable exchange world time msg server op,
    under_read-ok r time table_size (pos (length m)) lists.sizes,
    its_table,
    lists.entries,
    pos_add_one,
    copy_loop m [] [] refl,
  )

  -- and to a size request
  pub invoke-size_of :
      (m : Assoc)
      → Lists table m
      → msg.opcode ≡ Opcode.size
      → invoke exchange world time msg server
        ≡ ok (record {
          res = pos (length m);
          msg = record msg {
            opcode = msg.opcode + 1;
            result = pos (length m);
            c_type = CType.result;
          };
          server = read_done time stats server;
          world = world;
        })
  unfolding invoke invoke_size
  invoke-size_of m lists op = rw (
    dispatch-size exchange world time msg server op,
    under_read-ok r time table_size (pos (length m)) lists.sizes,
    size_outcome-pos,
  )

  -- to a getkeys request
  invoke-getkeys_of :
      (m : Assoc)
      → Lists table m
      → msg.opcode ≡ Opcode.getkeys
      → invoke exchange world time msg server
        ≡ ok (
            answer_read (record msg {
              opcode = msg.opcode + 1;
              n_keys = to_unsigned (pos (length m));
              keys = some (array_of (keys_of m));
              c_type = CType.keys;
            }))
  unfolding invoke invoke_getkeys keys_outcome finish
  invoke-getkeys_of m lists op = rw (
    dispatch-getkeys exchange world time msg server op,
    under_read-ok r time table_get_keys (some (array_of (keys_of m))) lists.keys,
    its_table,
    lists.sizes,
  )

  -- A size request to a server that holds the map f and whose locks are free answers with the
  -- number of pairs of f.
  pub invoke-size :
      msg.opcode ≡ Opcode.size
      → (m : Assoc) × Graph f m
        × (invoke exchange world time msg server
            ≡ ok (record {
              res = pos (length m);
              msg = record msg {
                opcode = msg.opcode + 1;
                result = pos (length m);
                c_type = CType.result;
              };
              server = read_done time stats server;
              world = world;
            }))
  invoke-size op = let (m, graph, lists) = listed models in (m, graph, invoke-size_of m lists op)

  -- A getkeys request to a server that holds the map f and whose locks are free answers with the
  -- keys of f, each once, and their number in 64 bits.
  pub invoke-getkeys :
      msg.opcode ≡ Opcode.getkeys
      → (m : Assoc) × Graph f m
        × (invoke exchange world time msg server
            ≡ ok (
                answer_read (record msg {
                  opcode = msg.opcode + 1;
                  n_keys = to_unsigned (pos (length m));
                  keys = some (array_of (keys_of m));
                  c_type = CType.keys;
                })))
  invoke-getkeys op =
      let (m, graph, lists) = listed models in (m, graph, invoke-getkeys_of m lists op)

  -- A gettable request to a server that holds the map f and whose locks are free answers with
  -- copies of all the pairs of f, each once, and their number in 64 bits.
  pub invoke-gettable :
      msg.opcode ≡ Opcode.gettable
      → (m : Assoc) × Graph f m
        × (invoke exchange world time msg server
            ≡ ok (
                answer_read (record msg {
                  opcode = msg.opcode + 1;
                  n_entries = to_unsigned (pos (length m));
                  entries = some (sent_all m);
                  c_type = CType.table;
                })))
  invoke-gettable op =
      let (m, graph, lists) = listed models in (m, graph, invoke-gettable_of m lists op)
