-- ===== src/Skel/Invoke/Reads.antt =====
-- What the server answers to the requests that read: the contents of the map that it holds.
use mathlib.Core.Option
use sd_projeto.Base.{Run, ◌+◌, ◌≡◌, refl, ap, ℤ, pos, Option, none, some, ok, ◌>>=◌, length}
use sd_projeto.CString.{CString}
use sd_projeto.Data.{Bytes}
use sd_projeto.Data.Copies.{data_of}
use sd_projeto.Message.{MessageT}
use sd_projeto.Message.Opcode
use sd_projeto.Message.CType
use sd_projeto.Table.{table_get}
use sd_projeto.Table.Methods.{Map, table_get-Models}
use sd_projeto.Mutex.Free.{read_over, enter_read-IsFree}
use sd_projeto.Stub.{Rtable, size_of}
use sd_projeto.Stub.Requests.{binary_of, memcpy-all}
use sd_projeto.Skel.{Server, Outcome, copy_bytes, finish}
use sd_projeto.Skel.Invoke.{get_outcome, get_key, stats_outcome, invoke_stats, invoke}
use sd_projeto.Skel.Invoke.Dispatch.{dispatch-get, dispatch-stats}
use sd_projeto.Skel.Sections.{Ready, read_done, under_read-ok}

-- the answer to `msg` when the key holds `w`
abbrev pub got : MessageT → Option Bytes → MessageT
got msg none = record msg { opcode = msg.opcode + 1; value = record msg.value { content = none } }
got msg (some v) = record msg { opcode = msg.opcode + 1; value = binary_of v; c_type = CType.value }

pub copy_bytes-all : (v : Bytes) → copy_bytes (some v) (length v) ≡ ok v
unfolding copy_bytes
copy_bytes-all v = memcpy-all v

module _ {W : Type 0} (exchange : Rtable → MessageT → Run (Option MessageT × W)) (world : W)
    (time : ℤ) (msg : MessageT) {server : Server} {f : Map} (r : Ready f server) where
  open r use {stats, models, table, its_table, stats_free, its_stats}

  -- what a request that only read leaves
  abbrev pub read_outcome : MessageT → Outcome W
  read_outcome msg' = record {
    res = pos 0;
    msg = msg';
    server = read_done time stats server;
    world = world;
  }

  get_outcome-got :
      (w : Option Bytes)
      → (get_outcome exchange world time msg server
            (Option.map data_of w)
            (read_done time stats server)
          >>= λ o. ok (finish o))
        ≡ ok (read_outcome (got msg w))
  unfolding get_outcome finish size_of
  get_outcome-got none = refl
  get_outcome-got (some v) = rw copy_bytes-all

  -- A get of a key from a server that holds the map f and whose locks are free answers 0 with the
  -- bytes of f at the key, or with no bytes if f has none, and the operation is counted and timed.
  pub invoke-get :
      (k : CString)
      → msg.opcode ≡ Opcode.get
      → msg.key ≡ some k
      → invoke exchange world time msg server ≡ ok (read_outcome (got msg (f k)))
  unfolding invoke get_key
  invoke-get k op key =
      rw
        (
          dispatch-get exchange world time msg server op,
          ap (get_key exchange world time msg server) key,
        )
        (rw
          (under_read-ok r time (λ t. table_get t (some k)) (Option.map data_of (f k))
            (table_get-Models models k))
          (get_outcome-got (f k)))

  -- A stats request to a server whose locks are free answers with its counters, under the lock of
  -- the counters alone, and counts no operation.
  pub invoke-stats :
      msg.opcode ≡ Opcode.stats
      → invoke exchange world time msg server
        ≡ ok (record {
          res = pos 0;
          msg = record msg { opcode = msg.opcode + 1; stats = some stats; c_type = CType.stats };
          server = record server { stats_locks = read_over server.stats_locks };
          world = world;
        })
  unfolding invoke invoke_stats stats_outcome finish
  invoke-stats op =
      rw (dispatch-stats exchange world time msg server op, enter_read-IsFree stats_free)
        (ap
          (λ g. ok (
            finish (
              stats_outcome exchange world time msg server g
                (record server { stats_locks = read_over server.stats_locks }))))
          its_stats)
