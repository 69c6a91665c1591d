-- ===== src/Serve/Connection/Clients.antt =====
-- The count of clients over a whole connection.
use sd_projeto.Base.{ℕ, Bool, ◌≡◌, ℤ, ◌+ℤ◌, List, Option, some, ok, length}
use sd_projeto.Message.{MessageT}
use sd_projeto.Mutex.Free.{write_over}
use sd_projeto.Stats.{Statistics}
use sd_projeto.Stub.{Rtable}
use sd_projeto.Table.Methods.{Map}
use sd_projeto.Skel.{Server}
use sd_projeto.Serve.{plain, serve_conn}
use sd_projeto.Skel.Invoke.Malformed.{Malformed}
use sd_projeto.Serve.Connection.{Call, effects, Serving}

-- the server after the count of clients has changed
abbrev recounted : ℤ → Statistics → Server → Server
recounted value stats server = record server {
  global_stats = some (record stats { n_clientes = stats.n_clientes +ℤ value });
  stats_locks = write_over server.stats_locks;
}

module _ {W : Type 0} (exchange : Rtable → MessageT → Option MessageT × W) (time : ℤ)
    (next : Option Rtable) where
  -- The connection ends with an answer to each call, this many closings of its descriptor, and what
  -- the calls make of the map.
  abbrev pub EndsWith : Bool → ℕ → Map → List Call → ℤ → List (MessageT × ℤ) → Server × W → Type 0
  EndsWith terminated closes f cs n requests s =
      (answers : List MessageT) × (server' : Server) × (world' : W) × (serve_conn (plain exchange)
          time terminated requests s
        ≡ ok ((answers, closes), (server', world')))
      × ((length answers ≡ length cs) × Serving (effects f cs) next n server')
