-- ===== src/Replicas.antt =====
-- A chain of servers: source/table_skel.c passes each write on through source/client_stub.c, and
-- source/server_thread.c answers on the other side. The servers stand in the order of the chain,
-- each with its address; what a connection of a server reaches is searched in the rest of the list, and
-- what one of a client reaches in the whole of it. A client
-- writes to the first server, the head, and reads from the last one, the tail
-- (source/table_client.c).
pub mod Writes
pub mod History
pub mod Typed
use sd_projeto.Base.{
  pos, ◌==ℤ◌, Bool, ◌&&◌, if◌then◌else◌, ℤ, List, [], ◌∷◌, Option, none, some, Run, ok, ◌>>=◌,
}
use sd_projeto.CString.{CString, strcmp}
use sd_projeto.Data.{Bytes, Data}
use sd_projeto.Entry.Order.{entry_of}
use sd_projeto.Message.{MessageT}
use sd_projeto.Stub.{Rtable, rtable_put, rtable_get, rtable_del}
use sd_projeto.Skel.{Server}
use sd_projeto.Serve.{ask}

-- A server and the address that it listens at.
pub record Replica : Type 0 where
  pub address : CString × ℤ
  pub server : Server

-- A connection reaches the server that listens at its address.
unfoldable pub reaches : Rtable → CString × ℤ → Bool
reaches rtable (server_address, server_port) =
    strcmp rtable.server_address server_address ==ℤ pos 0 && rtable.server_port ==ℤ server_port

module _ (pack : MessageT → Bytes) (unpack : Bytes → Option MessageT) (time : ℤ) where
  joined :
      Replica → Option MessageT × (Server × List Replica) → Run (Option MessageT × List Replica)
  joined replica (answer, (server, rest)) = ok (answer, record replica { server = server } ∷ rest)

  passed_by : Replica → Option MessageT × List Replica → Run (Option MessageT × List Replica)
  passed_by replica (answer, rest) = ok (answer, replica ∷ rest)

  -- The exchange of a message with the server that the connection reaches, which is connected in
  -- turn to one behind it. Where nobody listens there is no answer.
  pub chain_ask : List Replica → Rtable → MessageT → Run (Option MessageT × List Replica)
  chain_ask [] rtable msg = ok (none, [])
  chain_ask (replica ∷ rest) rtable msg =
      if reaches rtable replica.address
      then (ask pack unpack (chain_ask rest) time (replica.server, rest) rtable msg
          >>= joined replica)
      else (chain_ask rest rtable msg >>= passed_by replica)

-- What a client does to the head.
pub data Write : Type 0 where
  put : CString → Bytes → Write
  del : CString → Write

module _ (pack : MessageT → Bytes) (unpack : Bytes → Option MessageT) (time : ℤ) where
  pub write_head : Rtable → Write → List Replica → Run (ℤ × List Replica)
  write_head rtable (put k v) replicas =
      rtable_put (chain_ask pack unpack time replicas) replicas (some rtable) (entry_of (k, v))
  write_head rtable (del k) replicas =
      rtable_del (chain_ask pack unpack time replicas) replicas (some rtable) k

  -- One after the other; what is left are the servers.
  pub write_all : Rtable → List Write → List Replica → Run (List Replica)
  write_all rtable [] replicas = ok replicas
  write_all rtable (w ∷ ws) replicas = do
    (ret, replicas') ← write_head rtable w replicas
    write_all rtable ws replicas'

  -- A client gets a key over its connection to the tail.
  pub read_tail : Rtable → CString → List Replica → Run (Option Data)
  read_tail rtable k replicas = do
    (d, left) ← rtable_get (chain_ask pack unpack time replicas) replicas (some rtable) k
    ok d
