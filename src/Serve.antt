-- ===== src/Serve.antt =====
-- `serve_conn` of source/server_thread.c: the requests of one connection, one after the other; and the
-- way of one request from a client to a server and back.
pub mod Transport
pub mod Calls
pub mod Tables
pub mod Oversize
pub mod Connection
use sd_projeto.Base.{
  ◌==ℤ◌, ◌||◌, ℕ, suc, Bool, ℤ, pos, minus_one, ltb_ℤ, List, [], ◌∷◌, Option, none, some, Run, ok,
  fault, ◌>>=◌, ◌>>◌, deref, if◌then◌else◌,
}
use sd_projeto.Data.{Bytes}
use sd_projeto.Message.{MessageT}
use sd_projeto.Framing.{message_send_all, message_receive_all}
use sd_projeto.Framing.Stream.{write_stream, read_stream}
use sd_projeto.NetworkServer.{network_receive, network_send}
use sd_projeto.Stats.{Statistics, change_client_num}
use sd_projeto.Stub.{Rtable}
use sd_projeto.Skel.{Server, Outcome}
use sd_projeto.Skel.Invoke.{invoke}

module _ {W : Type 0} (exchange : Rtable → MessageT → Run (Option MessageT × W)) (time : ℤ) where
  pub answer_of : Outcome W → Option MessageT
  answer_of o = if ltb_ℤ o.res (pos 0) then none else some o.msg

  -- One round of the loop, after `network_receive`: the answer that is sent, or none if the
  -- connection is closed, and what is left of the server and of all that lies behind it.
  pub serve_request : MessageT → Server × W → Run (Option MessageT × (Server × W))
  serve_request msg (server, world) = do
    o ← invoke exchange world time msg server
    ok (answer_of o, (o.server, o.world))

  -- The messages that are received, each with the return value of the `network_send` of its
  -- answer. Behind the last one the loop ends, since its test reads the flag `terminated`, or since
  -- no message is received. What is left are the answers sent, and how often the loop has closed the
  -- descriptor. After an error the loop ends whatever `terminated` is.
  pub serve_loop :
      (terminated : Bool)
      → List (MessageT × ℤ)
      → Server × W
      → Run ((List MessageT × ℕ) × (Server × W))
  serve_loop terminated [] s = ok (([], if terminated then 0 else 1), s)
  serve_loop terminated ((msg, sent) ∷ later) s = serve_request msg s >>= λ r. elim r.0 [
    | none ↦ ok (([], 1), r.1)
    | some answer ↦
        if ltb_ℤ (pos 0) sent
        then (serve_loop terminated later r.1 >>= (λ q. ok ((answer ∷ q.0.0, q.0.1), q.1)))
        else ok (([], 1), r.1)
  ]

  pub change_clients : ℤ → Server → Run Server
  change_clients value server = do
    stats ← deref server.global_stats
    (stats', locks) ← change_client_num stats server.stats_locks value
    ok (record server { global_stats = some stats'; stats_locks = locks })

  -- Behind its loop a connection closes the descriptor.
  pub serve_conn :
      (terminated : Bool)
      → List (MessageT × ℤ)
      → Server × W
      → Run ((List MessageT × ℕ) × (Server × W))
  serve_conn terminated requests (server, world) = do
    server' ← change_clients (pos 1) server
    ((answers, closes), (served, world')) ← serve_loop terminated requests (server', world)
    left ← change_clients minus_one served
    ok ((answers, suc closes), (left, world'))

-- An exchange that never ends in a fault.
abbrev pub plain :
    {W : Type 0}
    → (Rtable → MessageT → Option MessageT × W)
    → Rtable
    → MessageT
    → Run (Option MessageT × W)
plain exchange rtable msg = ok (exchange rtable msg)

-- How a request reaches a server and its answer the client: `network_send_receive` of
-- source/network_client.c on the one side, `network_receive` and `network_send` of
-- source/network_server.c on the other. Each direction is a stream that takes and gives all bytes.
module _ (pack : MessageT → Bytes) (unpack : Bytes → Option MessageT) {W : Type 0}
    (exchange : Rtable → MessageT → Run (Option MessageT × W)) (time : ℤ) where
  -- Without an answer the server has closed the connection.
  reply : Option MessageT × (Server × W) → Run (Option MessageT × (Server × W))
  reply (none, s) = ok (none, s)
  reply (some answer, s) = do
    (ret, to_client) ← network_send write_stream pack [] answer
    ((received_msg, disconnected), rest) ← message_receive_all read_stream unpack to_client
    ok (if disconnected then none else received_msg, s)

  request_received : Option MessageT → Server × W → Run (Option MessageT × (Server × W))
  request_received none s = ok (none, s)
  request_received (some msg) s = serve_request exchange time msg s >>= reply

  -- The exchange of a client that is connected to this server. A fault on either side ends it.
  pub ask : Server × W → Rtable → MessageT → Run (Option MessageT × (Server × W))
  ask s rtable msg = do
    (sent, to_server) ← message_send_all write_stream pack msg []
    if sent ==ℤ minus_one || sent ==ℤ pos 0 then ok (none, s) else do
      (request, rest) ← network_receive read_stream unpack to_server
      request_received request s
