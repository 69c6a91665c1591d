-- ===== src/Serve/Oversize.antt =====
-- Requests and answers that do not fit, on their way between source/network_client.c and
-- source/network_server.c, and what the program at either end does with them.
use sd_projeto.Base.{
  ◌^◌, ◌<◌, ◌≡◌, ◌∙◌, ap, ℤ, pos, ltb_ℤ, false, [], refl, Option, some, Run, ok, fault,
  invalid_free, ◌>>=◌, length,
}
use sd_projeto.CString.{CString}
use sd_projeto.Data.{Bytes}
use sd_projeto.Entry.Order.{entry_of}
use sd_projeto.EntryList.Assoc.{Assoc}
use sd_projeto.Message.{MessageT}
use sd_projeto.Message.Opcode
use sd_projeto.Stub.{Rtable, put_answer, table_answer, rtable_put, rtable_get_table}
use sd_projeto.Stub.Requests.{
  put_message, ask_message, rtable_put-put_message, rtable_get_table-ask_message,
}
use sd_projeto.Framing.{max_msg, message_send_all}
use sd_projeto.Framing.Stream.{write_stream}
use sd_projeto.Framing.Receipt.{send_and_receive-large}
use sd_projeto.NetworkServer.{network_receive, network_send}
use sd_projeto.Table.Methods.{Map}
use sd_projeto.Table.Whole.{Lists}
use sd_projeto.Skel.{Server, Outcome}
use sd_projeto.Skel.Sections.{Ready}
use sd_projeto.Skel.Invoke.{invoke}
use sd_projeto.Skel.Invoke.Listings.{invoke-gettable_of}
use sd_projeto.Serve.{answer_of, serve_request, reply, request_received, ask}
use sd_projeto.Serve.Transport.{Crosses, sent_whole, not_refused, received_whole}
use sd_projeto.Serve.Tables.{table_done}

-- The message packs into more than MAX_MSG bytes, whose number still fits a `short`.
abbrev pub IsLarge : (MessageT → Bytes) → MessageT → Type 0
IsLarge pack msg = (max_msg < length (pack msg)) × (length (pack msg) < 2 ^ 15)

module _ (pack : MessageT → Bytes) (unpack : Bytes → Option MessageT) {W : Type 0}
    (exchange : Rtable → MessageT → Run (Option MessageT × W)) (world : W) (time : ℤ)
    (server : Server) (rtable : Rtable) where
  sent_large :
      (msg : MessageT)
      → IsLarge pack msg
      → message_send_all write_stream pack msg [] ≡ fault invalid_free
  sent_large msg (l, h) = (send_and_receive-large pack unpack msg [] l h).0

  ask_large :
      (msg : MessageT)
      → IsLarge pack msg
      → ask pack unpack exchange time (server, world) rtable msg ≡ fault invalid_free
  unfolding ask
  ask_large msg large = rw (sent_large msg large) refl

  answered_large :
      (msg : MessageT) (o : Outcome W)
      → Crosses pack unpack msg
      → IsLarge pack o.msg
      → invoke exchange world time msg server ≡ ok o
      → ltb_ℤ o.res (pos 0) ≡ false
      → ask pack unpack exchange time (server, world) rtable msg ≡ fault invalid_free
  unfolding ask request_received reply serve_request answer_of network_receive network_send
  answered_large msg o there large runs done =
      rw
        (
          sent_whole pack unpack msg there,
          not_refused (length (pack msg)),
          received_whole pack unpack msg there,
          runs,
          done,
          sent_large o.msg large,
        )
        refl

  -- A client that puts an entry, at any server, when the put packs into more than 2048 and fewer
  -- than 2^15 bytes, ends in a free of a pointer that is not the start of its block.
  pub rtable_put-large :
      (k : CString) (v : Bytes)
      → IsLarge pack (put_message k v)
      → rtable_put
          (ask pack unpack exchange time (server, world))
          (server, world)
          (some rtable)
          (entry_of (k, v))
        ≡ fault invalid_free
  rtable_put-large k v large =
      rtable_put-put_message (ask pack unpack exchange time (server, world)) (server, world) rtable
        k v
      ∙ ap (λ e. e >>= λ q. ok (put_answer q.0, q.1)) (ask_large (put_message k v) large)

  -- When a client asks a server that holds the map f, and whose locks are free, for the whole
  -- table, the request packs into at most 2048 bytes, from which it is unpacked again, and the
  -- answer with all entries into more than 2048 and fewer than 2^15, the exchange ends in a free
  -- of a pointer that is not the start of its block.
  pub rtable_get_table-large :
      {f : Map} (r : Ready f server) (m : Assoc)
      → Lists r.table m
      → Crosses pack unpack (ask_message Opcode.gettable)
      → IsLarge pack (table_done m)
      → rtable_get_table
          (ask pack unpack exchange time (server, world))
          (server, world)
          (some rtable)
        ≡ fault invalid_free
  rtable_get_table-large r m lists there large =
      rtable_get_table-ask_message (ask pack unpack exchange time (server, world)) (server, world)
        rtable
      ∙ ap (λ e. e >>= λ q. table_answer q.0 >>= λ d. ok (d, q.1))
          (answered_large (ask_message Opcode.gettable) _ there large
            (invoke-gettable_of exchange world time (ask_message Opcode.gettable) r m lists refl)
            refl)
