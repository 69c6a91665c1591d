-- ===== src/Serve/Transport.antt =====
-- A request and its answer on their way, when both fit.
use mathlib.Core.List.{append-nil}
use sd_projeto.Base.{
  ℕ, ◌+◌, ◌≤◌, ◌≡◌, refl, ℤ, pos, minus_one, ltb_ℤ, ◌==ℤ◌, ◌||◌, false, [], Option, some, Run, ok,
  arith, length,
}
use mathlib.Core.Path.{subst}
use sd_projeto.Data.{Bytes}
use sd_projeto.Message.{MessageT}
use sd_projeto.Stub.{Rtable}
use sd_projeto.Framing.{max_msg, message_send_all, message_receive_all}
use sd_projeto.Framing.Stream.{write_stream, read_stream, frame, send_all-small}
use sd_projeto.Framing.Receipt.{receive_all-frame}
use sd_projeto.NetworkServer.{network_receive, network_send}
use sd_projeto.Skel.{Server, Outcome}
use sd_projeto.Skel.Invoke.{invoke}
use sd_projeto.Serve.{answer_of, serve_request, reply, request_received, ask}

-- The message packs into at most MAX_MSG bytes, from which it is unpacked again.
abbrev pub Crosses : (MessageT → Bytes) → (Bytes → Option MessageT) → MessageT → Type 0
Crosses pack unpack msg = (unpack (pack msg) ≡ some msg) × (length (pack msg) ≤ max_msg)

pub not_refused : (n : ℕ) → (pos (2 + n) ==ℤ minus_one || pos (2 + n) ==ℤ pos 0) ≡ false
not_refused n = ground arith

module _ (pack : MessageT → Bytes) (unpack : Bytes → Option MessageT) where
  pub sent_whole :
      (msg : MessageT)
      → Crosses pack unpack msg
      → message_send_all write_stream pack msg []
        ≡ ok (pos (2 + length (pack msg)), frame (pack msg))
  sent_whole msg (e, h) = send_all-small pack msg [] h

  pub received_whole :
      (msg : MessageT)
      → Crosses pack unpack msg
      → message_receive_all read_stream unpack (frame (pack msg)) ≡ ok ((some msg, false), [])
  received_whole msg (e, h) =
      subst (λ s. message_receive_all read_stream unpack s ≡ ok ((some msg, false), []))
        (append-nil (frame (pack msg))) (receive_all-frame pack unpack msg [] e h)

  module _ {W : Type 0} (exchange : Rtable → MessageT → Run (Option MessageT × W)) (world : W)
      (time : ℤ) (server : Server) (rtable : Rtable) where
    -- An answered request: its result is not negative.
    pub ask-invoke :
        (msg : MessageT) (o : Outcome W)
        → Crosses pack unpack msg
        → Crosses pack unpack o.msg
        → invoke exchange world time msg server ≡ ok o
        → ltb_ℤ o.res (pos 0) ≡ false
        → ask pack unpack exchange time (server, world) rtable msg
          ≡ ok (some o.msg, (o.server, o.world))
    unfolding ask request_received reply serve_request answer_of network_receive network_send
    ask-invoke msg o there back runs done =
        rw
          (
            sent_whole msg there,
            not_refused (length (pack msg)),
            received_whole msg there,
            runs,
            done,
            sent_whole o.msg back,
            received_whole o.msg back,
          )
          refl
