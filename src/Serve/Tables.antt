-- ===== src/Serve/Tables.antt =====
-- The whole table, as a client gets it from a server.
use sd_projeto.Base.{
  ◌+◌, to_unsigned, Run, ◌≡◌, ◌∙◌, refl, ap, ℤ, pos, Option, some, ok, ◌>>=◌, length,
}
use sd_projeto.EntryList.Assoc.{Assoc}
use sd_projeto.Message.{MessageT}
use sd_projeto.Message.Opcode
use sd_projeto.Message.CType
use sd_projeto.Stub.{Rtable, size_answer, rtable_size}
use sd_projeto.Stub.Requests.{sent_all, ask_message, rtable_size-ask_message}
use sd_projeto.Stub.Answers.{size_answer-result}
use sd_projeto.Table.Methods.{Map}
use sd_projeto.Table.Whole.{Lists}
use sd_projeto.Skel.{Server}
use sd_projeto.Skel.Sections.{Ready, read_done}
use sd_projeto.Skel.Invoke.Listings.{invoke-size_of}
use sd_projeto.Serve.{ask}
use sd_projeto.Serve.Calls.{count_not_negative}
use sd_projeto.Serve.Transport.{Crosses, ask-invoke}
use sd_projeto.Data.{Bytes}

-- the answers of a server that lists these pairs
abbrev pub table_done : Assoc → MessageT
table_done m = record (ask_message Opcode.gettable) {
  opcode = Opcode.gettable + 1;
  n_entries = to_unsigned (pos (length m));
  entries = some (sent_all m);
  c_type = CType.table;
}

abbrev pub size_done : Assoc → MessageT
size_done m = record (ask_message Opcode.size) {
  opcode = Opcode.size + 1;
  result = pos (length m);
  c_type = CType.result;
}

module _ (pack : MessageT → Bytes) (unpack : Bytes → Option MessageT) {W : Type 0}
    (exchange : Rtable → MessageT → Run (Option MessageT × W)) (world : W) (time : ℤ)
    (server : Server) (rtable : Rtable) {f : Map} (r : Ready f server) (m : Assoc)
    (lists : Lists r.table m) where
  pub rtable_size-length :
      Crosses pack unpack (ask_message Opcode.size)
      → Crosses pack unpack (size_done m)
      → rtable_size (ask pack unpack exchange time (server, world)) (server, world) (some rtable)
        ≡ ok (pos (length m), (read_done time r.stats server, world))
  rtable_size-length there back =
      rtable_size-ask_message (ask pack unpack exchange time (server, world)) (server, world) rtable
      ∙ ap (λ e. e >>= λ q. ok (size_answer q.0, q.1))
          (ask-invoke pack unpack exchange world time server rtable (ask_message Opcode.size) _
            there back (invoke-size_of exchange world time (ask_message Opcode.size) r m lists refl)
            (count_not_negative (length m)))
      ∙ ap (λ z. ok (z, (read_done time r.stats server, world)))
          (size_answer-result (ask_message Opcode.size) (pos (length m)) CType.result)
