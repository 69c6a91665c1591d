-- ===== src/Skel/Invoke/Malformed.antt =====
-- The requests that the server refuses before it touches its table.
use sd_projeto.Base.{
  Run, [], ◌≡◌, refl, ap, ℤ, minus_one, to_int, Option, none, some, ok, arith, memcpy,
}
use sd_projeto.CString.{CString}
use sd_projeto.Data.{Bytes}
use sd_projeto.Message.{MessageT}
use sd_projeto.Message.Opcode
use sd_projeto.Message.CType
use sd_projeto.Stub.{Rtable, size_of}
use sd_projeto.Skel.{Server, copy_bytes, finish, respond_bad_op}
use sd_projeto.Skel.Invoke.{bad_op, put_entry, get_key, del_key, invoke}
use sd_projeto.Skel.Invoke.Dispatch.{dispatch-put, dispatch-get, dispatch-del}
use sd_projeto.Skel.Invoke.Writes.{invoke_put-entry}

-- A request to write without bytes, or a request for no key.
pub data Malformed (msg : MessageT) : Type 0 where
  put_nothing :
      (k : CString) (content : Option Bytes)
      → msg.opcode ≡ Opcode.put
      → msg.entry ≡ some (record { key = some k; value = record { len = 0; content = content } })
      → Malformed msg
  get_no_key : msg.opcode ≡ Opcode.get → msg.key ≡ none → Malformed msg
  del_no_key : msg.opcode ≡ Opcode.del → msg.key ≡ none → Malformed msg

module _ {W : Type 0} (exchange : Rtable → MessageT → Run (Option MessageT × W)) (world : W)
    (time : ℤ) (server : Server) where
  copy_none : (content : Option Bytes) → copy_bytes content 0 ≡ ok []
  unfolding copy_bytes memcpy
  copy_none none = refl
  copy_none (some v) = ground arith

  put_nothing-bad_op :
      (msg : MessageT) (k : CString) (content : Option Bytes)
      → put_entry exchange world time msg server
          (record { key = some k; value = record { len = 0; content = content } })
        ≡ ok (bad_op exchange world time msg server)
  unfolding put_entry size_of to_int
  put_nothing-bad_op msg k content = rw copy_none

  no_key-bad_op :
      (msg : MessageT)
      → msg.key ≡ none
      → get_key exchange world time msg server msg.key ≡ ok (bad_op exchange world time msg server)
  unfolding get_key
  no_key-bad_op msg e = ap (get_key exchange world time msg server) e

  no_del_key-bad_op :
      (msg : MessageT)
      → msg.key ≡ none
      → del_key exchange world time msg server msg.key ≡ ok (bad_op exchange world time msg server)
  unfolding del_key
  no_del_key-bad_op msg e = ap (del_key exchange world time msg server) e

  -- A put of no bytes under a key, or a get or a del without a key, is answered with -1 and a bad
  -- opcode; the server is left as it was and nothing is sent to the next one.
  pub invoke-Malformed :
      {msg : MessageT}
      → Malformed msg
      → invoke exchange world time msg server
        ≡ ok (record {
          res = minus_one;
          msg = record msg { opcode = Opcode.bad; c_type = CType.bad };
          server = server;
          world = world;
        })
  unfolding invoke bad_op finish respond_bad_op
  invoke-Malformed {msg} (put_nothing k content op e) =
      rw (dispatch-put exchange world time msg server op)
        (rw (invoke_put-entry exchange world time msg server e, put_nothing-bad_op))
  invoke-Malformed {msg} (get_no_key op e) =
      rw (dispatch-get exchange world time msg server op, no_key-bad_op msg e)
  invoke-Malformed {msg} (del_no_key op e) =
      rw (dispatch-del exchange world time msg server op, no_del_key-bad_op msg e)
