-- ===== src/Serve/Calls.antt =====
-- The calls of a client, made to a server that holds a map and whose locks are free.
use mathlib.Core.Option
use sd_projeto.Base.{
  Run, ℕ, ◌+◌, Bool, ◌^◌, ◌<◌, ◌≡◌, ◌∙◌, refl, ap, ℤ, pos, minus_one, ltb_ℤ, true, false, Option,
  none, some, is_some, ok, ◌>>=◌, arith, length, if◌then◌else◌,
}
use sd_projeto.CString.{CString}
use sd_projeto.Data.{Bytes}
use sd_projeto.Data.Copies.{data_of}
use sd_projeto.Entry.Order.{entry_of}
use sd_projeto.Message.{MessageT}
use sd_projeto.Message.Opcode
use sd_projeto.Message.CType
use sd_projeto.Stub.{Rtable, get_answer, put_answer, del_answer, rtable_put, rtable_get, rtable_del}
use sd_projeto.Stub.Requests.{
  put_message, get_message, del_message, rtable_get-get_message, rtable_put-put_message,
  rtable_del-del_message,
}
use sd_projeto.Stub.Answers.{put_answer-done, del_answer-done, get_answer-value, get_answer-nothing}
use sd_projeto.Table.{Table}
use sd_projeto.Table.Methods.{Map, Models, update}
use sd_projeto.Skel.{Server}
use sd_projeto.Skel.Sections.{Ready, read_done, write_done}
use sd_projeto.Skel.Invoke.Reads.{got, invoke-get}
use sd_projeto.Skel.Invoke.Writes.{Linked, Passed, invoke-put, invoke-del}
use sd_projeto.Serve.{ask}
use sd_projeto.Serve.Transport.{Crosses, ask-invoke}

pub get_answer-got :
    (k : CString) (w : Option Bytes)
    → ((v : Bytes) → w ≡ some v → length v < 2 ^ 31)
    → get_answer (some (got (get_message k) w)) ≡ ok (Option.map data_of w)
get_answer-got k none small = get_answer-nothing (get_message k)
get_answer-got k (some v) small = get_answer-value (get_message k) v CType.value (small v refl)

-- the answers of a server to a put and to a del
abbrev pub put_done : CString → Bytes → MessageT
put_done k v = record (put_message k v) { opcode = Opcode.put + 1; c_type = CType.nothing }

abbrev pub del_done : CString → Bool → MessageT
del_done k had = record (del_message k) {
  opcode = Opcode.del + 1;
  c_type = if had then CType.nothing else CType.bad;
}

pub count_not_negative : (n : ℕ) → ltb_ℤ (pos n) (pos 0) ≡ false
count_not_negative n = ground arith

pub not_negative : (had : Bool) → ltb_ℤ (if had then pos 0 else pos 1) (pos 0) ≡ false
not_negative true = refl
not_negative false = refl

module _ (pack : MessageT → Bytes) (unpack : Bytes → Option MessageT) {W : Type 0}
    (exchange : Rtable → MessageT → Run (Option MessageT × W)) (world : W) (time : ℤ)
    (server : Server) (rtable : Rtable) where
  module _ {f : Map} (r : Ready f server) where
    -- A client that puts at least one and fewer than 2^31 bytes under a key, at a server that
    -- holds the map f and whose locks are free, and whose exchange with its next server, if it has
    -- one, returns, gets 0, when the put and the answer pack into at most 2048 bytes each, from
    -- which they are unpacked again; the server then holds the updated map, and has passed the put
    -- on to its next server, if it has one.
    pub rtable_put-update :
        (next : Option Rtable)
        → Linked next server
        → (k : CString) (v : Bytes) → 0 < length v
        → length v < 2 ^ 31
        → Crosses pack unpack (put_message k v)
        → Crosses pack unpack (put_done k v)
        → (world' : W) → Passed exchange world next (put_message k v) world'
        → (t : Table) × (rtable_put
              (ask pack unpack exchange time (server, world))
              (server, world)
              (some rtable)
              (entry_of (k, v))
            ≡ ok (pos 0, (write_done time r.stats (some t) server, world')))
          × Models (update f k (some v)) t
    rtable_put-update next l k v h small there back world' passed =
        let (t, runs, models) =
          invoke-put exchange world time (put_message k v) server r next l k v h small refl refl
            world' passed in
        (
          t,
          rtable_put-put_message (ask pack unpack exchange time (server, world)) (server, world)
                rtable k v
              ∙ ap (λ e. e >>= λ q. ok (put_answer q.0, q.1))
                  (ask-invoke pack unpack exchange world time server rtable (put_message k v) _
                    there back runs refl)
              ∙ ap (λ z. ok (z, (write_done time r.stats (some t) server, world')))
                  (put_answer-done (put_message k v) CType.nothing),
          models,
        )

    -- A client that deletes a key, at a server that holds the map f and whose locks are free, and
    -- whose exchange with its next server, if it has one, returns, gets 0 if f has the key and -1
    -- if not, when the request and the answer pack into at most 2048 bytes each, from which they
    -- are unpacked again; the server then holds f without the key, and has passed the deletion on
    -- to its next server, if it has one.
    pub rtable_del-update :
        (next : Option Rtable)
        → Linked next server
        → (k : CString) → Crosses pack unpack (del_message k)
        → Crosses pack unpack (del_done k (is_some (f k)))
        → (world' : W) → Passed exchange world next (del_message k) world'
        → (t : Table) × (rtable_del
              (ask pack unpack exchange time (server, world))
              (server, world)
              (some rtable)
              k
            ≡ ok (
              (if is_some (f k) then pos 0 else minus_one),
              (write_done time r.stats (some t) server, world'),
            ))
          × Models (update f k none) t
    rtable_del-update next l k there back world' passed =
        let (t, runs, models) =
          invoke-del exchange world time (del_message k) server r next l k refl refl world'
            passed in
        (
          t,
          rtable_del-del_message (ask pack unpack exchange time (server, world)) (server, world)
                rtable k
              ∙ ap (λ e. e >>= λ q. ok (del_answer q.0, q.1))
                  (ask-invoke pack unpack exchange world time server rtable (del_message k) _ there
                    back runs (not_negative (is_some (f k))))
              ∙ ap (λ z. ok (z, (write_done time r.stats (some t) server, world')))
                  (del_answer-done (del_message k) (is_some (f k))),
          models,
        )

    -- A client that gets a key whose bytes are fewer than 2^31, from a server that holds the map f
    -- and whose locks are free, receives the bytes of f at the key, or NULL if f has none, when
    -- the request and the answer pack into at most 2048 bytes each, from which they are unpacked
    -- again.
    pub rtable_get-Ready :
        (k : CString)
        → ((v : Bytes) → f k ≡ some v → length v < 2 ^ 31)
        → Crosses pack unpack (get_message k)
        → Crosses pack unpack (got (get_message k) (f k))
        → rtable_get (ask pack unpack exchange time (server, world)) (server, world) (some rtable) k
          ≡ ok (Option.map data_of (f k), (read_done time r.stats server, world))
    rtable_get-Ready k small there back =
        rtable_get-get_message (ask pack unpack exchange time (server, world)) (server, world)
          rtable k
        ∙ ap (λ e. e >>= λ q. get_answer q.0 >>= λ d. ok (d, q.1))
            (ask-invoke pack unpack exchange world time server rtable (get_message k) _ there back
              (invoke-get exchange world time (get_message k) r k refl refl) refl)
        ∙ ap (λ g. g >>= λ d. ok (d, (read_done time r.stats server, world)))
            (get_answer-got k (f k) small)
