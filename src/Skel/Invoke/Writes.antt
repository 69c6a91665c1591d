-- ===== src/Skel/Invoke/Writes.antt =====
-- What the server does with the requests that write: it changes the map that it holds, and passes
-- the change on to the next server of the chain.
use sd_projeto.Base.{
  Run, ℕ, ◌+◌, ◌^◌, ◌<◌, ◌≡◌, refl, ap, ℤ, pos, ◌==ℤ◌, Bool, true, false, Option, none, some,
  is_some, ok, ◌>>=◌, deref, if◌then◌else◌, arith, length, Option-cases, inl, inr,
}
use sd_projeto.CString.{CString}
use sd_projeto.Data.{Bytes, data_create}
use sd_projeto.Data.Copies.{data_of}
use sd_projeto.Entry.{entry_create}
use sd_projeto.Entry.Order.{entry_of}
use sd_projeto.Message.{MessageT, EntryT}
use sd_projeto.Message.Opcode
use sd_projeto.Message.CType
use sd_projeto.Table.{Table, table_put, table_remove}
use sd_projeto.Table.Methods.{Map, Models, update, table_put-update, table_remove-update}
use sd_projeto.Stub.{Rtable, size_of}
use sd_projeto.Stub.Requests.{
  sent, put_message, del_message, to_int-small, rtable_put-put_message, rtable_del-del_message,
}
use mathlib.Core.Path.{subst}
use sd_projeto.Skel.{Server, has_next, finish}
use sd_projeto.Skel.Invoke.{
  replicate_put, replicate_del, put_outcome, put_entry, put_locked, del_locked, invoke_put,
  del_outcome, del_key, invoke,
}
use sd_projeto.Skel.Invoke.Reads.{copy_bytes-all}
use sd_projeto.Skel.Invoke.Dispatch.{dispatch-put, dispatch-del}
use sd_projeto.Skel.Sections.{Ready, write_done, under_write-ok}

-- The server has this connection to a next server, or no next server.
abbrev pub Linked : Option Rtable → Server → Type 0
Linked none server = has_next server ≡ false
Linked (some rtable) server = (has_next server ≡ true) × (server.next_server_rtable ≡ some rtable)

no_zero : (n : ℕ) → 0 < n → (pos n ==ℤ pos 0) ≡ false
no_zero n h = ground arith

data_create-data_of :
    (v : Bytes) → 0 < length v → data_create (pos (length v)) (some v) ≡ some (data_of v)
unfolding data_create
data_create-data_of v h = ground arith

module _ {W : Type 0} (exchange : Rtable → MessageT → Run (Option MessageT × W)) (world : W) where
  -- The next server, if there is one, is sent the message, and whatever is answered, this is left of
  -- all that lies behind the connection.
  abbrev pub Passed : Option Rtable → MessageT → W → Type 0
  Passed none m world' = world ≡ world'
  Passed (some rtable) m world' =
      (answer : Option MessageT) × (exchange rtable m ≡ ok (answer, world'))

module _ {W : Type 0} (exchange : Rtable → MessageT → Run (Option MessageT × W)) (world : W)
    (time : ℤ) (msg : MessageT) (server : Server) (next : Option Rtable)
    (l : Linked next server) where
  replicate_put-Passed :
      (k : CString) (v : Bytes) (world' : W)
      → Passed exchange world next (put_message k v) world'
      → replicate_put exchange world time msg server (some (entry_of (k, v))) ≡ ok world'
  unfolding replicate_put
  replicate_put-Passed k v world' passed = elim (Option-cases next) [
    | inl e ↦
        rw
          (
            subst (λ n. Linked n server) e l,
            subst (λ n. Passed exchange world n (put_message k v) world') e passed,
          )
          refl
    | inr (rtable, e) ↦
        let (has, its) = subst (λ n. Linked n server) e l in
        let (answer, sends) =
          subst (λ n. Passed exchange world n (put_message k v) world') e passed in
        rw (has, its, rtable_put-put_message, sends) refl
  ]

  replicate_del-Passed :
      (k : CString) (world' : W)
      → Passed exchange world next (del_message k) world'
      → replicate_del exchange world time msg server k ≡ ok world'
  unfolding replicate_del
  replicate_del-Passed k world' passed = elim (Option-cases next) [
    | inl e ↦
        rw
          (
            subst (λ n. Linked n server) e l,
            subst (λ n. Passed exchange world n (del_message k) world') e passed,
          )
          refl
    | inr (rtable, e) ↦
        let (has, its) = subst (λ n. Linked n server) e l in
        let (answer, sends) =
          subst (λ n. Passed exchange world n (del_message k) world') e passed in
        rw (has, its, rtable_del-del_message, sends) refl
  ]

module _ {W : Type 0} (exchange : Rtable → MessageT → Run (Option MessageT × W)) (world : W)
    (time : ℤ) (msg : MessageT) (server : Server) where
  pub invoke_put-entry :
      {entry : EntryT}
      → msg.entry ≡ some entry
      → invoke_put exchange world time msg server ≡ put_entry exchange world time msg server entry
  unfolding invoke_put
  invoke_put-entry e = ap (λ m. deref m >>= put_entry exchange world time msg server) e

  del_key-writes :
      {f : Map} (r : Ready f server) (next : Option Rtable)
      → Linked next server
      → (k : CString) (world' : W) → Passed exchange world next (del_message k) world'
      → (res : ℤ) (t : Table) → table_remove (some r.table) (some k) ≡ ok (res, some t)
      → del_key exchange world time msg server (some k)
        ≡ ok (
            del_outcome exchange world time msg server res
              (write_done time r.stats (some t) server)
              world')
  unfolding del_key del_locked
  del_key-writes r next l k world' passed res t removes = rw (
      under_write-ok r time {A = ℤ × W} (del_locked exchange world time msg server k) (res, world')
        (some t)
        (rw (removes, replicate_del-Passed exchange world time msg server next l k world' passed)))

  put_entry-writes :
      {f : Map} (r : Ready f server) (next : Option Rtable)
      → Linked next server
      → (k : CString) (v : Bytes) → 0 < length v
      → length v < 2 ^ 31
      → (world' : W) → Passed exchange world next (put_message k v) world'
      → (t : Table) → table_put (some r.table) (some k) (some (data_of v)) ≡ ok (pos 0, some t)
      → put_entry exchange world time msg server (sent (k, v))
        ≡ ok (
            put_outcome exchange world time msg server
              (pos 0)
              (write_done time r.stats (some t) server)
              world')
  unfolding put_entry put_locked size_of entry_create
  put_entry-writes r next l k v h small world' passed t puts =
      rw
        (
          to_int-small (length v) small,
          copy_bytes-all v,
          data_create-data_of v h,
          no_zero (length v) h,
        )
        (rw (
          under_write-ok r time {A = ℤ × W}
            (put_locked exchange world time msg server k (some (data_of v))
              (some (entry_of (k, v))))
            (pos 0, world') (some t)
            (rw (
              puts,
              replicate_put-Passed exchange world time msg server next l k v world' passed,
            ))))

  del_finished :
      (had : Bool) (server' : Server) (world' : W)
      → ok (
          finish (
            del_outcome exchange world time msg server
              (if had then pos 0 else pos 1)
              server'
              world'))
        ≡ ok (record {
          res = if had then pos 0 else pos 1;
          msg = record msg {
            opcode = msg.opcode + 1;
            c_type = if had then CType.nothing else CType.bad;
          };
          server = server';
          world = world';
        })
  unfolding del_outcome finish
  del_finished true server' world' = refl
  del_finished false server' world' = refl

  -- A put of at least one and fewer than 2^31 bytes to a server that holds the map f and whose
  -- locks are free, and whose exchange with its next server, if it has one, returns, answers 0
  -- with the next opcode, whatever the next server answers; the server then holds the updated map,
  -- and what lies behind it is as the exchange of the same put with the next server leaves it, or
  -- as it was if there is none.
  pub invoke-put :
      {f : Map} (r : Ready f server) (next : Option Rtable)
      → Linked next server
      → (k : CString) (v : Bytes) → 0 < length v
      → length v < 2 ^ 31
      → msg.opcode ≡ Opcode.put
      → msg.entry ≡ some (sent (k, v))
      → (world' : W) → Passed exchange world next (put_message k v) world'
      → (t : Table) × (invoke exchange world time msg server
          ≡ ok (record {
            res = pos 0;
            msg = record msg { opcode = msg.opcode + 1; c_type = CType.nothing };
            server = write_done time r.stats (some t) server;
            world = world';
          }))
        × Models (update f k (some v)) t
  unfolding invoke finish put_outcome
  invoke-put r next l k v h small op entry world' passed =
      let (t, puts, models) = table_put-update r.models k v h in
      (
        t,
        rw (dispatch-put exchange world time msg server op) (
            rw
              (invoke_put-entry entry, put_entry-writes r next l k v h small world' passed t puts)),
        models,
      )

  -- A del to a server that holds the map f and whose locks are free answers 0 if f has the key and
  -- 1 with a bad content type if not; the server then holds f without the key, and its next
  -- server, if it has one, was sent the same del.
  pub invoke-del :
      {f : Map} (r : Ready f server) (next : Option Rtable)
      → Linked next server
      → (k : CString) → msg.opcode ≡ Opcode.del
      → msg.key ≡ some k
      → (world' : W) → Passed exchange world next (del_message k) world'
      → (t : Table) × (invoke exchange world time msg server
          ≡ ok (record {
            res = if is_some (f k) then pos 0 else pos 1;
            msg = record msg {
              opcode = msg.opcode + 1;
              c_type = if is_some (f k) then CType.nothing else CType.bad;
            };
            server = write_done time r.stats (some t) server;
            world = world';
          }))
        × Models (update f k none) t
  unfolding invoke finish
  invoke-del {f} r next l k op key world' passed =
      let (t, removes, models) = table_remove-update r.models k in
      (
        t,
        rw
            (
              dispatch-del exchange world time msg server op,
              ap (λ q. del_key exchange world time msg server q) key,
            )
            (rw (del_key-writes r next l k world' passed _ t removes)
              (del_finished (is_some (f k)) _ _)),
        models,
      )
