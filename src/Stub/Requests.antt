-- ===== src/Stub/Requests.antt =====
-- The requests of source/client_stub.c that change the table, as they are sent.
use sd_projeto.Base.{
  Run, ◌>>=◌, pos, ℕ, ltb, false, to_int, ◌<◌, ◌^◌, ◌≡◌, refl, List, [], ◌∷◌, ◌++◌, map, Option,
  none, some, ok, memcpy, length, arith, take-length, leb-true,
}
use sd_projeto.CString.{CString}
use sd_projeto.Data.{Bytes}
use sd_projeto.Data.Copies.{data_of}
use sd_projeto.Entry.Order.{entry_of}
use sd_projeto.EntryList.Assoc.{Assoc}
use sd_projeto.Message.{MessageT, EntryT, Binary, message_init}
use sd_projeto.Message.Opcode
use sd_projeto.Message.CType
use sd_projeto.Stub.{
  Rtable, size_of, pack_data, unpack_data, put_request, put_answer, del_request, del_answer,
  rtable_put, rtable_del, request, get_request, get_answer, size_answer, keys_answer, rtable_get,
  rtable_size, rtable_get_keys, rtable_get_table, table_answer,
}

-- the field `value` that holds the bytes `v`, and one pair of a map as a message carries it
abbrev pub binary_of : Bytes → Binary
binary_of v = record { len = length v; content = some v }

abbrev pub sent : CString × Bytes → EntryT
sent (k, v) = record { key = some k; value = binary_of v }

-- the array of all pairs of a map, as an answer carries it
abbrev pub sent_all : Assoc → List (Option EntryT)
sent_all m = map some (map sent m) ++ none ∷ []

abbrev pub put_message : CString → Bytes → MessageT
put_message k v = record message_init {
  opcode = Opcode.put;
  c_type = CType.entry;
  entry = some (sent (k, v));
}

abbrev pub get_message : CString → MessageT
get_message k = record message_init { opcode = Opcode.get; c_type = CType.key; key = some k }

abbrev pub del_message : CString → MessageT
del_message k = record message_init { opcode = Opcode.del; c_type = CType.key; key = some k }

ltb_irrefl : (n : ℕ) → ltb n n ≡ false
ltb_irrefl n = ground arith

pub memcpy-all : (v : Bytes) → memcpy v (length v) ≡ ok v
unfolding memcpy
memcpy-all v = rw (leb-true (length v) (length v) (omega arith), take-length)

pub put_request-entry_of :
    (k : CString) (v : Bytes) → put_request (entry_of (k, v)) ≡ ok (put_message k v)
unfolding put_request pack_data size_of
put_request-entry_of k v = rw memcpy-all

-- a request that has only an opcode
abbrev pub ask_message : ℕ → MessageT
ask_message opcode = record message_init { opcode = opcode; c_type = CType.nothing }

pub to_int-small : (n : ℕ) → n < 2 ^ 31 → to_int n ≡ pos n
unfolding to_int
to_int-small n h = ground arith

pub unpack_data-binary_of :
    (v : Bytes) → length v < 2 ^ 31 → unpack_data (binary_of v) ≡ ok (data_of v)
unfolding unpack_data size_of
unpack_data-binary_of v h = rw (to_int-small (length v) h, ltb_irrefl (length v), memcpy-all)

module _ {W : Type 0} (exchange : Rtable → MessageT → Run (Option MessageT × W)) (world : W)
    (rtable : Rtable) where
  pub rtable_put-put_message :
      (k : CString) (v : Bytes)
      → rtable_put exchange world (some rtable) (entry_of (k, v))
        ≡ exchange rtable (put_message k v) >>= λ q. ok (put_answer q.0, q.1)
  unfolding rtable_put
  rtable_put-put_message k v = rw put_request-entry_of

  pub rtable_del-del_message :
      (k : CString)
      → rtable_del exchange world (some rtable) k
        ≡ exchange rtable (del_message k) >>= λ q. ok (del_answer q.0, q.1)
  unfolding rtable_del del_request
  rtable_del-del_message k = refl

  pub rtable_get-get_message :
      (k : CString)
      → rtable_get exchange world (some rtable) k
        ≡ exchange rtable (get_message k) >>= λ q. get_answer q.0 >>= λ d. ok (d, q.1)
  unfolding rtable_get get_request
  rtable_get-get_message k = refl

  pub rtable_size-ask_message :
      rtable_size exchange world (some rtable)
      ≡ exchange rtable (ask_message Opcode.size) >>= λ q. ok (size_answer q.0, q.1)
  unfolding rtable_size request
  rtable_size-ask_message = refl

  pub rtable_get_keys-ask_message :
      rtable_get_keys exchange world (some rtable)
      ≡ exchange rtable (ask_message Opcode.getkeys) >>= λ q.
          keys_answer q.0 >>= λ keys. ok (keys, q.1)
  unfolding rtable_get_keys request
  rtable_get_keys-ask_message = refl

  pub rtable_get_table-ask_message :
      rtable_get_table exchange world (some rtable)
      ≡ exchange rtable (ask_message Opcode.gettable) >>= λ q.
          table_answer q.0 >>= λ entries. ok (entries, q.1)
  unfolding rtable_get_table request
  rtable_get_table-ask_message = refl
