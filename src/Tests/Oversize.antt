-- ===== src/Tests/Oversize.antt =====
-- Examples for messages of 3000 bytes: a put, and the answer with a whole table.
use sd_projeto.Base.{
  ℕ, ◌≡◌, refl, pos, [], ◌∷◌, some, fault, invalid_free, arith, replicate, length, length-replicate,
  ◌==◌, if◌then◌else◌,
}
use sd_projeto.Data.{Bytes}
use sd_projeto.Entry.Order.{entry_of}
use sd_projeto.Message.{MessageT}
use sd_projeto.Message.Opcode
use sd_projeto.Stub.{rtable_put, rtable_get_table}
use sd_projeto.Stub.Requests.{put_message}
use sd_projeto.Serve.{ask}
use sd_projeto.Serve.Tables.{table_done}
use sd_projeto.Serve.Oversize.{IsLarge, rtable_put-large, rtable_get_table-large}
use sd_projeto.Tests.{key_a, unpacked}
use sd_projeto.Tests.Chains.{to_tail}
use sd_projeto.Tests.Joins.{exchange, answers, pairs, pairs-Lists, last, last-Ready}

abbrev byte : ℕ
byte = 7

abbrev long : Bytes
long = replicate 3000 byte

-- Only a request for the table is short.
pack_large : MessageT → Bytes
pack_large msg = if msg.opcode == Opcode.gettable then msg.opcode ∷ [] else long

length-put : length (pack_large (put_message key_a (1 ∷ []))) ≡ 3000
unfolding pack_large
length-put = length-replicate 3000 byte

length-table : length (pack_large (table_done pairs)) ≡ 3000
unfolding pack_large
length-table = length-replicate 3000 byte

put-IsLarge : IsLarge pack_large (put_message key_a (1 ∷ []))
put-IsLarge = (rw length-put (omega arith), rw length-put (omega arith))

table-IsLarge : IsLarge pack_large (table_done pairs)
table-IsLarge = (rw length-table (omega arith), rw length-table (omega arith))

rtable_put-large_example :
    rtable_put
      (ask pack_large (unpacked answers) exchange (pos 3) (last, []))
      (last, [])
      (some to_tail)
      (entry_of (key_a, 1 ∷ []))
    ≡ fault invalid_free
rtable_put-large_example =
    rtable_put-large pack_large (unpacked answers) exchange [] (pos 3) last to_tail key_a (1 ∷ [])
      put-IsLarge

rtable_get_table-large_example :
    rtable_get_table
      (ask pack_large (unpacked answers) exchange (pos 3) (last, []))
      (last, [])
      (some to_tail)
    ≡ fault invalid_free
unfolding pack_large
rtable_get_table-large_example =
    rtable_get_table-large pack_large (unpacked answers) exchange [] (pos 3) last to_tail last-Ready
      pairs pairs-Lists (refl, omega arith) table-IsLarge
