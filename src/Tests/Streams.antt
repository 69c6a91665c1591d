-- ===== src/Tests/Streams.antt =====
-- Examples for messages on a stream.
use sd_projeto.Base.{
  ℕ, ◌<◌, ◌^◌, ◌≡◌, refl, pos, true, false, [], ◌∷◌, ◌++◌, Option, none, some, ok, fault,
  invalid_free, arith, length, length-replicate, replicate, take,
}
use sd_projeto.Data.{Bytes}
use sd_projeto.Message.{MessageT, message_init}
use sd_projeto.Framing.{max_msg, message_send_all, message_receive_all}
use sd_projeto.Framing.Stream.{write_stream, read_stream, frame}
use sd_projeto.Framing.Receipt.{receive_all-cut, receive_all-send_all, send_and_receive-large}

pack_short : MessageT → Bytes
pack_short m = 8 ∷ 0 ∷ 16 ∷ []

unpack_init : Bytes → Option MessageT
unpack_init b = some message_init

receive_all-send_all_example :
    (stream : Bytes) × (message_send_all write_stream pack_short message_init []
      ≡ ok (pos (length stream), stream))
    × (message_receive_all read_stream unpack_init (stream ++ (9 ∷ []))
        ≡ ok ((some message_init, false), 9 ∷ []))
unfolding pack_short unpack_init
receive_all-send_all_example =
    receive_all-send_all pack_short unpack_init message_init (9 ∷ []) refl (omega arith)

receive_all-cut_example :
    message_receive_all read_stream unpack_init (take 4 (frame (8 ∷ 0 ∷ 16 ∷ [])))
    ≡ ok ((none, true), [])
receive_all-cut_example =
    receive_all-cut unpack_init (8 ∷ 0 ∷ 16 ∷ []) 4 (omega arith) (omega arith)

abbrev byte : ℕ
byte = 7

-- 3000 bytes
pack_long : MessageT → Bytes
pack_long m = replicate 3000 byte

length-pack_long : (m : MessageT) → length (pack_long m) ≡ 3000
unfolding pack_long
length-pack_long m = length-replicate 3000 byte

is_large : max_msg < length (pack_long message_init)
is_large = rw (length-pack_long message_init) (omega arith)

fits_short : length (pack_long message_init) < 2 ^ 15
fits_short = rw (length-pack_long message_init) (omega arith)

send_and_receive-large_example :
    (message_send_all write_stream pack_long message_init [] ≡ fault invalid_free)
    × (message_receive_all read_stream unpack_init (frame (pack_long message_init) ++ [])
        ≡ fault invalid_free)
send_and_receive-large_example =
    send_and_receive-large pack_long unpack_init message_init [] is_large fits_short
