-- ===== src/Framing/Receipt.antt =====
-- Messages that are received from a stream: whole, cut off, and too large.
use sd_projeto.Base.{
  ℕ, zero, suc, ◌^◌, ◌≤◌, ◌<◌, ◌≡◌, ◌∙◌, refl, ap, ltb, pos, Bool, true, false, [], ◌++◌, Option,
  none, some, ok, fault, invalid_free, length, length-take, length-drop, take, drop, take-append,
  drop-append, take-append_of_le, drop-append_of_le, take_all, drop_all, length-take_le, arith,
  if◌then◌else◌, Bool-cases, ◌⊎◌, inl, inr,
}
use sd_projeto.Data.{Bytes}
use sd_projeto.Message.{MessageT}
use sd_projeto.Stub.{size_of}
use sd_projeto.Framing.{
  max_msg, size_bytes, read_size, unless_gone, message_send_all, check, receive_last, receive_piece,
  receive_content, message_receive_all,
}
use sd_projeto.Framing.Stream.{
  write_stream, read_stream, frame, check-all, check-short, check-length, to_short-small,
  read_size-size_bytes, small, at_least, left_over, moved_last, send_all-small, send_all-large,
}

module _ (unpack : Bytes → Option MessageT) where
  receive_last-whole :
      (moved : Bool) (b rest : Bytes)
      → receive_last read_stream unpack moved (length b) (b ++ rest)
        ≡ (if moved then fault invalid_free else ok ((unpack b, false), rest))
  unfolding receive_last unless_gone
  receive_last-whole moved b rest = rw (take-append, drop-append, check-all)

  receive_content-small :
      (rounds : ℕ) (b rest : Bytes)
      → length b ≤ max_msg
      → receive_content read_stream unpack rounds false (length b) (b ++ rest)
        ≡ ok ((unpack b, false), rest)
  unfolding receive_content
  receive_content-small zero b rest h = receive_last-whole false b rest
  receive_content-small (suc rounds) b rest h =
      rw (small (length b) h) (receive_last-whole false b rest)

  -- The size of a frame is read, and `receive_content` follows.
  receive_all-size :
      (n : ℕ) (rest : Bytes)
      → n < 2 ^ 15
      → message_receive_all read_stream unpack (size_bytes n ++ rest)
        ≡ receive_content read_stream unpack n false n rest
  unfolding message_receive_all unless_gone read_size size_of
  receive_all-size n rest h =
      rw (check-all (size_bytes n), read_size-size_bytes n h, to_short-small n h)

  -- Pieces are read over and lost; the call then frees an address inside the buffer.
  receive_content-large :
      (rounds : ℕ) (moved : Bool) (b rest : Bytes)
      → length b ≤ rounds
      → (moved ≡ true) ⊎ (max_msg < length b)
      → receive_content read_stream unpack rounds moved (length b) (b ++ rest) ≡ fault invalid_free
  unfolding receive_content receive_piece unless_gone
  receive_content-large zero moved b rest h (inl e) = rw (receive_last-whole moved b rest, e) refl
  receive_content-large zero moved b rest h (inr l) = absurd (omega arith)
  receive_content-large (suc rounds) moved b rest h c = elim (Bool-cases (ltb max_msg (length b))) [
    | inl e ↦
        let le = at_least (length b) e in
        rw
          (
            e,
            take-append_of_le max_msg b rest le,
            drop-append_of_le max_msg b rest le,
            check-length (take max_msg b) max_msg (length-take max_msg b le),
            ← length-drop max_msg b,
          )
          (receive_content-large rounds true (drop max_msg b) rest (left_over b rounds h e)
            (inl refl))
    | inr e ↦ rw (e, receive_last-whole, moved_last moved (length b) e c) refl
  ]

  receive_content-short :
      (rounds n : ℕ) (b : Bytes)
      → n ≤ max_msg
      → length b < n
      → receive_content read_stream unpack rounds false n b ≡ ok ((none, true), [])
  unfolding receive_content receive_last unless_gone
  receive_content-short zero n b h l =
      rw (take_all n b (omega arith), drop_all n b (omega arith), check-short b n l)
  receive_content-short (suc rounds) n b h l =
      rw (small n h, take_all n b (omega arith), drop_all n b (omega arith), check-short b n l)

  -- Of a message of at most 2048 bytes that is cut off anywhere, the receiving side returns NULL
  -- and flags that the other side disconnected.
  pub receive_all-cut :
      (b : Bytes) (n : ℕ)
      → length b ≤ max_msg
      → n < length (frame b)
      → message_receive_all read_stream unpack (take n (frame b)) ≡ ok ((none, true), [])
  unfolding message_receive_all unless_gone check
  receive_all-cut b zero h l = refl
  receive_all-cut b (suc zero) h l = refl
  receive_all-cut b (suc (suc n)) h l =
      receive_all-size (length b) (take n b) (omega arith)
      ∙ receive_content-short (length b) (length b) (take n b) h (omega (arith, length-take_le n b))

pub receive_all-frame :
    (pack : MessageT → Bytes) (unpack : Bytes → Option MessageT) (msg : MessageT) (rest : Bytes)
    → unpack (pack msg) ≡ some msg
    → length (pack msg) ≤ max_msg
    → message_receive_all read_stream unpack (frame (pack msg) ++ rest)
      ≡ ok ((some msg, false), rest)
receive_all-frame pack unpack msg rest e h =
    receive_all-size unpack (length (pack msg)) (pack msg ++ rest) (omega arith)
    ∙ (receive_content-small unpack (length (pack msg)) (pack msg) rest h
        ∙ ap (λ m. ok ((m, false), rest)) e)

-- A message that packs into at most 2048 bytes, from which it is unpacked again, is sent over a
-- stream whole, and the other side receives it, flags no disconnection, and leaves what follows it
-- on the stream.
pub receive_all-send_all :
    (pack : MessageT → Bytes) (unpack : Bytes → Option MessageT) (msg : MessageT) (rest : Bytes)
    → unpack (pack msg) ≡ some msg
    → length (pack msg) ≤ max_msg
    → (stream : Bytes) × (message_send_all write_stream pack msg []
        ≡ ok (pos (length stream), stream))
      × (message_receive_all read_stream unpack (stream ++ rest) ≡ ok ((some msg, false), rest))
receive_all-send_all pack unpack msg rest e h = (
  frame (pack msg),
  send_all-small pack msg [] h ∙ ap (λ n. ok (pos n, frame (pack msg))) (omega arith),
  receive_all-frame pack unpack msg rest e h,
)

-- For a message that packs into more than 2048 and fewer than 2^15 bytes, over a stream that takes
-- and gives all bytes, both the sending and the receiving end in a free of a pointer that is not
-- the start of its block.
pub send_and_receive-large :
    (pack : MessageT → Bytes) (unpack : Bytes → Option MessageT) (msg : MessageT) (rest : Bytes)
    → max_msg < length (pack msg)
    → length (pack msg) < 2 ^ 15
    → (message_send_all write_stream pack msg rest ≡ fault invalid_free)
      × (message_receive_all read_stream unpack (frame (pack msg) ++ rest) ≡ fault invalid_free)
send_and_receive-large pack unpack msg rest l h = (
  send_all-large pack msg rest l h,
  receive_all-size unpack (length (pack msg)) (pack msg ++ rest) h
      ∙ receive_content-large unpack (length (pack msg)) false (pack msg) rest (omega arith)
          (inr l),
)
