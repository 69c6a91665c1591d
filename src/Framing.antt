-- ===== src/Framing.antt =====
-- source/message.c: a message as two bytes of its size and its content, in pieces of at most
-- MAX_MSG bytes. What a socket does is an argument: `write` returns its result, and `read` what it
-- received. So are the packing and unpacking of protobuf-c, which keeps to the size that it tells.
pub mod Stream
pub mod Receipt
use sd_projeto.Base.{
  ℕ, zero, suc, ◌+◌, ◌-◌, ◌*◌, ◌/◌, ◌%◌, ◌^◌, ltb, ℤ, pos, negsuc, minus_one, ◌+ℤ◌, ltb_ℤ, ◌==ℤ◌,
  Bool, true, false, ◌||◌, List, [], ◌∷◌, Option, none, some, Run, ok, fault, out_of_bounds,
  invalid_free, ◌>>=◌, length, take, drop, if◌then◌else◌,
}
use sd_projeto.Data.{Bytes}
use sd_projeto.Message.{MessageT}
use sd_projeto.Stub.{size_of}

abbrev pub max_msg : ℕ
max_msg = 2048

-- The conversion to `short`: the low 16 bits, read in two's complement.
unfoldable pub to_short : ℕ → ℤ
to_short w = let low = w % 2 ^ 16 in if ltb low (2 ^ 15) then pos low else negsuc (2 ^ 16 - low - 1)

-- The bytes of a `short` after `htons`.
abbrev pub size_bytes : ℕ → Bytes
size_bytes n = n / 256 % 256 ∷ n % 256 ∷ []

-- `ntohs` of two bytes that were read.
pub read_size : Bytes → ℕ
read_size (high ∷ low ∷ rest) = high * 256 + low
read_size _ = 0

-- The return value if not exactly `n` bytes were written.
pub refused : ℤ → ℕ → Option ℤ
refused write_len n =
    if write_len ==ℤ minus_one || ltb_ℤ (pos n) write_len
    then some minus_one
    else if ltb_ℤ write_len (pos n)
    then some (pos 0)
    else none

unless_refused : {S : Type 0} → Option ℤ → S → Run (ℤ × S) → Run (ℤ × S)
unless_refused (some ret) s next = ok (ret, s)
unless_refused none s next = next

module _ {S : Type 0} (write : S → Bytes → ℤ × S) (pack : MessageT → Bytes) where
  -- `content_buf` is freed at the end, after it was moved in each round of the loop.
  send_last : Bool → Bytes → ℤ → S → Run (ℤ × S)
  send_last moved content_buf total_write_len s =
      let (write_len, s') = write s content_buf in
      unless_refused (refused write_len (length content_buf)) s'
        (if moved then fault invalid_free else ok (total_write_len +ℤ write_len, s'))

  send_piece : (Bytes → ℤ → S → Run (ℤ × S)) → Bytes → ℤ → S → Run (ℤ × S)
  send_piece next content_buf total_write_len s =
      let (write_len, s') = write s (take max_msg content_buf) in
      unless_refused (refused write_len max_msg) s'
        (next (drop max_msg content_buf) (total_write_len +ℤ write_len) s')

  -- The first argument bounds the rounds; the size of the content is enough.
  send_content : ℕ → Bool → Bytes → ℤ → S → Run (ℤ × S)
  send_content zero moved content_buf total_write_len s =
      send_last moved content_buf total_write_len s
  send_content (suc rounds) moved content_buf total_write_len s =
      if ltb max_msg (length content_buf)
      then send_piece (send_content rounds true) content_buf total_write_len s
      else send_last moved content_buf total_write_len s

  -- The size is kept in a `short`, and so much room is made for the content.
  pub message_send_all : MessageT → S → Run (ℤ × S)
  message_send_all msg s = do
    let content = pack msg
    content_size ← size_of (to_short (length content))
    if ltb content_size (length content)
        then fault out_of_bounds
        else let (write_len, s') = write s (size_bytes content_size) in
          unless_refused (refused write_len 2) s'
            (send_content content_size false content write_len s')

-- What `read` gives: an error, interrupted by a signal or not, or bytes.
pub data Received : Type 0 where
  failed : Bool → Received
  received : Bytes → Received

pub data Checked : Type 0 where
  gone broken : Checked
  whole : Bytes → Checked

pub check : Received → ℕ → Checked
check (failed true) n = gone
check (failed false) n = broken
check (received b) n =
    if ltb (length b) n then gone else if ltb n (length b) then broken else whole b

-- What `message_receive_all` returns, and `*disconnected`.
abbrev pub Answer : Type 0 → Type 0
Answer S = (Option MessageT × Bool) × S

unless_gone : {S : Type 0} → Checked → S → (Bytes → Run (Answer S)) → Run (Answer S)
unless_gone gone s next = ok ((none, true), s)
unless_gone broken s next = ok ((none, false), s)
unless_gone (whole b) s next = next b

module _ {S : Type 0} (read : S → ℕ → Received × S) (unpack : Bytes → Option MessageT) where
  -- `response_buf` is freed after it was moved in each round of the loop.
  receive_last : Bool → ℕ → S → Run (Answer S)
  receive_last moved response_size s =
      let (r, s') = read s response_size in
      unless_gone (check r response_size) s' (λ response_buf.
        if moved then fault invalid_free else ok ((unpack response_buf, false), s'))

  receive_piece : (ℕ → S → Run (Answer S)) → ℕ → S → Run (Answer S)
  receive_piece next response_size s =
      let (r, s') = read s max_msg in
      unless_gone (check r max_msg) s' (λ piece. next (response_size - max_msg) s')

  -- The first argument bounds the rounds; the size is enough.
  receive_content : ℕ → Bool → ℕ → S → Run (Answer S)
  receive_content zero moved response_size s = receive_last moved response_size s
  receive_content (suc rounds) moved response_size s =
      if ltb max_msg response_size
      then receive_piece (receive_content rounds true) response_size s
      else receive_last moved response_size s

  pub message_receive_all : S → Run (Answer S)
  message_receive_all s =
      let (r, s') = read s 2 in
      unless_gone (check r 2) s' (λ size_buf. do
        response_size ← size_of (to_short (read_size size_buf))
        receive_content response_size false response_size s')
