-- ===== src/Framing/Stream.antt =====
-- Messages over a stream that keeps all bytes in order.
use mathlib.Core.List.{append_assoc}
use sd_projeto.Base.{
  ℕ, zero, suc, ◌+◌, ◌*◌, ◌/◌, ◌%◌, ◌^◌, ◌≤◌, ◌<◌, ◌≡◌, refl, ltb, ℤ, pos, pos-+ℤ, Bool, true,
  false, ◌++◌, none, ok, fault, invalid_free, length, length-take, length-drop, take, drop, arith,
  if◌then◌else◌, Bool-cases, ◌⊎◌, inl, inr,
}
use sd_projeto.Data.{Bytes}
use sd_projeto.Message.{MessageT}
use sd_projeto.Stub.{size_of}
use sd_projeto.Framing.{
  max_msg, to_short, size_bytes, refused, unless_refused, send_last, send_piece, send_content,
  message_send_all, Received, received, check, gone, whole,
}

-- The stream holds the bytes that are on their way; a `read` takes the first of them.
abbrev pub write_stream : Bytes → Bytes → ℤ × Bytes
write_stream s b = (pos (length b), s ++ b)

abbrev pub read_stream : Bytes → ℕ → Received × Bytes
read_stream s n = (received (take n s), drop n s)

-- a message on the stream
abbrev pub frame : Bytes → Bytes
frame content = size_bytes (length content) ++ content

pub refused-all : (n : ℕ) → refused (pos n) n ≡ none
unfolding refused
refused-all n = ground arith

pub check-all : (b : Bytes) → check (received b) (length b) ≡ whole b
unfolding check
check-all b = ground arith

pub check-short : (b : Bytes) (n : ℕ) → length b < n → check (received b) n ≡ gone
unfolding check
check-short b n h = ground arith

pub to_short-small : (n : ℕ) → n < 2 ^ 15 → to_short n ≡ pos n
unfolding to_short
to_short-small n h = ground arith

pub read_size-size_bytes : (n : ℕ) → n < 2 ^ 15 → n / 256 % 256 * 256 + n % 256 ≡ n
read_size-size_bytes n h = omega arith

pub small : (n : ℕ) → n ≤ max_msg → ltb max_msg n ≡ false
small n h = ground arith

send_last-stream :
    (pack : MessageT → Bytes) (moved : Bool) (b : Bytes) (total : ℕ) (s : Bytes)
    → send_last write_stream pack moved b (pos total) s
      ≡ (if moved then fault invalid_free else ok (pos (total + length b), s ++ b))
unfolding send_last unless_refused
send_last-stream pack moved b total s = rw (refused-all, pos-+ℤ)

send_content-small :
    (pack : MessageT → Bytes) (rounds : ℕ) (b : Bytes) (total : ℕ) (s : Bytes)
    → length b ≤ max_msg
    → send_content write_stream pack rounds false b (pos total) s
      ≡ ok (pos (total + length b), s ++ b)
unfolding send_content
send_content-small pack zero b total s h = send_last-stream pack false b total s
send_content-small pack (suc rounds) b total s h =
    rw (small (length b) h) (send_last-stream pack false b total s)

pub at_least : (n : ℕ) → ltb max_msg n ≡ true → max_msg ≤ n
at_least n e = ground arith

pub left_over :
    (b : Bytes) (rounds : ℕ)
    → length b ≤ suc rounds
    → ltb max_msg (length b) ≡ true
    → length (drop max_msg b) ≤ rounds
left_over b rounds h e = omega (arith, length-drop max_msg b, at_least (length b) e)

pub moved_last :
    (moved : Bool) (n : ℕ) → ltb max_msg n ≡ false → (moved ≡ true) ⊎ (max_msg < n) → moved ≡ true
moved_last moved n e (inl m) = m
moved_last moved n e (inr l) = absurd (ground arith)

ltb_irrefl : (n : ℕ) → ltb n n ≡ false
ltb_irrefl n = ground arith

pub check-length : (b : Bytes) (n : ℕ) → length b ≡ n → check (received b) n ≡ whole b
unfolding check
check-length b n e = ground arith

-- The content leaves in pieces, all of it in order; the call then frees an address in its middle.
send_content-large :
    (pack : MessageT → Bytes) (rounds : ℕ) (moved : Bool) (b : Bytes) (total : ℕ) (s : Bytes)
    → length b ≤ rounds
    → moved ≡ true ⊎ max_msg < length b
    → send_content write_stream pack rounds moved b (pos total) s ≡ fault invalid_free
unfolding send_content send_piece unless_refused
send_content-large pack zero moved b total s h (inl e) =
    rw (send_last-stream pack moved b total s, e) refl
send_content-large pack zero moved b total s h (inr l) = absurd (omega arith)
send_content-large pack (suc rounds) moved b total s h c =
    elim (Bool-cases (ltb max_msg (length b))) [
      | inl e ↦
          let le = length-take max_msg b (at_least (length b) e) in
          rw (e, le, refused-all, pos-+ℤ)
            (send_content-large pack rounds true (drop max_msg b) (total + max_msg)
              (s ++ take max_msg b) (left_over b rounds h e) (inl refl))
      | inr e ↦ rw (e, send_last-stream, moved_last moved (length b) e c) refl
    ]

pub send_all-small :
    (pack : MessageT → Bytes) (msg : MessageT) (s : Bytes)
    → length (pack msg) ≤ max_msg
    → message_send_all write_stream pack msg s
      ≡ ok (pos (2 + length (pack msg)), s ++ frame (pack msg))
unfolding message_send_all size_of unless_refused
send_all-small pack msg s h =
    rw
      (
        to_short-small (length (pack msg)) (omega arith),
        ltb_irrefl,
        refused-all 2,
        send_content-small,
      )
      (rw append_assoc refl)

pub send_all-large :
    (pack : MessageT → Bytes) (msg : MessageT) (s : Bytes)
    → max_msg < length (pack msg)
    → length (pack msg) < 2 ^ 15
    → message_send_all write_stream pack msg s ≡ fault invalid_free
unfolding message_send_all size_of unless_refused
send_all-large pack msg s l h =
    rw (to_short-small (length (pack msg)) h, ltb_irrefl, refused-all 2)
      (send_content-large pack (length (pack msg)) false (pack msg) 2
        (s ++ size_bytes (length (pack msg))) (omega arith) (inr l))
