-- ===== src/Serialization.antt =====
-- source/serialization.c: an array of strings, which ends with NULL, as one buffer, and back.
pub mod RoundTrip
use sd_projeto.Base.{
  ℕ, zero, suc, ◌+◌, ◌*◌, ◌/◌, ◌%◌, ◌^◌, ℤ, pos, negsuc, minus_one, to_int, ◌==◌, Bool, true, false,
  List, [], ◌∷◌, ◌++◌, Option, none, some, to_unsigned, ltb, null_pointer, Run, ok, fault,
  out_of_bounds, ◌>>=◌, length, if◌then◌else◌,
}
use sd_projeto.CString.{CString}
use sd_projeto.Data.{Bytes}
use sd_projeto.EntryList.{KeyArray}

-- `htonl`, and the four bytes of its result in memory: the high byte comes first.
network_int : ℕ → Bytes
network_int n = n / 2 ^ 24 % 256 ∷ n / 2 ^ 16 % 256 ∷ n / 2 ^ 8 % 256 ∷ n % 256 ∷ []

-- The keys before NULL.
scan_keys : KeyArray → Run (List CString)
scan_keys [] = fault out_of_bounds
scan_keys (none ∷ rest) = ok []
scan_keys (some key ∷ rest) = do keys ← scan_keys rest; ok (key ∷ keys)

-- `size_to_alloc` after the loop: `strlen` makes each sum a `size_t`, which is converted to an `int`.
alloc_size : ℤ → List CString → ℤ
alloc_size size_to_alloc [] = size_to_alloc
alloc_size size_to_alloc (key ∷ keys) =
    alloc_size (to_int ((to_unsigned size_to_alloc + length key + 1) % 2 ^ 64)) keys

-- Each string with its terminator.
unfoldable pub write_keys : List CString → Bytes
write_keys [] = []
write_keys (key ∷ keys) = key ++ (0 ∷ write_keys keys)

-- What is written into the block that `malloc` gives for this size. The size of a negative `int` is more
-- than 2^63 bytes, for which there is no block.
fill : ℤ → Bytes → Run Bytes
fill (negsuc n) bytes = fault null_pointer
fill (pos n) bytes = if ltb n (length bytes) then fault out_of_bounds else ok bytes

-- What is returned, and the buffer that `keys_buf` then points at; `place` says whether `keys_buf`
-- is a place.
pub key_array_to_buffer : Option KeyArray → Bool → Run (ℤ × Option Bytes)
key_array_to_buffer (some arr) true = do
  keys ← scan_keys arr
  buffer ← fill (alloc_size (pos 4) keys) (network_int (length keys) ++ write_keys keys)
  ok (alloc_size (pos 4) keys, some buffer)
key_array_to_buffer arr place = ok (minus_one, none)

-- `ntohl` of the first four bytes, and the bytes behind them.
read_int : Bytes → Run (ℕ × Bytes)
read_int (a ∷ b ∷ c ∷ d ∷ rest) = ok (a * 2 ^ 24 + b * 2 ^ 16 + c * 2 ^ 8 + d, rest)
read_int _ = fault out_of_bounds

-- The string before the next terminator, and the bytes behind that.
read_string : Bytes → Run (CString × Bytes)
read_string [] = fault out_of_bounds
read_string (b ∷ rest) =
    if b == 0 then ok ([], rest) else do (s, rest') ← read_string rest; ok (b ∷ s, rest')

read_keys : ℕ → Bytes → Run KeyArray
read_keys zero buffer = ok (none ∷ [])
read_keys (suc n) buffer = do
  (key, rest) ← read_string buffer
  keys_array ← read_keys n rest
  ok (some key ∷ keys_array)

-- For a negative count, `keys_array[nkeys]` is outside the array.
read_array : ℤ → Bytes → Run (Option KeyArray)
read_array (pos n) buffer = do keys_array ← read_keys n buffer; ok (some keys_array)
read_array (negsuc n) buffer = fault out_of_bounds

pub buffer_to_key_array : Option Bytes → Run (Option KeyArray)
buffer_to_key_array none = ok none
buffer_to_key_array (some keys_buf) = do
  (nkeys, buffer) ← read_int keys_buf
  read_array (to_int nkeys) buffer
