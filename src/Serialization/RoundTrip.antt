-- ===== src/Serialization/RoundTrip.antt =====
-- An array of strings survives the way into a buffer and back.
use sd_projeto.Base.{
  ℕ, ◌+◌, ◌^◌, ◌<◌, ◌≡◌, refl, ap, ◌≤◌, ltb, ◌%◌, ◌∙◌, to_int, to_unsigned, ◌==◌, pos, true, false,
  List, [], ◌∷◌, ◌++◌, some, ok, arith, length, length-append,
}
use sd_projeto.CString.{CString}
use sd_projeto.Data.{Bytes}
use sd_projeto.EntryList.Keys.{array_of}
use sd_projeto.Stub.Requests.{to_int-small}
use sd_projeto.Serialization.{
  network_int, scan_keys, alloc_size, fill, write_keys, key_array_to_buffer, read_int, read_string,
  read_keys, read_array, buffer_to_key_array,
}

-- No byte of a string is its terminator.
abbrev pub IsString : CString → Type 0
IsString [] = Unit
IsString (b ∷ s) = (0 < b) × IsString s

abbrev pub AreStrings : List CString → Type 0
AreStrings [] = Unit
AreStrings (s ∷ keys) = IsString s × AreStrings keys

scan_keys-array_of : (keys : List CString) → scan_keys (array_of keys) ≡ ok keys
unfolding scan_keys
scan_keys-array_of [] = refl
scan_keys-array_of (key ∷ keys) = rw (scan_keys-array_of keys)

to_unsigned-small : (n : ℕ) → n < 2 ^ 31 → to_unsigned (pos n) ≡ n
unfolding to_unsigned
to_unsigned-small n h = ground arith

-- As long as the strings with their terminators fit, no sum wraps.
alloc_size-write_keys :
    (n : ℕ) (keys : List CString)
    → n + length (write_keys keys) < 2 ^ 31
    → alloc_size (pos n) keys ≡ pos (n + length (write_keys keys))
unfolding alloc_size write_keys
alloc_size-write_keys n [] h = ap pos (omega arith)
alloc_size-write_keys n (key ∷ keys) h =
    let l = length-append key (0 ∷ write_keys keys) in
    let small : n + length key + 1 < 2 ^ 31 = omega (arith, l) in
    let u : (to_unsigned (pos n) + length key + 1) % 2 ^ 64 ≡ n + length key + 1 =
      ap (λ k. (k + length key + 1) % 2 ^ 64) (to_unsigned-small n (omega arith)) ∙ omega arith in
    ap (λ k. alloc_size (to_int k) keys) u
    ∙ ap (λ k. alloc_size k keys) (to_int-small (n + length key + 1) small)
    ∙ alloc_size-write_keys (n + length key + 1) keys (omega (arith, l))
    ∙ ap pos (omega (arith, l))

not_less : (n : ℕ) → ltb n n ≡ false
not_less n = ground arith

fill-fits : (bytes : Bytes) → fill (pos (length bytes)) bytes ≡ ok bytes
unfolding fill
fill-fits bytes = rw (not_less (length bytes)) refl

read_int-network_int :
    (n : ℕ) (rest : Bytes) → n < 2 ^ 31 → read_int (network_int n ++ rest) ≡ ok (n, rest)
unfolding read_int network_int
read_int-network_int n rest h = ap (λ k. ok (k, rest)) (omega arith)

not_terminator : (b : ℕ) → 0 < b → (b == 0) ≡ false
not_terminator b h = ground arith

read_string-append :
    (s : CString) (rest : Bytes) → IsString s → read_string (s ++ (0 ∷ rest)) ≡ ok (s, rest)
unfolding read_string
read_string-append [] rest h = refl
read_string-append (b ∷ s) rest (h, hs) = rw (not_terminator b h, read_string-append s rest hs)

read_keys-write_keys :
    (keys : List CString)
    → AreStrings keys
    → read_keys (length keys) (write_keys keys) ≡ ok (array_of keys)
unfolding read_keys write_keys
read_keys-write_keys [] h = refl
read_keys-write_keys (key ∷ keys) (h, hs) =
    rw (read_string-append key (write_keys keys) h, read_keys-write_keys keys hs)

-- the header and the strings
sized :
    (keys : List CString)
    → 4 + length (write_keys keys) < 2 ^ 31
    → alloc_size (pos 4) keys ≡ pos (length (network_int (length keys) ++ write_keys keys))
unfolding network_int
sized keys small = alloc_size-write_keys 4 keys small ∙ ap pos (omega arith)

fewer : (keys : List CString) → length keys ≤ length (write_keys keys)
unfolding write_keys
fewer [] = omega arith
fewer (key ∷ keys) = let l = length-append key (0 ∷ write_keys keys) in omega (arith, l, fewer keys)

few : (keys : List CString) → 4 + length (write_keys keys) < 2 ^ 31 → length keys < 2 ^ 31
few keys h = omega (arith, fewer keys)

-- The buffer for an array of strings, none of which holds a zero byte, and which take fewer than
-- 2^31 bytes with their terminators and four bytes for their number, has the size that is
-- returned, and reading it gives the array again.
pub buffer_to_key_array-key_array_to_buffer :
    (keys : List CString)
    → AreStrings keys
    → 4 + length (write_keys keys) < 2 ^ 31
    → (buffer : Bytes) × (key_array_to_buffer (some (array_of keys)) true
        ≡ ok (pos (length buffer), some buffer))
      × (buffer_to_key_array (some buffer) ≡ ok (some (array_of keys)))
unfolding key_array_to_buffer buffer_to_key_array read_array
buffer_to_key_array-key_array_to_buffer keys h small = (
  network_int (length keys) ++ write_keys keys,
  rw
      (
        scan_keys-array_of keys,
        sized keys small,
        fill-fits (network_int (length keys) ++ write_keys keys),
      )
      refl,
  rw (
    read_int-network_int (length keys) (write_keys keys) (few keys small),
    to_int-small (length keys) (few keys small),
    read_keys-write_keys keys h,
  ),
)
