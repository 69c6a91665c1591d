-- ===== src/Stub/Answers.antt =====
-- How the calls of source/client_stub.c read the answers of a server.
use mathlib.Core.List.{append_assoc}
use sd_projeto.Base.{
  ℕ, suc, ◌+◌, ◌^◌, ◌%◌, ◌<◌, ◌≡◌, refl, ℤ, pos, minus_one, to_unsigned, Bool, true, false, List,
  [], ◌∷◌, ◌++◌, map, none, some, ok, go, arith, length, replicate, if◌then◌else◌, for_range,
  at-append, write-append, length-append, length-map,
}
use sd_projeto.CString.{CString}
use sd_projeto.Data.{Bytes}
use sd_projeto.Data.Copies.{data_of}
use sd_projeto.EntryList.{KeyArray}
use sd_projeto.EntryList.Keys.{array_of}
use sd_projeto.Message.{MessageT}
use sd_projeto.Message.Opcode
use sd_projeto.Message.CType
use sd_projeto.Stub.{
  put_answer, get_answer, del_answer, size_answer, keys_answer, copy_key, ended, refused,
}
use sd_projeto.Stub.Requests.{binary_of, unpack_data-binary_of}

module _ (m : MessageT) where
  pub put_answer-done :
      (c : ℕ) → put_answer (some (record m { opcode = Opcode.put + 1; c_type = c })) ≡ pos 0
  unfolding put_answer refused
  put_answer-done c = refl

  pub del_answer-done :
      (had : Bool)
      → del_answer (
          some (record m {
            opcode = Opcode.del + 1;
            c_type = if had then CType.nothing else CType.bad;
          }))
        ≡ (if had then pos 0 else minus_one)
  unfolding del_answer refused
  del_answer-done true = refl
  del_answer-done false = refl

  pub get_answer-value :
      (v : Bytes) (c : ℕ)
      → length v < 2 ^ 31
      → get_answer (some (record m { opcode = Opcode.get + 1; value = binary_of v; c_type = c }))
        ≡ ok (some (data_of v))
  unfolding get_answer refused
  get_answer-value v c h = rw (unpack_data-binary_of v h)

  pub get_answer-nothing :
      get_answer
        (some (record m { opcode = Opcode.get + 1; value = record m.value { content = none } }))
      ≡ ok none
  unfolding get_answer refused
  get_answer-nothing = refl

  pub size_answer-result :
      (n : ℤ) (c : ℕ)
      → size_answer (some (record m { opcode = Opcode.size + 1; result = n; c_type = c })) ≡ n
  unfolding size_answer refused
  size_answer-result n c = refl

copy_keys_loop :
    (keys : List CString) (pre done : KeyArray)
    → length pre ≡ length done
    → for_range
        (length keys)
        (length done)
        (copy_key (some (pre ++ array_of keys)))
        (done ++ replicate (suc (length keys)) none)
      ≡ ok (go (done ++ array_of keys))
unfolding for_range copy_key
copy_keys_loop [] pre done e = refl
copy_keys_loop (k ∷ keys) pre done e =
    rw (← e, at-append pre (some k) (array_of keys))
      (rw (e, write-append done none (some k) (replicate (suc (length keys)) none))
        (rw (length-append, append_assoc, append_assoc, append_assoc) at
          (copy_keys_loop keys (pre ++ some k ∷ []) (done ++ some k ∷ [])
            (rw (length-append, length-append, e)))))

ended-array_of :
    (keys : List CString)
    → ended {R = Unit {0}} (length keys) (go (array_of keys)) ≡ ok (some (array_of keys))
unfolding ended
ended-array_of keys = rw (rw length-map at (write-append (map some keys) none none []))

-- The array of fewer than 2^64 keys that a getkeys answer carries is copied whole by the client,
-- within the bounds of both arrays.
pub keys_answer-array_of :
    (m : MessageT) (keys : List CString) (c : ℕ)
    → length keys < 2 ^ 64
    → keys_answer (
        some (record m {
          opcode = Opcode.getkeys + 1;
          n_keys = to_unsigned (pos (length keys));
          keys = some (array_of keys);
          c_type = c;
        }))
      ≡ ok (some (array_of keys))
unfolding keys_answer refused to_unsigned
keys_answer-array_of m keys c h =
    let low : length keys % 2 ^ 64 ≡ length keys = ground arith in
    let more : length keys + 1 ≡ suc (length keys) = omega arith in
    rw (low, more, copy_keys_loop keys [] [] refl, ended-array_of)
