-- ===== src/Tests/Buffers.antt =====
-- An example for the serialization of names.
use sd_projeto.Base.{◌≡◌, pos, true, [], ◌∷◌, some, ok, arith, length}
use sd_projeto.Data.{Bytes}
use sd_projeto.EntryList.Keys.{array_of}
use sd_projeto.Serialization.{write_keys, key_array_to_buffer, buffer_to_key_array}
use sd_projeto.Serialization.RoundTrip.{buffer_to_key_array-key_array_to_buffer}
use sd_projeto.Tests.{key_a, key_c}

buffer_to_key_array-key_array_to_buffer_example :
    (buffer : Bytes) × (key_array_to_buffer (some (array_of (key_a ∷ [] ∷ key_c ∷ []))) true
      ≡ ok (pos (length buffer), some buffer))
    × (buffer_to_key_array (some buffer) ≡ ok (some (array_of (key_a ∷ [] ∷ key_c ∷ []))))
buffer_to_key_array-key_array_to_buffer_example =
    buffer_to_key_array-key_array_to_buffer (key_a ∷ [] ∷ key_c ∷ [])
      ((omega arith, tt), (tt, ((omega arith, tt), tt))) (unfold write_keys in omega arith)
