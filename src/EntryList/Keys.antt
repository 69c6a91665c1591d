-- ===== src/EntryList/Keys.antt =====
-- The arrays of keys of source/list.c: they are filled within their bounds, in the order of the
-- list, and end with NULL.
use mathlib.Core.List.{append_assoc}
use sd_projeto.Base.{
  suc, ◌≡◌, refl, pos, pos_add_one, List, [], ◌∷◌, ◌++◌, map, Option, none, some, ok, length,
  replicate, write-append, length-append,
}
use sd_projeto.CString.{CString}
use sd_projeto.Entry.Order.{entry_of}
use sd_projeto.EntryList.{KeyArray, list_get_keys, keys_loop, collect_keys, list_free_keys}
use sd_projeto.EntryList.Assoc.{Assoc}
use sd_projeto.EntryList.Refines.{list_of}

abbrev pub keys_of : Assoc → List CString
keys_of = map (λ e. e.0)

-- an array of exactly these strings, behind them NULL
abbrev pub array_of : List CString → KeyArray
array_of keys = map some keys ++ none ∷ []

keys_loop-array_of :
    (m : Assoc) (filled : KeyArray)
    → keys_loop (map entry_of m) (length filled) (filled ++ replicate (suc (length m)) none)
      ≡ ok (filled ++ array_of (keys_of m))
unfolding keys_loop
keys_loop-array_of [] filled = write-append filled none none []
keys_loop-array_of ((k, v) ∷ m) filled =
    rw (write-append filled none (some k) (replicate (suc (length m)) none)) (
      rw (length-append, append_assoc, append_assoc) at
        (keys_loop-array_of m (filled ++ some k ∷ [])))

unfoldable pub keys_or_null : Assoc → Option KeyArray
keys_or_null [] = none
keys_or_null (e ∷ m) = some (array_of (keys_of (e ∷ m)))

collect_keys-array_of :
    (m : Assoc) → collect_keys (pos (length m)) (map entry_of m) ≡ ok (keys_or_null m)
unfolding collect_keys keys_or_null
collect_keys-array_of [] = refl
collect_keys-array_of (e ∷ m) = rw pos_add_one (rw (keys_loop-array_of (e ∷ m) []))

-- The array of keys of a list is NULL for an empty list, and otherwise holds every key in order
-- and ends with NULL.
pub list_get_keys-array_of : (m : Assoc) → list_get_keys (some (list_of m)) ≡ ok (keys_or_null m)
unfolding list_get_keys
list_get_keys-array_of m = collect_keys-array_of m

-- An array of keys that ends with NULL is freed without reading past its end.
pub list_free_keys-array_of :
    (keys : List CString) → list_free_keys (some (array_of keys)) ≡ ok (pos 0)
unfolding list_free_keys
list_free_keys-array_of [] = refl
list_free_keys-array_of (k ∷ keys) = list_free_keys-array_of keys
