-- ===== src/Entry.antt =====
-- source/entry.c and include/entry.h: a key with its block of data.
pub mod Order
use sd_projeto.Base.{
  ℤ, pos, negsuc, minus_one, ltb_ℤ, Option, none, some, Run, ok, ◌>>=◌, if◌then◌else◌,
}
use sd_projeto.CString.{CString, strcmp}
use sd_projeto.Data.{Data, data_destroy, data_dup}

-- `struct entry_t`
pub record Entry : Type 0 where
  pub key : Option CString
  pub value : Option Data

unfoldable pub entry_create : Option CString → Option Data → Option Entry
entry_create (some key) (some d) = some (record { key = some key; value = some d })
entry_create _ _ = none

destroy_fields : Option CString → Option Data → ℤ
destroy_fields (some key) (some d) = pos 0
destroy_fields _ _ = minus_one

-- What is returned; on success the key, the block and the entry are freed.
unfoldable pub entry_destroy : Option Entry → ℤ
unfolding destroy_fields
entry_destroy none = minus_one
entry_destroy (some e) = destroy_fields e.key e.value

dup_fields : Option CString → Option Data → Run (Option Entry)
dup_fields (some key) (some d) = do copy ← data_dup (some d); ok (entry_create (some key) copy)
dup_fields _ _ = ok none

unfoldable pub entry_dup : Option Entry → Run (Option Entry)
unfolding dup_fields data_dup entry_create
entry_dup none = ok none
entry_dup (some e) = dup_fields e.key e.value

unfoldable pub entry_replace : Option Entry → Option CString → Option Data → ℤ × Option Entry
entry_replace (some e) (some new_key) (some new_value) =
    (pos 0, some (record { key = some new_key; value = some new_value }))
entry_replace e _ _ = (minus_one, e)

abbrev pub entry_cmp_error : ℤ
entry_cmp_error = negsuc 1

abbrev pub entry_equal : ℤ
entry_equal = pos 0

abbrev pub entry_lesser : ℤ
entry_lesser = negsuc 0

abbrev pub entry_greater : ℤ
entry_greater = pos 1

compare_keys : Option CString → Option CString → ℤ
compare_keys (some k1) (some k2) =
    let result = strcmp k1 k2 in
    if ltb_ℤ (pos 0) result
    then entry_greater
    else if ltb_ℤ result (pos 0)
    then entry_lesser
    else entry_equal
compare_keys _ _ = entry_cmp_error

unfoldable pub entry_compare : Option Entry → Option Entry → ℤ
unfolding compare_keys
entry_compare (some e1) (some e2) = compare_keys e1.key e2.key
entry_compare _ _ = entry_cmp_error
