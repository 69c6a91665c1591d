-- ===== src/Table/Listing.antt =====
-- `table_size`, `table_get_keys` and `table_get_entries` list the contents of the table, and stay
-- within the arrays that they fill.
use mathlib.Core.List.{append_assoc, append-nil}
use sd_projeto.Table.Arrays.{blank, filling, replicate-blank, filling-snoc, places, rows_fill}
use sd_projeto.Base.{
  false, ◌==◌, for_range-rows, ℕ, ◌+◌, ◌<◌, ◌≡◌, ◌∙◌, refl, ap, pos, pos_part, ◌+ℤ◌, pos-+ℤ,
  pos_add_one, List, [], ◌∷◌, ◌++◌, map, Option, none, some, Run, ok, ◌>>=◌, at, memcpy,
  write-append, Flow, go, for_range, for_each, for_range-at, arith, length, length-append,
  length-map, replicate, take-length, leb-true,
}
use sd_projeto.CString.{CString}
use sd_projeto.Data.{Bytes}
use sd_projeto.Entry.{Entry}
use sd_projeto.Entry.Order.{entry_of}
use sd_projeto.EntryList.{EntryList, KeyArray}
use sd_projeto.EntryList.Assoc.{Assoc}
use sd_projeto.EntryList.Refines.{list_size-length}
use sd_projeto.EntryList.Keys.{
  keys_of, array_of, keys_or_null, list_get_keys-array_of, list_free_keys-array_of,
}
use sd_projeto.Table.{
  Filling, count_row, counted, table_size, copy_place, copy_key, copy_keys, row_keys, filled,
  table_get_keys, copy_entry, copy_nodes, row_entries, table_get_entries,
}
use sd_projeto.Table.Rows.{Rows, row_of, table_of}
use sd_projeto.Table.Contents.{contents}

-- The loop over the rows of a table.
rows_loop :
    {S R : Type 0} (ms : Rows) (body : Option EntryList → S → Run (Flow S R)) (s : S)
    → for_range (length ms) 0 (λ i t. at (map row_of ms) i >>= λ r. body r t) s
      ≡ for_each (map row_of ms) body s
rows_loop ms body s = rw length-map at (for_range-rows body (map row_of ms) s)

count_rows :
    (ms : Rows) (n : ℕ)
    → for_each (map row_of ms) count_row (pos n) ≡ ok (go (pos (n + length (contents ms))))
unfolding for_each count_row contents
count_rows [] n = ground arith
count_rows (m ∷ ms) n =
    let nonneg : (length m + 1 == 0) ≡ false = ground arith in
    rw (list_size-length m, nonneg, pos-+ℤ, count_rows ms (n + length m), length-append)
      (ap (λ k. ok (go (pos k))) (omega arith))

-- The size is the number of pairs.
pub table_size-contents :
    (ms : Rows) → 0 < length ms → table_size (some (table_of ms)) ≡ ok (pos (length (contents ms)))
unfolding table_size counted
table_size-contents ms h =
    let nonzero : (length ms + 0 == 0) ≡ false = ground arith in
    rw (nonzero, rows_loop ms count_row (pos 0), count_rows ms 0)
      (ap (λ k. ok (pos k)) (omega arith))

abbrev key_of : CString × Bytes → CString
key_of e = e.0

copy_places :
    (m : Assoc) (pre tail : KeyArray)
    → for_each (places key_of m) copy_place (filling pre (blank m ++ tail))
      ≡ ok (go (filling (pre ++ places key_of m) tail))
unfolding for_each copy_place
copy_places [] pre tail = rw append-nil
copy_places ((k, v) ∷ m) pre tail =
    rw
      (
        write-append pre none (some k) (blank m ++ tail),
        filling-snoc pre (blank m ++ tail) (some k),
      )
      (copy_places m (pre ++ some k ∷ []) tail
        ∙ rw (append_assoc pre (some k ∷ []) (places key_of m)))

length-places : (m : Assoc) → length (places key_of m) ≡ length m
length-places m = rw (length-map, length-map)

-- The loop over one row's array reads the keys, and not the NULL behind them.
copy_keys_loop :
    (m : Assoc) (s : Filling CString)
    → for_range (length m) 0 (copy_key (array_of (keys_of m))) s
      ≡ for_each (places key_of m) copy_place s
unfolding copy_key
copy_keys_loop m s =
    rw length-places at (for_range-at copy_place [] (places key_of m) (none ∷ []) s)

copy_keys-fills :
    (m : Assoc) (pre tail : KeyArray)
    → copy_keys (row_of m) (keys_or_null m) (filling pre (blank m ++ tail))
      ≡ ok (go (filling (pre ++ places key_of m) tail))
unfolding copy_keys keys_or_null
copy_keys-fills [] pre tail = rw append-nil
copy_keys-fills (e ∷ m) pre tail = rw (
  list_size-length (e ∷ m),
  copy_keys_loop (e ∷ m) (filling pre (blank (e ∷ m) ++ tail)),
  copy_places (e ∷ m) pre tail,
  list_free_keys-array_of (keys_of (e ∷ m)),
)

row_keys-fills :
    (m : Assoc) (pre tail : KeyArray)
    → row_keys (row_of m) (filling pre (blank m ++ tail))
      ≡ ok (go (filling (pre ++ places key_of m) tail))
unfolding row_keys
row_keys-fills m pre tail = rw (list_get_keys-array_of m) (copy_keys-fills m pre tail)

copy_entry-entry_of : (e : CString × Bytes) → copy_entry (entry_of e) ≡ ok (entry_of e)
unfolding copy_entry memcpy
copy_entry-entry_of (k, v) = rw (leb-true (length v) (length v) (omega arith), take-length)

copy_nodes-fills :
    (m : Assoc) (pre tail : List (Option Entry))
    → copy_nodes (map entry_of m) (filling pre (blank m ++ tail))
      ≡ ok (filling (pre ++ places entry_of m) tail)
unfolding copy_nodes
copy_nodes-fills [] pre tail = rw append-nil
copy_nodes-fills (e ∷ m) pre tail =
    rw
      (
        copy_entry-entry_of e,
        write-append pre none (some (entry_of e)) (blank m ++ tail),
        filling-snoc pre (blank m ++ tail) (some (entry_of e)),
      )
      (copy_nodes-fills m (pre ++ some (entry_of e) ∷ []) tail
        ∙ rw (append_assoc pre (some (entry_of e) ∷ []) (places entry_of m)))

row_entries-fills :
    (m : Assoc) (pre tail : List (Option Entry))
    → row_entries (row_of m) (filling pre (blank m ++ tail))
      ≡ ok (go (filling (pre ++ places entry_of m) tail))
unfolding row_entries
row_entries-fills m pre tail = rw copy_nodes-fills

none-blank : {A : Type 0} (m : Assoc) → none ∷ blank {A = A} m ≡ blank m ++ none ∷ []
none-blank [] = refl
none-blank (e ∷ m) = ap (λ r. none ∷ r) (none-blank m)

-- `calloc(table_size(table) + 1)` has a place for each pair, and one for NULL.
fresh_array :
    {A : Type 0} (m : Assoc)
    → replicate {A = Option A} (pos_part (pos (length m) +ℤ pos 1)) none ≡ blank m ++ none ∷ []
fresh_array m = rw (pos_add_one, replicate-blank m) (none-blank m)

pub table_get_keys-contents :
    (ms : Rows)
    → 0 < length ms
    → table_get_keys (some (table_of ms)) ≡ ok (some (array_of (keys_of (contents ms))))
unfolding table_get_keys filled
table_get_keys-contents ms h = rw (
  table_size-contents ms h,
  fresh_array (contents ms),
  rows_loop ms row_keys _,
  rows_fill key_of row_keys row_keys-fills ms [] (none ∷ []),
)

pub table_get_entries-contents :
    (ms : Rows)
    → 0 < length ms
    → table_get_entries (some (table_of ms))
      ≡ ok (some (places entry_of (contents ms) ++ none ∷ []))
unfolding table_get_entries filled
table_get_entries-contents ms h = rw (
  table_size-contents ms h,
  fresh_array (contents ms),
  rows_loop ms row_entries _,
  rows_fill entry_of row_entries row_entries-fills ms [] (none ∷ []),
)
