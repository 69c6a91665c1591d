-- ===== src/Table/Errors.antt =====
-- The calls of the table that fail.
use sd_projeto.Base.{
  ◌≡◌, refl, ap, pos, minus_one, leb_ℤ, true, List, [], ◌∷◌, none, some, ok, set, get_or, ℕ, zero,
  suc, length, map-set, Option-cases, inl, inr,
}
use sd_projeto.CString.{CString}
use sd_projeto.Data.{Data, data_dup}
use sd_projeto.Entry.{entry_create}
use sd_projeto.EntryList.{list_add}
use sd_projeto.Table.{Table, table_put, with_row}
use sd_projeto.Table.Rows.{Rows, row_of, table_of, home, row, at_int-row}
use sd_projeto.Table.Methods.{Map, Models, hash_code-row}

-- The block has nothing to copy.
abbrev pub IsEmptyBlock : Data → Type 0
IsEmptyBlock d = (leb_ℤ d.datasize (pos 0) ≡ true)

dup_none : (d : Data) → IsEmptyBlock d → data_dup (some d) ≡ ok none
unfolding data_dup
dup_none d e = elim (Option-cases d.content) [ inl c ↦ rw c | inr (b, c) ↦ rw (c, e) ]

set_same : {A : Type 0} (xs : List A) (i : ℕ) (d : A) → set xs i (get_or xs i d) ≡ xs
set_same [] i d = refl
set_same (x ∷ xs) zero d = refl
set_same (x ∷ xs) (suc i) d = ap (λ r. x ∷ r) (set_same xs i d)

-- A row that is written back as it was leaves the table as it was.
with_row_same :
    (ms : Rows) (k : CString)
    → with_row (table_of ms) (pos (home k (length ms))) (row_of (row ms k)) ≡ some (table_of ms)
with_row_same ms k =
    ap (λ ls. some (record { lists = ls; size = pos (length ms) }))
      (rw
        (← map-set row_of ms (home k (length ms)) (row ms k), set_same ms (home k (length ms)) []))

-- Putting a block whose size is not positive into a table that holds a map returns -1 and leaves
-- the table as it was.
pub table_put-IsEmptyBlock :
    {f : Map} {t : Table}
    → Models f t
    → (k : CString) (d : Data) → IsEmptyBlock d
    → table_put (some t) (some k) (some d) ≡ ok (minus_one, some t)
unfolding table_put entry_create list_add
table_put-IsEmptyBlock models k d e = rw table (
    rw (hash_code-row rows k in_order, dup_none d e, at_int-row rows k in_order)
      (ap (λ r. ok (minus_one, r)) (with_row_same rows k)))
  where
    open models use {rows, table, in_order}
