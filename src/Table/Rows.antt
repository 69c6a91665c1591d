-- ===== src/Table/Rows.antt =====
-- What a table stands for: a row for each value of the hash, each row a dictionary.
use sd_projeto.Base.{
  ℕ, suc, zero, ◌∷◌, ◌^◌, ◌<◌, ◌≡◌, refl, ◌≢◌, pos, List, [], map, Option, none, some, Run, ok,
  arith, length, set, get_or, get_or-set, length-set, length-map, map-set, ◌==◌, if◌then◌else◌, at,
  at_int, at-get_or, Bool-cases, inl, inr, true, false, is_some, Bool,
}
use sd_projeto.CString.{CString}
use sd_projeto.CString.Order.{str_eq, eq_of_str_eq}
use sd_projeto.Data.{Bytes}
use sd_projeto.EntryList.{EntryList}
use sd_projeto.EntryList.Assoc.{Assoc, lookup, IsSorted, IsFilled}
use sd_projeto.EntryList.Refines.{list_of}
use sd_projeto.Table.{Table}
use sd_projeto.Table.Hash.{hash_code, hash_code-lt}

abbrev pub Rows : Type 0
Rows = List Assoc

abbrev pub row_of : Assoc → Option EntryList
row_of m = some (list_of m)

-- the table with these rows
abbrev pub table_of : Rows → Table
table_of ms = record { lists = map row_of ms; size = pos (length ms) }

index_of : Run sd_projeto.Base.ℤ → ℕ
index_of (ok (pos i)) = i
index_of _ = 0

-- the row of `key` among `n` rows
unfoldable pub home : CString → ℕ → ℕ
unfolding index_of
home key n = index_of (hash_code key (pos n))

pub hash_code-home :
    (key : CString) (n : ℕ)
    → 0 < n
    → n < 2 ^ 31
    → (hash_code key (pos n) ≡ ok (pos (home key n))) × (home key n < n)
unfolding home index_of
hash_code-home key n h k = let (i, index, lt) = hash_code-lt key n h k in (rw index, rw index lt)

abbrev pub row : Rows → CString → Assoc
row ms k = get_or ms (home k (length ms)) []

unfoldable pub view : Rows → CString → Option Bytes
view ms k = lookup k (row ms k)

-- Every row is in order, and holds only keys that belong there.
pub record IsTable (ms : Rows) : Type 0 where
  pub pos_width : 0 < length ms
  pub width : length ms < 2 ^ 31
  pub sorted : (i : ℕ) → IsSorted (get_or ms i [])
  pub filled : (i : ℕ) → IsFilled (get_or ms i [])
  pub placed :
      (k : CString) (i : ℕ) → is_some (lookup k (get_or ms i [])) ≡ true → home k (length ms) ≡ i

-- the row of `k` becomes `m`
abbrev pub set_row : Rows → CString → Assoc → Rows
set_row ms k m = set ms (home k (length ms)) m

at-row_of :
    (ms : Rows) (i : ℕ) → i < length ms → at (map row_of ms) i ≡ ok (row_of (get_or ms i []))
unfolding at
at-row_of [] i h = absurd (omega arith)
at-row_of (m ∷ ms) zero h = refl
at-row_of (m ∷ ms) (suc i) h = at-row_of ms i (omega arith)

-- The pointer to the row of a key.
pub at_int-row :
    (ms : Rows) (k : CString)
    → IsTable ms
    → at_int (map row_of ms) (pos (home k (length ms))) ≡ ok (row_of (row ms k))
unfolding at_int
at_int-row ms k t =
    let lt = (hash_code-home k (length ms) t.pos_width t.width).1 in
    at-row_of ms (home k (length ms)) lt

module _ (ms : Rows) (k : CString) (m : Assoc) (t : IsTable ms) where
  lt : home k (length ms) < length ms
  lt = (hash_code-home k (length ms) t.pos_width t.width).1

  stays_placed :
      ((j : CString) → str_eq k j ≡ false → lookup j m ≡ lookup j (row ms k))
      → (j : CString) (i : ℕ)
      → is_some (lookup j (if home k (length ms) == i then m else get_or ms i [])) ≡ true
      → home j (length ms) ≡ i
  stays_placed same j i h =
      ground (arith, same j, eq_of_str_eq k j, t.placed j (home k (length ms)), t.placed j i)

  -- A new row with the keys of the old one, and at most `k` besides, keeps the table in order.
  pub set_row-IsTable :
      IsSorted m
      → IsFilled m
      → ((j : CString) → str_eq k j ≡ false → lookup j m ≡ lookup j (row ms k))
      → IsTable (set_row ms k m)
  set_row-IsTable s f same = record {
    pos_width = rw length-set t.pos_width;
    width = rw length-set t.width;
    sorted = λ i.
        rw (get_or-set, lt)
          (elim (Bool-cases (home k (length ms) == i)) [
            | inl e ↦ rw e s
            | inr e ↦ rw e (t.sorted i)
          ]);
    filled = λ i.
        rw (get_or-set, lt)
          (elim (Bool-cases (home k (length ms) == i)) [
            | inl e ↦ rw e f
            | inr e ↦ rw e (t.filled i)
          ]);
    placed = λ j i h. rw length-set (stays_placed same j i (rw (get_or-set, lt) at h));
  }

  -- Only keys of that row see the change.
  pub view-set_row :
      (w : Option Bytes)
      → ((j : CString) → lookup j m ≡ (if str_eq k j then w else lookup j (row ms k)))
      → (j : CString) → view (set_row ms k m) j ≡ (if str_eq k j then w else view ms j)
  unfolding view
  view-set_row w reads j =
      rw (length-set, get_or-set, lt) (ground (arith, reads j, eq_of_str_eq k j))
