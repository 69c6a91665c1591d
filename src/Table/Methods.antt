-- ===== src/Table/Methods.antt =====
-- `table_create`, `table_put`, `table_get` and `table_remove` are those of a finite map.
use mathlib.Core.Option
use mathlib.Core.List.{append_assoc}
use sd_projeto.Base.{
  leb_ℤ, ◌≢◌, ℕ, zero, suc, ◌^◌, ◌<◌, ◌≡◌, refl, ap, pos, List, [], ◌∷◌, ◌++◌, map, Option, none,
  some, is_some, ok, arith, length, get_or, length-set, map-set, replicate, length-replicate,
  if◌then◌else◌, Bool-cases, inl, inr, true, false, go, for_range, write-append, length-append,
}
use sd_projeto.CString.{CString}
use sd_projeto.CString.Order.{str_eq}
use sd_projeto.Data.{Bytes}
use sd_projeto.Data.Copies.{data_of, data_dup-data_of}
use sd_projeto.Entry.{entry_create}
use sd_projeto.Entry.Order.{entry_of}
use sd_projeto.EntryList.{EntryList, list_create}
use sd_projeto.EntryList.Assoc.{
  Assoc, lookup, insert, remove, insert-IsSorted, remove-IsSorted, insert-IsFilled, remove-IsFilled,
  lookup-insert, lookup-remove, lookup-IsFilled,
}
use sd_projeto.EntryList.Refines.{list_add-insert, list_remove-remove, list_get-lookup}
use sd_projeto.Table.{
  Table, table_create, table_put, table_get, table_remove, create_row, created, found_value,
  with_row,
}
use sd_projeto.Table.Hash.{hash_code}
use sd_projeto.Table.Rows.{
  Rows, row_of, table_of, home, hash_code-home, row, view, IsTable, set_row, at_int-row,
  set_row-IsTable, view-set_row,
}

-- a finite map from keys to bytes
abbrev pub Map : Type 0
Map = CString → Option Bytes

abbrev pub empty : Map
empty k = none

abbrev pub update : Map → CString → Option Bytes → Map
update f k v j = if str_eq k j then v else f j

-- The table `t` holds the map `f`.
pub record Models (f : Map) (t : Table) : Type 0 where
  pub rows : Rows
  pub table : t ≡ table_of rows
  pub in_order : IsTable rows
  pub reads : (k : CString) → view rows k ≡ f k

get_or-replicate : (n i : ℕ) → get_or {A = Assoc} (replicate n []) i [] ≡ []
get_or-replicate zero i = refl
get_or-replicate (suc n) zero = refl
get_or-replicate (suc n) (suc i) = get_or-replicate n i

module _ (ms : Rows) (k : CString) (t : IsTable ms) where
  pub hash_code-row : hash_code k (pos (length ms)) ≡ ok (pos (home k (length ms)))
  hash_code-row = (hash_code-home k (length ms) t.pos_width t.width).0

  with_row-set_row :
      (m : Assoc)
      → with_row (table_of ms) (pos (home k (length ms))) (row_of m)
        ≡ some (table_of (set_row ms k m))
  with_row-set_row m = rw (length-set, map-set)

  table_put-insert :
      (v : Bytes)
      → 0 < length v
      → table_put (some (table_of ms)) (some k) (some (data_of v))
        ≡ ok (pos 0, some (table_of (set_row ms k (insert k v (row ms k)))))
  unfolding table_put entry_create
  table_put-insert v h =
      rw
        (
          hash_code-row,
          data_dup-data_of v h,
          at_int-row ms k t,
          list_add-insert k v (row ms k) (t.sorted _),
        )
        (elim (Bool-cases (is_some (lookup k (row ms k)))) [
          | inl e ↦ rw (e, ← with_row-set_row (insert k v (row ms k)))
          | inr e ↦ rw (e, ← with_row-set_row (insert k v (row ms k)))
        ])

  table_remove-remove :
      table_remove (some (table_of ms)) (some k)
      ≡ ok (
        (if is_some (view ms k) then pos 0 else pos 1),
        some (table_of (set_row ms k (remove k (row ms k)))),
      )
  unfolding table_remove view
  table_remove-remove = rw (
    hash_code-row,
    at_int-row ms k t,
    list_remove-remove k (row ms k),
    ← with_row-set_row (remove k (row ms k)),
  )

  found_value-lookup :
      (w : Option Bytes)
      → ((v : Bytes) → w ≡ some v → 0 < length v)
      → found_value (Option.map (λ v. entry_of (k, v)) w) ≡ ok (Option.map data_of w)
  unfolding found_value
  found_value-lookup none f = refl
  found_value-lookup (some v) f = data_dup-data_of v (f v refl)

  table_get-view : table_get (some (table_of ms)) (some k) ≡ ok (Option.map data_of (view ms k))
  unfolding table_get view
  table_get-view =
      rw (hash_code-row, at_int-row ms k t, list_get-lookup k (row ms k))
        (found_value-lookup (lookup k (row ms k))
          λ v e. lookup-IsFilled k (row ms k) v (t.filled _) e)

  insert-Models :
      (f : Map) (v : Bytes)
      → 0 < length v
      → ((j : CString) → view ms j ≡ f j)
      → Models (update f k (some v)) (table_of (set_row ms k (insert k v (row ms k))))
  insert-Models f v h reads =
      let m = insert k v (row ms k) in
      record {
        rows = set_row ms k m;
        table = refl;
        in_order =
            set_row-IsTable ms k m t (insert-IsSorted k v (row ms k) (t.sorted _))
              (insert-IsFilled k v (row ms k) h (t.filled _)) (λ j e. rw (lookup-insert, e));
        reads = λ j.
            rw (view-set_row ms k m t (some v) (λ i. lookup-insert k i v (row ms k)) j, reads j);
      }

  remove-Models :
      (f : Map)
      → ((j : CString) → view ms j ≡ f j)
      → Models (update f k none) (table_of (set_row ms k (remove k (row ms k))))
  remove-Models f reads =
      let m = remove k (row ms k) in
      let look = λ (i : CString). lookup-remove k i (row ms k) (t.sorted _) in
      record {
        rows = set_row ms k m;
        table = refl;
        in_order =
            set_row-IsTable ms k m t (remove-IsSorted k (row ms k) (t.sorted _))
              (remove-IsFilled k (row ms k) (t.filled _)) (λ j e. rw (look j, e));
        reads = λ j. rw (view-set_row ms k m t none look j, reads j);
      }

module _ {f : Map} {t : Table} (models : Models f t) (k : CString) where
  open models use {rows, table, in_order, reads}

  -- Putting a block of at least one byte into a table that holds the map f returns 0, and the
  -- table then holds f with the key sent to these bytes.
  pub table_put-update :
      (v : Bytes)
      → 0 < length v
      → (t' : Table) × (table_put (some t) (some k) (some (data_of v)) ≡ ok (pos 0, some t'))
        × Models (update f k (some v)) t'
  table_put-update v h = (
    _,
    rw table (table_put-insert rows k in_order v h),
    insert-Models rows k in_order f v h reads,
  )

  -- Removing a key from a table that holds the map f returns 0 if f has the key and 1 if not, and
  -- the table then holds f without the key.
  pub table_remove-update :
      (t' : Table) × (table_remove (some t) (some k)
        ≡ ok ((if is_some (f k) then pos 0 else pos 1), some t'))
      × Models (update f k none) t'
  table_remove-update = (
    _,
    rw (table, ← reads k) (table_remove-remove rows k in_order),
    remove-Models rows k in_order f reads,
  )

  -- Getting a key from a table that holds the map f returns a block with the bytes of f at the
  -- key, or NULL if f has none.
  pub table_get-Models : table_get (some t) (some k) ≡ ok (Option.map data_of (f k))
  table_get-Models = rw (table, ← reads k) (table_get-view rows k in_order)

create_rows :
    (n : ℕ) (done : List (Option EntryList))
    → for_range n (length done) create_row (done ++ replicate n none)
      ≡ ok (go (done ++ replicate n (some list_create)))
unfolding for_range create_row
create_rows zero done = refl
create_rows (suc n) done = rw (write-append done none (some list_create) (replicate n none)) (
    rw (length-append, append_assoc, append_assoc) at
      (create_rows n (done ++ some list_create ∷ [])))

map-replicate : (n : ℕ) → map row_of (replicate n []) ≡ replicate n (row_of [])
map-replicate zero = refl
map-replicate (suc n) = ap (λ r. row_of [] ∷ r) (map-replicate n)

not_below : (n : ℕ) → 0 < n → leb_ℤ (pos n) (pos 0) ≡ false
not_below n h = ground arith

no_key : (k : CString) → is_some (lookup k []) ≢ true
unfolding lookup
no_key k e = cc

-- Creating a table with at least one and fewer than 2^31 rows succeeds, and the table holds the
-- empty map.
pub table_create-empty :
    (n : ℕ)
    → 0 < n
    → n < 2 ^ 31
    → (t : Table) × (table_create (pos n) ≡ ok (some t)) × Models empty t
unfolding table_create created list_create view lookup
table_create-empty n h k = (
  table_of (replicate n []),
  rw (not_below n h, create_rows n []) (rw (length-replicate, map-replicate n)),
  record {
    rows = replicate n [];
    table = refl;
    in_order = record {
      pos_width = rw length-replicate h;
      width = rw length-replicate k;
      sorted = λ i. rw get_or-replicate tt;
      filled = λ i. rw get_or-replicate tt;
      placed = λ j i. rw get_or-replicate (λ e. absurd (no_key j e));
    };
    reads = λ j. rw get_or-replicate;
  },
)
