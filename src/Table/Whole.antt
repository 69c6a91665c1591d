-- ===== src/Table/Whole.antt =====
-- The table as a whole: what it lists, and its end.
use mathlib.Core.Path.{subst, sym}
use sd_projeto.Base.{
  ◌≡◌, ◌∙◌, refl, pos, List, [], ◌∷◌, ◌++◌, map, Option, none, some, ok, go, for_each,
  for_range-rows, length, length-map,
}
use sd_projeto.CString.{CString}
use sd_projeto.Entry.{Entry}
use sd_projeto.Entry.Order.{entry_of}
use sd_projeto.EntryList.Assoc.{Assoc, lookup, IsFilled}
use sd_projeto.EntryList.Keys.{keys_of, array_of}
use sd_projeto.EntryList.Refines.{list_of, list_destroy_lem}
use sd_projeto.Table.{
  Table, table_size, table_get_keys, table_get_entries, table_destroy, destroy_row, table_free_keys,
}
use sd_projeto.Table.Rows.{Rows, row_of, table_of, view, IsTable}
use sd_projeto.Table.Contents.{
  contents, IsUnique, lookup-contents, IsUnique-contents, IsFilled-contents,
}
use sd_projeto.Table.Listing.{
  table_size-contents, table_get_keys-contents, table_get_entries-contents,
}
use sd_projeto.Table.Methods.{Map, Models}

-- an array of exactly these entries, behind them NULL
abbrev pub entries_of : Assoc → List (Option Entry)
entries_of m = map some (map entry_of m) ++ none ∷ []

-- `m` lists the pairs of the map `f`, each once.
pub record Graph (f : Map) (m : Assoc) : Type 0 where
  pub unique : IsUnique m
  pub looks : (k : CString) → lookup k m ≡ f k

-- The size and both arrays of the table are those of the list `m`, which has no empty block.
pub record Lists (t : Table) (m : Assoc) : Type 0 where
  pub sizes : table_size (some t) ≡ ok (pos (length m))
  pub keys : table_get_keys (some t) ≡ ok (some (array_of (keys_of m)))
  pub entries : table_get_entries (some t) ≡ ok (some (entries_of m))
  pub filled : IsFilled m

pub Lists-contents : (ms : Rows) → IsTable ms → Lists (table_of ms) (contents ms)
Lists-contents ms t = record {
  sizes = table_size-contents ms t.pos_width;
  keys = table_get_keys-contents ms t.pos_width;
  entries = table_get_entries-contents ms t.pos_width;
  filled = IsFilled-contents ms t.filled;
}

pub Graph-contents :
    (ms : Rows) (f : Map) → IsTable ms → ((k : CString) → view ms k ≡ f k) → Graph f (contents ms)
Graph-contents ms f t reads = record {
  unique = IsUnique-contents ms t;
  looks = λ k. lookup-contents ms k t ∙ reads k;
}

pub listed : {f : Map} {t : Table} → Models f t → (m : Assoc) × Graph f m × Lists t m
listed {f} models = (
  contents models.rows,
  Graph-contents models.rows f models.in_order models.reads,
  subst (λ t. Lists t (contents models.rows)) (sym models.table)
      (Lists-contents models.rows models.in_order),
)

-- In a table that holds the map f, the size, the array of keys and the array of entries are those
-- of one list of the pairs of f in which each key stands once.
pub table_lists_map :
    {f : Map} {t : Table}
    → Models f t
    → (m : Assoc) × Graph f m
      × (table_size (some t) ≡ ok (pos (length m)))
      × (table_get_keys (some t) ≡ ok (some (array_of (keys_of m))))
      × (table_get_entries (some t) ≡ ok (some (entries_of m)))
table_lists_map models =
    let (m, graph, lists) = listed models in (m, graph, lists.sizes, lists.keys, lists.entries)

-- The array of keys of a table is freed without reading past its end.
pub table_free_keys-array_of :
    (keys : List CString) → table_free_keys (some (array_of keys)) ≡ ok (pos 0)
unfolding table_free_keys
table_free_keys-array_of [] = refl
table_free_keys-array_of (k ∷ keys) = table_free_keys-array_of keys

destroy_rows : (ms : Rows) → for_each (map row_of ms) destroy_row (pos 0) ≡ ok (go (pos 0))
unfolding for_each destroy_row
destroy_rows [] = refl
destroy_rows (m ∷ ms) = rw (list_destroy_lem (list_of m), destroy_rows ms)

-- Destroying a table whose rows hold dictionaries returns 0.
pub table_destroy-table_of : (ms : Rows) → table_destroy (some (table_of ms)) ≡ ok (pos 0)
unfolding table_destroy
table_destroy-table_of ms =
    rw (rw length-map at (for_range-rows destroy_row (map row_of ms) (pos 0)), destroy_rows ms)
