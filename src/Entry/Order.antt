-- ===== src/Entry/Order.antt =====
-- Entries that are filled, and their order.
use sd_projeto.Base.{◌≡◌, some, arith, length, ◌<◌, ok}
use sd_projeto.CString.{CString, strcmp}
use sd_projeto.CString.Order.{less, same, greater, strcmp-cases}
use sd_projeto.Data.{Bytes}
use sd_projeto.Data.Copies.{data_of, data_dup-data_of}
use sd_projeto.Entry.{Entry, entry_compare, entry_dup}

-- the entry with the key `k` and the bytes `b`
abbrev pub entry_of : CString × Bytes → Entry
entry_of (k, b) = record { key = some k; value = some (data_of b) }

-- Two entries with keys are ordered as strcmp orders their keys.
pub entry_compare-strcmp :
    (k j : CString) (b c : Bytes)
    → entry_compare (some (entry_of (k, b))) (some (entry_of (j, c))) ≡ strcmp k j
unfolding entry_compare
entry_compare-strcmp k j b c = elim (strcmp-cases k j) [
  | less h ↦ ground arith
  | same h ↦ ground arith
  | greater h ↦ ground arith
]

-- The copy of an entry with a key and at least one byte is an entry with the same key and bytes.
pub entry_dup-entry_of :
    (k : CString) (b : Bytes)
    → 0 < length b
    → entry_dup (some (entry_of (k, b))) ≡ ok (some (entry_of (k, b)))
unfolding entry_dup
entry_dup-entry_of k b h = ground (arith, data_dup-data_of b h)
