-- ===== src/Tests.antt =====
-- Data for the examples: a table with two rows and three keys.
pub mod Lists
pub mod Heaps
pub mod Tables
pub mod Locks
pub mod Server
pub mod Buffers
pub mod Nodes
pub mod Chains
pub mod Joins
pub mod Oversize
pub mod Starts
pub mod Streams
pub mod Programs
use sd_projeto.Message.{MessageT}
use sd_projeto.Base.{
  ◌==◌, Option, none, some, ℕ, zero, suc, ◌≡◌, refl, ◌⊎◌, inl, inr, true, false, is_some, List, [],
  ◌∷◌, Bool-cases, arith, length, get_or, if◌then◌else◌,
}
use sd_projeto.CString.{CString, strcmp}
use sd_projeto.CString.Order.{str_eq, eq_of_str_eq}
use sd_projeto.Data.{Bytes}
use sd_projeto.EntryList.Assoc.{Assoc, lookup, IsSorted, IsFilled}
use sd_projeto.Table.{Table}
use sd_projeto.Table.Hash.{hash_code}
use sd_projeto.Table.Rows.{Rows, table_of, home, view, IsTable}
use sd_projeto.Table.Methods.{Map, Models}

-- "a", "b", "c" and "d"
abbrev pub key_a : CString
key_a = 97 ∷ []

abbrev pub key_b : CString
key_b = 98 ∷ []

abbrev pub key_c : CString
key_c = 99 ∷ []

abbrev pub key_d : CString
key_d = 100 ∷ []

abbrev pub even_row : Assoc
even_row = (key_a, 1 ∷ 2 ∷ []) ∷ (key_c, 3 ∷ []) ∷ []

abbrev pub odd_row : Assoc
odd_row = (key_b, 7 ∷ []) ∷ []

abbrev pub stored : Rows
stored = even_row ∷ odd_row ∷ []

abbrev pub stored_table : Table
stored_table = table_of stored

abbrev pub stored_map : Map
stored_map = view stored

pub even_row-IsSorted : IsSorted even_row
unfolding strcmp
even_row-IsSorted = ((refl, tt), (tt, tt))

row-IsSorted : (i : ℕ) → IsSorted (get_or stored i [])
row-IsSorted zero = even_row-IsSorted
row-IsSorted (suc zero) = (tt, tt)
row-IsSorted (suc (suc i)) = tt

row-IsFilled : (i : ℕ) → IsFilled (get_or stored i [])
row-IsFilled zero = (omega arith, (omega arith, tt))
row-IsFilled (suc zero) = (omega arith, tt)
row-IsFilled (suc (suc i)) = tt

in_even : (k : CString) → is_some (lookup k even_row) ≡ true → (key_a ≡ k) ⊎ (key_c ≡ k)
unfolding lookup
in_even k h = elim (Bool-cases (str_eq key_a k)) [
  | inl e ↦ inl (eq_of_str_eq key_a k e)
  | inr e ↦ elim (Bool-cases (str_eq key_c k)) [
    | inl e' ↦ inr (eq_of_str_eq key_c k e')
    | inr e' ↦ absurd (ground arith)
  ]
]

in_odd : (k : CString) → is_some (lookup k odd_row) ≡ true → key_b ≡ k
unfolding lookup
in_odd k h = elim (Bool-cases (str_eq key_b k)) [
  | inl e ↦ eq_of_str_eq key_b k e
  | inr e ↦ absurd (ground arith)
]

home_a : home key_a 2 ≡ 0
unfolding home hash_code
home_a = refl

home_b : home key_b 2 ≡ 1
unfolding home hash_code
home_b = refl

home_c : home key_c 2 ≡ 0
unfolding home hash_code
home_c = refl

row-placed : (k : CString) (i : ℕ) → is_some (lookup k (get_or stored i [])) ≡ true → home k 2 ≡ i
unfolding lookup
row-placed k zero h = elim (in_even k h) [ inl e ↦ rw (← e) home_a | inr e ↦ rw (← e) home_c ]
row-placed k (suc zero) h = rw (← in_odd k h) home_b
row-placed k (suc (suc i)) h = absurd (ground arith)

pub stored-IsTable : IsTable stored
stored-IsTable = record {
  pos_width = omega arith;
  width = omega arith;
  sorted = row-IsSorted;
  filled = row-IsFilled;
  placed = row-placed;
}

pub stored-Models : Models stored_map stored_table
stored-Models = record { rows = stored; table = refl; in_order = stored-IsTable; reads = λ k. refl }

-- The messages that occur in an example have different opcodes, so the opcode can stand for each.
abbrev pub packed : MessageT → Bytes
packed msg = msg.opcode ∷ []

abbrev pub unpacked : List MessageT → Bytes → Option MessageT
unpacked [] bytes = none
unpacked (msg ∷ msgs) [] = none
unpacked (msg ∷ msgs) (opcode ∷ bytes) =
    if msg.opcode == opcode then some msg else unpacked msgs (opcode ∷ bytes)
