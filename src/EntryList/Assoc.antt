-- ===== src/EntryList/Assoc.antt =====
-- What a list of entries stands for: a dictionary with its keys in ascending order.
use sd_projeto.Base.{
  suc, ◌<◌, ◌≡◌, refl, negsuc, ◌==ℤ◌, List, [], ◌∷◌, Option, none, some, is_some, arith, length,
  if◌then◌else◌,
}
use sd_projeto.CString.{CString, strcmp}
use sd_projeto.CString.Order.{
  order, equal, before, after, str_eq, str_eq_refl, eq_of_str_eq, str_eq_symm, strcmp-str_eq,
  strcmp_trans,
}
use sd_projeto.Data.{Bytes}

abbrev pub Assoc : Type 0
Assoc = List (CString × Bytes)

unfoldable pub lookup : CString → Assoc → Option Bytes
lookup k [] = none
lookup k ((j, w) ∷ m) = if str_eq j k then some w else lookup k m

-- before the first greater key, or in the place of the key itself
unfoldable pub insert : CString → Bytes → Assoc → Assoc
insert k v [] = (k, v) ∷ []
insert k v ((j, w) ∷ m) =
    if str_eq j k
    then (k, v) ∷ m
    else if strcmp k j ==ℤ negsuc 0
    then (k, v) ∷ (j, w) ∷ m
    else (j, w) ∷ insert k v m

unfoldable pub remove : CString → Assoc → Assoc
remove k [] = []
remove k ((j, w) ∷ m) = if str_eq j k then m else (j, w) ∷ remove k m

-- `k` is less than every key of `m`
abbrev pub Below : CString → Assoc → Type 0
Below k [] = Unit
Below k ((j, w) ∷ m) = (strcmp k j ≡ negsuc 0) × Below k m

abbrev pub IsSorted : Assoc → Type 0
IsSorted [] = Unit
IsSorted ((j, w) ∷ m) = Below j m × IsSorted m

-- no block is empty
abbrev pub IsFilled : Assoc → Type 0
IsFilled [] = Unit
IsFilled ((j, w) ∷ m) = (0 < length w) × IsFilled m

pub Below-trans : (k j : CString) (m : Assoc) → strcmp k j ≡ negsuc 0 → Below j m → Below k m
Below-trans k j [] h b = tt
Below-trans k j ((i, w) ∷ m) h b = (strcmp_trans k j i h b.0, Below-trans k j m h b.1)

-- What stands before every key is not among them.
pub lookup-Below : (k : CString) (m : Assoc) → Below k m → lookup k m ≡ none
unfolding lookup
lookup-Below k [] b = refl
lookup-Below k ((j, w) ∷ m) b =
    ground (arith, lookup-Below k m b.1, strcmp-str_eq k j, str_eq_symm k j)

Below-insert :
    (i k : CString) (v : Bytes) (m : Assoc)
    → strcmp i k ≡ negsuc 0
    → Below i m
    → Below i (insert k v m)
unfolding insert
Below-insert i k v [] h b = (h, tt)
Below-insert i k v ((j, w) ∷ m) h b = ground (arith, Below-insert i k v m h b.1)

pub insert-IsSorted : (k : CString) (v : Bytes) (m : Assoc) → IsSorted m → IsSorted (insert k v m)
unfolding insert
insert-IsSorted k v [] s = (tt, tt)
insert-IsSorted k v ((j, w) ∷ m) (b, s) = elim (order k j) [
  | equal e h c ↦ rw h (rw e b, s)
  | before c h ↦ rw (h, c) ((c, Below-trans k j m c b), (b, s))
  | after c h d ↦ rw (h, d) (Below-insert j k v m c b, insert-IsSorted k v m s)
]

Below-remove : (i k : CString) (m : Assoc) → Below i m → Below i (remove k m)
unfolding remove
Below-remove i k [] b = tt
Below-remove i k ((j, w) ∷ m) b = ground (arith, Below-remove i k m b.1)

pub remove-IsSorted : (k : CString) (m : Assoc) → IsSorted m → IsSorted (remove k m)
unfolding remove
remove-IsSorted k [] s = tt
remove-IsSorted k ((j, w) ∷ m) s = ground (arith, remove-IsSorted k m s.1, Below-remove j k m s.0)

pub insert-IsFilled :
    (k : CString) (v : Bytes) (m : Assoc) → 0 < length v → IsFilled m → IsFilled (insert k v m)
unfolding insert
insert-IsFilled k v [] h f = (h, tt)
insert-IsFilled k v ((j, w) ∷ m) h f = ground (arith, insert-IsFilled k v m h f.1)

pub remove-IsFilled : (k : CString) (m : Assoc) → IsFilled m → IsFilled (remove k m)
unfolding remove
remove-IsFilled k [] f = tt
remove-IsFilled k ((j, w) ∷ m) f = ground (arith, remove-IsFilled k m f.1)

pub lookup-IsFilled :
    (k : CString) (m : Assoc) (w : Bytes) → IsFilled m → lookup k m ≡ some w → 0 < length w
unfolding lookup
lookup-IsFilled k [] w f h = cc
lookup-IsFilled k ((j, x) ∷ m) w f h = ground (arith, lookup-IsFilled k m w f.1)

pub lookup-insert :
    (k j : CString) (v : Bytes) (m : Assoc)
    → lookup j (insert k v m) ≡ (if str_eq k j then some v else lookup j m)
unfolding lookup insert
lookup-insert k j v [] = refl
lookup-insert k j v ((i, w) ∷ m) = ground (
  arith,
  lookup-insert k j v m,
  eq_of_str_eq i k,
  eq_of_str_eq i j,
  eq_of_str_eq k j,
  str_eq_refl j,
)

pub lookup-remove :
    (k j : CString) (m : Assoc)
    → IsSorted m
    → lookup j (remove k m) ≡ (if str_eq k j then none else lookup j m)
unfolding lookup remove
lookup-remove k j [] s = ground arith
lookup-remove k j ((i, w) ∷ m) s = ground (
  arith,
  lookup-remove k j m s.1,
  lookup-Below i m s.0,
  eq_of_str_eq i k,
  eq_of_str_eq i j,
  eq_of_str_eq k j,
  str_eq_refl j,
)

pub length-insert :
    (k : CString) (v : Bytes) (m : Assoc)
    → IsSorted m
    → length (insert k v m) ≡ (if is_some (lookup k m) then length m else suc (length m))
unfolding lookup insert
length-insert k v [] s = refl
length-insert k v ((j, w) ∷ m) (b, s) = elim (order k j) [
  | equal e h c ↦ rw h
  | before c h ↦ rw (h, c, lookup-Below k m (Below-trans k j m c b))
  | after c h d ↦ rw (h, d) (ground (arith, length-insert k v m s))
]

pub length-remove :
    (k : CString) (m : Assoc)
    → length m ≡ (if is_some (lookup k m) then suc (length (remove k m)) else length (remove k m))
unfolding lookup remove
length-remove k [] = refl
length-remove k ((j, w) ∷ m) = ground (arith, length-remove k m)
