-- ===== src/EntryList/Refines.antt =====
-- The functions of source/list.c, on the list that stands for a dictionary, are those of the
-- dictionary.
use mathlib.Core.Option
use sd_projeto.Base.{
  ℕ, suc, ◌+◌, ◌≡◌, refl, ap, ◌∙◌, ℤ, pos, ◌+ℤ◌, ◌-ℤ◌, pos_add_one, pos_sub_one, List, [], ◌∷◌, map,
  some, is_some, ok, arith, length, length-map, if◌then◌else◌, Bool-cases, inl, inr,
}
use sd_projeto.CString.{CString}
use sd_projeto.CString.Order.{str_eq, order, equal, before, after, strcmp-str_eq, eq_of_str_eq}
use sd_projeto.Data.{Bytes}
use sd_projeto.Entry.{Entry, entry_destroy}
use sd_projeto.Entry.Order.{entry_of, entry_compare-strcmp}
use sd_projeto.EntryList.{
  list_destroy, destroy_loop, EntryList, add_loop, add_head, list_add, node_create, drop_node,
  remove_loop, remove_head, list_remove, get_loop, list_get, size_loop, list_size,
}
use sd_projeto.EntryList.Assoc.{
  Assoc, lookup, insert, remove, IsSorted, Below-trans, lookup-Below, length-insert, length-remove,
}

-- the list that holds the dictionary `m`
abbrev pub list_of : Assoc → EntryList
list_of m = record { size = pos (length m); head = map entry_of m }

add_loop-insert :
    (k : CString) (v : Bytes) (size : ℤ) (m : Assoc)
    → IsSorted m
    → add_loop (entry_of (k, v)) size (map entry_of m) ≡ (
      (if is_some (lookup k m) then pos 1 else pos 0),
      (if is_some (lookup k m) then size else size +ℤ pos 1),
      map entry_of (insert k v m),
    )
unfolding add_loop node_create lookup insert
add_loop-insert k v size [] s = refl
add_loop-insert k v size ((j, w) ∷ m) (b, s) = elim (order k j) [
  | equal e h c ↦ rw (entry_compare-strcmp k j v w, c, h)
  | before c h ↦ rw (entry_compare-strcmp k j v w, c, h, lookup-Below k m (Below-trans k j m c b))
  | after c h d ↦ rw (entry_compare-strcmp k j v w, d, h, add_loop-insert k v size m s)
]

-- The head is treated as the nodes behind it are.
add_head-add_loop :
    (e : Entry) (size : ℤ) (nodes : List Entry) → add_head e size nodes ≡ add_loop e size nodes
unfolding add_head add_loop
add_head-add_loop e size [] = refl
add_head-add_loop e size (node ∷ next) = refl

remove_head-remove_loop :
    (k : CString) (size : ℤ) (nodes : List Entry)
    → remove_head k size nodes ≡ remove_loop k size nodes
unfolding remove_head remove_loop
remove_head-remove_loop k size [] = refl
remove_head-remove_loop k size (node ∷ next) = refl

-- Adding an entry to a list that holds a dictionary in ascending order of keys inserts it in order
-- or replaces the entry with its key, adjusts the size, and returns whether the key was there.
pub list_add-insert :
    (k : CString) (v : Bytes) (m : Assoc)
    → IsSorted m
    → list_add (some (list_of m)) (some (entry_of (k, v)))
      ≡ ((if is_some (lookup k m) then pos 1 else pos 0), some (list_of (insert k v m)))
unfolding list_add
list_add-insert k v m s =
    rw (add_head-add_loop, add_loop-insert k v (pos (length m)) m s, length-insert k v m s)
      (elim (Bool-cases (is_some (lookup k m))) [ inl e ↦ rw e | inr e ↦ rw (e, pos_add_one) ])

remove_loop-remove :
    (k : CString) (size : ℤ) (m : Assoc)
    → remove_loop k size (map entry_of m)
      ≡ ok (
        (if is_some (lookup k m) then pos 0 else pos 1),
        (if is_some (lookup k m) then size -ℤ pos 1 else size),
        map entry_of (remove k m),
      )
unfolding remove_loop drop_node entry_destroy lookup remove
remove_loop-remove k size [] = refl
remove_loop-remove k size ((j, w) ∷ m) =
    rw strcmp-str_eq (elim (Bool-cases (str_eq j k)) [
      | inl e ↦ rw e
      | inr e ↦ rw (e, remove_loop-remove k size m)
    ])

-- Removing a key from a list that holds a dictionary takes its entry out, adjusts the size, and
-- returns 0 if the key was there and 1 if not.
pub list_remove-remove :
    (k : CString) (m : Assoc)
    → list_remove (some (list_of m)) (some k)
      ≡ ok ((if is_some (lookup k m) then pos 0 else pos 1), some (list_of (remove k m)))
unfolding list_remove
list_remove-remove k m =
    rw (remove_head-remove_loop, remove_loop-remove k (pos (length m)) m, length-remove k m)
      (elim (Bool-cases (is_some (lookup k m))) [ inl e ↦ rw (e, pos_sub_one) | inr e ↦ rw e ])

get_loop-lookup :
    (k : CString) (m : Assoc)
    → get_loop k (map entry_of m) ≡ ok (Option.map (λ v. entry_of (k, v)) (lookup k m))
unfolding get_loop lookup
get_loop-lookup k [] = refl
get_loop-lookup k ((j, w) ∷ m) = rw strcmp-str_eq (elim (Bool-cases (str_eq j k)) [
  | inl e ↦ rw (e, eq_of_str_eq j k e)
  | inr e ↦ rw (e, get_loop-lookup k m)
])

-- Getting a key from a list that holds a dictionary returns the entry of the key, or NULL if there
-- is none.
pub list_get-lookup :
    (k : CString) (m : Assoc)
    → list_get (some (list_of m)) (some k) ≡ ok (Option.map (λ v. entry_of (k, v)) (lookup k m))
unfolding list_get
list_get-lookup k m = get_loop-lookup k m

size_loop-length : (n : ℕ) (nodes : List Entry) → size_loop nodes (pos n) ≡ pos (n + length nodes)
unfolding size_loop
size_loop-length n [] = ap pos (omega arith)
size_loop-length n (node ∷ next) =
    rw pos_add_one (size_loop-length (suc n) next ∙ ap pos (omega arith))

-- The size of a list that holds a dictionary is the number of its pairs.
pub list_size-length : (m : Assoc) → list_size (some (list_of m)) ≡ pos (length m)
unfolding list_size
list_size-length m =
    size_loop-length 0 (map entry_of m) ∙ ap pos (omega (arith, length-map entry_of m))

destroy_loop_zero : (nodes : List Entry) → destroy_loop nodes (pos 0) ≡ pos 0
unfolding destroy_loop
destroy_loop_zero [] = refl
destroy_loop_zero (node ∷ next) = destroy_loop_zero next

-- A list is destroyed whatever it holds.
pub list_destroy_lem : (l : EntryList) → list_destroy (some l) ≡ pos 0
unfolding list_destroy
list_destroy_lem l = destroy_loop_zero l.head
