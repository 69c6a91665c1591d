-- ===== src/Tests/Lists.antt =====
-- Examples for the lists.
use sd_projeto.Base.{◌≡◌, refl, pos, [], ◌∷◌, some, is_some, ok, if◌then◌else◌}
use sd_projeto.CString.{strcmp}
use sd_projeto.Entry.Order.{entry_of}
use sd_projeto.EntryList.{list_add, list_remove}
use sd_projeto.EntryList.Assoc.{lookup, insert, remove}
use sd_projeto.EntryList.Refines.{list_of, list_add-insert, list_remove-remove}
use sd_projeto.Tests.{key_a, key_b, key_c, even_row, even_row-IsSorted}

list_add-insert_example : list_add (some (list_of even_row)) (some (entry_of (key_b, 5 ∷ []))) ≡ (
  (if is_some (lookup key_b even_row) then pos 1 else pos 0),
  some (list_of (insert key_b (5 ∷ []) even_row)),
)
list_add-insert_example = list_add-insert key_b (5 ∷ []) even_row even_row-IsSorted

between :
    insert key_b (5 ∷ []) even_row ≡ (key_a, 1 ∷ 2 ∷ []) ∷ (key_b, 5 ∷ []) ∷ (key_c, 3 ∷ []) ∷ []
unfolding insert strcmp
between = refl

list_remove-remove_example :
    list_remove (some (list_of even_row)) (some key_c)
    ≡ ok (
      (if is_some (lookup key_c even_row) then pos 0 else pos 1),
      some (list_of (remove key_c even_row)),
    )
list_remove-remove_example = list_remove-remove key_c even_row
