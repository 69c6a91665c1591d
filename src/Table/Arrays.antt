-- ===== src/Table/Arrays.antt =====
-- Arrays that are filled one item after the other, from the rows of a table.
use mathlib.Core.List.{append_assoc, append-nil, map-append}
use sd_projeto.Base.{
  ◌+◌, ◌≡◌, ◌∙◌, refl, ap, List, [], ◌∷◌, ◌++◌, map, Option, none, some, Run, ok, Flow, go,
  for_each, length, length-append, replicate,
}
use sd_projeto.CString.{CString}
use sd_projeto.Data.{Bytes}
use sd_projeto.EntryList.{EntryList}
use sd_projeto.EntryList.Assoc.{Assoc}
use sd_projeto.Table.{Filling}
use sd_projeto.Table.Rows.{Rows, row_of}
use sd_projeto.Table.Contents.{contents}

module _ {A : Type 0} where
  -- as many empty places as there are pairs
  abbrev pub blank : Assoc → List (Option A)
  blank = map (λ e. none)

  -- filled up to the index, with the places `rest` behind it
  abbrev pub filling : List (Option A) → List (Option A) → Filling A
  filling pre rest = (pre ++ rest, length pre)

  pub replicate-blank : (m : Assoc) → replicate (length m) none ≡ blank m
  replicate-blank [] = refl
  replicate-blank (e ∷ m) = ap (λ r. none ∷ r) (replicate-blank m)

  -- One more item: the index stands behind it.
  pub filling-snoc :
      (pre rest : List (Option A)) (x : Option A)
      → ◌≡◌ {A = Filling A} (pre ++ x ∷ rest, length pre + 1) (filling (pre ++ x ∷ []) rest)
  filling-snoc pre rest x = rw (append_assoc, length-append)

module _ {A : Type 0} (item : CString × Bytes → A) where
  -- the places of the pairs of `m`, filled
  abbrev pub places : Assoc → List (Option A)
  places m = map some (map item m)

  module _ (body : Option EntryList → Filling A → Run (Flow (Filling A) (Unit {0})))
      (fills : (m : Assoc) (pre tail : List (Option A))
        → body (row_of m) (filling pre (blank m ++ tail))
          ≡ ok (go (filling (pre ++ places m) tail))) where
    split :
        (m c : Assoc) (pre tail : List (Option A))
        → ◌≡◌ {A = Run (Flow (Filling A) (Unit {0}))}
            (ok (go (filling ((pre ++ places m) ++ places c) tail)))
            (ok (go (filling (pre ++ places (m ++ c)) tail)))
    split m c pre tail = ap (λ q. ok (go (filling q tail))) (simp (map-append, append_assoc))

    -- If every row fills its places, the rows fill those of all the contents.
    pub rows_fill :
        (ms : Rows) (pre tail : List (Option A))
        → for_each (map row_of ms) body (filling pre (blank (contents ms) ++ tail))
          ≡ ok (go (filling (pre ++ places (contents ms)) tail))
    unfolding for_each contents
    rows_fill [] pre tail = rw append-nil
    rows_fill (m ∷ ms) pre tail =
        rw (map-append, append_assoc, fills m pre (blank (contents ms) ++ tail))
          (rows_fill ms (pre ++ places m) tail ∙ split m (contents ms) pre tail)
