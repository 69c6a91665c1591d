-- ===== src/Table/Contents.antt =====
-- All the pairs of a table, row by row: they are the graph of the map that the table holds.
use sd_projeto.Base.{
  ℕ, zero, suc, ◌+◌, ◌≡◌, ◌∙◌, refl, true, [], ◌∷◌, ◌++◌, Option, none, some, is_some, arith,
  get_or, length,
}
use sd_projeto.CString.{CString}
use sd_projeto.CString.Order.{str_eq_refl}
use sd_projeto.Data.{Bytes}
use sd_projeto.EntryList.Assoc.{Assoc, lookup, IsSorted, IsFilled, lookup-Below}
use sd_projeto.Table.Rows.{Rows, view, home, IsTable}

unfoldable pub contents : Rows → Assoc
contents [] = []
contents (m ∷ ms) = m ++ contents ms

-- No key stands twice.
abbrev pub IsUnique : Assoc → Type 0
IsUnique [] = Unit
IsUnique ((k, v) ∷ m) = (lookup k m ≡ none) × IsUnique m

lookup-append_none :
    (k : CString) (a b : Assoc) → lookup k a ≡ none → lookup k (a ++ b) ≡ lookup k b
unfolding lookup
lookup-append_none k [] b h = refl
lookup-append_none k ((j, w) ∷ a) b h = ground (arith, lookup-append_none k a b)

lookup-append_before :
    (k : CString) (a b : Assoc) → lookup k b ≡ none → lookup k (a ++ b) ≡ lookup k a
unfolding lookup
lookup-append_before k [] b h = h
lookup-append_before k ((j, w) ∷ a) b h = ground (arith, lookup-append_before k a b h)

none_of : {A : Type 0} (o : Option A) → (is_some o ≡ true → ⊥) → o ≡ none
none_of none h = refl
none_of (some a) h = absurd (h refl)

lookup-contents-none :
    (k : CString) (ms : Rows)
    → ((i : ℕ) → lookup k (get_or ms i []) ≡ none)
    → lookup k (contents ms) ≡ none
unfolding contents lookup
lookup-contents-none k [] h = refl
lookup-contents-none k (m ∷ ms) h =
    lookup-append_none k m (contents ms) (h 0) ∙ lookup-contents-none k ms (λ i. h (suc i))

-- A key that stands in row `j` at most is looked up there.
lookup-contents_at :
    (k : CString) (ms : Rows) (j : ℕ)
    → ((i : ℕ) → is_some (lookup k (get_or ms i [])) ≡ true → j ≡ i)
    → lookup k (contents ms) ≡ lookup k (get_or ms j [])
unfolding contents
lookup-contents_at k [] j only = refl
lookup-contents_at k (m ∷ ms) zero only =
    lookup-append_before k m (contents ms)
      (lookup-contents-none k ms (λ i. none_of _ (λ h. absurd (omega (arith, only (suc i) h)))))
lookup-contents_at k (m ∷ ms) (suc j) only =
    lookup-append_none k m (contents ms) (none_of _ (λ h. absurd (omega (arith, only 0 h))))
    ∙ lookup-contents_at k ms j (λ i h. omega (arith, only (suc i) h))

-- Looking a key up in the whole finds what the table holds under it.
pub lookup-contents : (ms : Rows) (k : CString) → IsTable ms → lookup k (contents ms) ≡ view ms k
unfolding view
lookup-contents ms k t = lookup-contents_at k ms (home k (length ms)) (t.placed k)

lookup_here : (k : CString) (v : Bytes) (a : Assoc) → is_some (lookup k ((k, v) ∷ a)) ≡ true
unfolding lookup
lookup_here k v a = rw str_eq_refl

lookup_later :
    (j k : CString) (v : Bytes) (a : Assoc)
    → is_some (lookup j a) ≡ true
    → is_some (lookup j ((k, v) ∷ a)) ≡ true
unfolding lookup
lookup_later j k v a h = ground arith

IsUnique-append :
    (a b : Assoc)
    → IsUnique a
    → IsUnique b
    → ((k : CString) → is_some (lookup k a) ≡ true → lookup k b ≡ none)
    → IsUnique (a ++ b)
IsUnique-append [] b ua ub apart = ub
IsUnique-append ((k, v) ∷ a) b ua ub apart = (
  lookup-append_none k a b ua.0 ∙ apart k (lookup_here k v a),
  IsUnique-append a b ua.1 ub (λ j h. apart j (lookup_later j k v a h)),
)

IsUnique-of_sorted : (m : Assoc) → IsSorted m → IsUnique m
IsUnique-of_sorted [] s = tt
IsUnique-of_sorted ((k, v) ∷ m) s = (lookup-Below k m s.0, IsUnique-of_sorted m s.1)

IsUnique-contents_from :
    (g : CString → ℕ) (n : ℕ) (ms : Rows)
    → ((i : ℕ) → IsSorted (get_or ms i []))
    → ((k : CString) (i : ℕ) → is_some (lookup k (get_or ms i [])) ≡ true → g k ≡ n + i)
    → IsUnique (contents ms)
unfolding contents
IsUnique-contents_from g n [] sorted placed = tt
IsUnique-contents_from g n (m ∷ ms) sorted placed =
    IsUnique-append m (contents ms) (IsUnique-of_sorted m (sorted 0))
      (IsUnique-contents_from g (suc n) ms (λ i. sorted (suc i))
        (λ k i h. omega (arith, placed k (suc i) h)))
      (λ k h.
        lookup-contents-none k ms
          (λ i. none_of _ (λ e. absurd (omega (arith, placed k 0 h, placed k (suc i) e)))))

-- No key stands twice in a table.
pub IsUnique-contents : (ms : Rows) → IsTable ms → IsUnique (contents ms)
IsUnique-contents ms t =
    IsUnique-contents_from (λ k. home k (length ms)) 0 ms t.sorted
      (λ k i h. omega (arith, t.placed k i h))

IsFilled-append : (a b : Assoc) → IsFilled a → IsFilled b → IsFilled (a ++ b)
IsFilled-append [] b fa fb = fb
IsFilled-append ((k, v) ∷ a) b fa fb = (fa.0, IsFilled-append a b fa.1 fb)

-- No block in a table is empty.
pub IsFilled-contents : (ms : Rows) → ((i : ℕ) → IsFilled (get_or ms i [])) → IsFilled (contents ms)
unfolding contents
IsFilled-contents [] filled = tt
IsFilled-contents (m ∷ ms) filled =
    IsFilled-append m (contents ms) (filled 0) (IsFilled-contents ms (λ i. filled (suc i)))
