-- ===== src/CString/Order.antt =====
-- `strcmp` is a total order on strings, which equates no two different strings.
use sd_projeto.Base.{
  pos, negsuc, [], ◌∷◌, ◌≡◌, refl, ◌⊎◌, inl, inr, arith, ◌==◌, ◌==ℤ◌, Bool, true, false, ◌&&◌,
}
use sd_projeto.CString.{CString, strcmp}

-- the three results
pub data Compared (s t : CString) : Type 0 where
  less : strcmp s t ≡ negsuc 0 → Compared s t
  same : strcmp s t ≡ pos 0 → Compared s t
  greater : strcmp s t ≡ pos 1 → Compared s t

strcmp_sign :
    (s t : CString) → (strcmp s t ≡ negsuc 0) ⊎ ((strcmp s t ≡ pos 0) ⊎ (strcmp s t ≡ pos 1))
unfolding strcmp
strcmp_sign [] [] = inr (inl refl)
strcmp_sign [] (b ∷ t) = inl refl
strcmp_sign (a ∷ s) [] = inr (inr refl)
strcmp_sign (a ∷ s) (b ∷ t) = ground (arith, strcmp_sign s t)

pub strcmp-cases : (s t : CString) → Compared s t
strcmp-cases s t = elim (strcmp_sign s t) [
  | inl h ↦ less h
  | inr (inl h) ↦ same h
  | inr (inr h) ↦ greater h
]

pub strcmp_refl : (s : CString) → strcmp s s ≡ pos 0
unfolding strcmp
strcmp_refl [] = refl
strcmp_refl (a ∷ s) = ground (arith, strcmp_refl s)

pub eq_of_strcmp : (s t : CString) → strcmp s t ≡ pos 0 → s ≡ t
unfolding strcmp
eq_of_strcmp [] [] h = refl
eq_of_strcmp [] (b ∷ t) h = ground arith
eq_of_strcmp (a ∷ s) [] h = ground arith
eq_of_strcmp (a ∷ s) (b ∷ t) h = ground (arith, eq_of_strcmp s t)

pub strcmp_swap : (s t : CString) → strcmp s t ≡ negsuc 0 → strcmp t s ≡ pos 1
unfolding strcmp
strcmp_swap [] [] h = ground arith
strcmp_swap [] (b ∷ t) h = refl
strcmp_swap (a ∷ s) [] h = ground arith
strcmp_swap (a ∷ s) (b ∷ t) h = ground (arith, strcmp_swap s t)

pub strcmp_swap_greater : (s t : CString) → strcmp s t ≡ pos 1 → strcmp t s ≡ negsuc 0
unfolding strcmp
strcmp_swap_greater [] [] h = ground arith
strcmp_swap_greater [] (b ∷ t) h = ground arith
strcmp_swap_greater (a ∷ s) [] h = refl
strcmp_swap_greater (a ∷ s) (b ∷ t) h = ground (arith, strcmp_swap_greater s t)

pub strcmp_trans :
    (r s t : CString) → strcmp r s ≡ negsuc 0 → strcmp s t ≡ negsuc 0 → strcmp r t ≡ negsuc 0
unfolding strcmp
strcmp_trans [] [] t h k = ground arith
strcmp_trans [] (b ∷ s) [] h k = ground arith
strcmp_trans [] (b ∷ s) (c ∷ t) h k = refl
strcmp_trans (a ∷ r) [] t h k = ground arith
strcmp_trans (a ∷ r) (b ∷ s) [] h k = ground arith
strcmp_trans (a ∷ r) (b ∷ s) (c ∷ t) h k = ground (arith, strcmp_trans r s t)

-- equality of strings, byte by byte
abbrev pub str_eq : CString → CString → Bool
str_eq [] [] = true
str_eq (a ∷ s) (b ∷ t) = a == b && str_eq s t
str_eq _ _ = false

pub str_eq_refl : (s : CString) → str_eq s s ≡ true
str_eq_refl [] = refl
str_eq_refl (a ∷ s) = ground (arith, str_eq_refl s)

pub eq_of_str_eq : (s t : CString) → str_eq s t ≡ true → s ≡ t
eq_of_str_eq [] [] h = refl
eq_of_str_eq [] (b ∷ t) h = cc
eq_of_str_eq (a ∷ s) [] h = cc
eq_of_str_eq (a ∷ s) (b ∷ t) h = ground (arith, eq_of_str_eq s t)

pub str_eq_symm : (s t : CString) → str_eq s t ≡ str_eq t s
str_eq_symm [] [] = refl
str_eq_symm [] (b ∷ t) = refl
str_eq_symm (a ∷ s) [] = refl
str_eq_symm (a ∷ s) (b ∷ t) = ground (arith, str_eq_symm s t)

-- `strcmp` returns 0 on equal strings only.
pub strcmp-str_eq : (s t : CString) → (strcmp s t ==ℤ pos 0) ≡ str_eq s t
unfolding strcmp
strcmp-str_eq [] [] = refl
strcmp-str_eq [] (b ∷ t) = refl
strcmp-str_eq (a ∷ s) [] = refl
strcmp-str_eq (a ∷ s) (b ∷ t) = ground (arith, strcmp-str_eq s t)

-- Where `s` stands with respect to `t`, as both tests see it.
pub data Ordered (s t : CString) : Type 0 where
  equal : s ≡ t → str_eq t s ≡ true → strcmp s t ≡ pos 0 → Ordered s t
  before : strcmp s t ≡ negsuc 0 → str_eq t s ≡ false → Ordered s t
  after : strcmp t s ≡ negsuc 0 → str_eq t s ≡ false → strcmp s t ≡ pos 1 → Ordered s t

pub order : (s t : CString) → Ordered s t
order s t = elim (strcmp-cases s t) [
  | less h ↦ before h (ground (arith, strcmp-str_eq s t, str_eq_symm s t))
  | same h ↦ equal (eq_of_strcmp s t h) (ground (arith, strcmp-str_eq s t, str_eq_symm s t)) h
  | greater h ↦
      after (strcmp_swap_greater s t h) (ground (arith, strcmp-str_eq s t, str_eq_symm s t)) h
]
