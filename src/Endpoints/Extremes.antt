-- ===== src/Endpoints/Extremes.antt =====
-- The chosen nodes are the least and the greatest.
use mathlib.Core.Path.{subst}
use sd_projeto.Base.{negsuc, ◌≡◌, ◌↔◌, refl, sym, ◌∙◌, ap, List, [], ◌∷◌, ◌⊎◌, inl, inr, arith}
use sd_projeto.CString.{CString, strcmp}
use sd_projeto.CString.Order.{
  strcmp-cases, less, same, greater, eq_of_strcmp, strcmp_refl, strcmp_trans, strcmp_swap,
  strcmp_swap_greater,
}
use sd_projeto.Chain.{children_abs_zpaths, successor}
use sd_projeto.Endpoints.{toward_head, toward_tail, find_head, find_tail, head_of, tail_of}

abbrev pub Leq : CString → CString → Type 0
Leq s t = (strcmp s t ≡ negsuc 0) ⊎ (s ≡ t)

Leq-trans : (r s t : CString) → Leq r s → Leq s t → Leq r t
Leq-trans r s t (inl h) (inl k) = inl (strcmp_trans r s t h k)
Leq-trans r s t (inl h) (inr k) = inl (ap (strcmp r) (sym k) ∙ h)
Leq-trans r s t (inr h) k = subst (λ q. Leq q t) (sym h) k

-- This holds of each of the strings.
abbrev pub Each : (CString → Type 0) → List CString → Type 0
Each P [] = Unit
Each P (c ∷ cs) = P c × Each P cs

-- one of the strings
abbrev pub OneOf : CString → List CString → Type 0
OneOf s [] = ⊥
OneOf s (c ∷ cs) = (s ≡ c) ⊎ OneOf s cs

abbrev pub NotEmpty : CString → Type 0
NotEmpty [] = ⊥
NotEmpty (b ∷ s) = Unit

toward_head-either :
    (h c : CString)
    → NotEmpty h
    → ((toward_head h c ≡ h) × Leq h c) ⊎ ((toward_head h c ≡ c) × Leq c h)
unfolding toward_head strcmp
toward_head-either [] c ne = absurd ne
toward_head-either (b ∷ h) c ne = elim (strcmp-cases (b ∷ h) c) [
  | less e ↦ inl (rw e refl, inl e)
  | same e ↦ inl (rw e refl, inr (eq_of_strcmp (b ∷ h) c e))
  | greater e ↦ inr (rw e refl, inl (strcmp_swap_greater (b ∷ h) c e))
]

toward_tail-either :
    (h c : CString)
    → NotEmpty h
    → ((toward_tail h c ≡ h) × Leq c h) ⊎ ((toward_tail h c ≡ c) × Leq h c)
unfolding toward_tail strcmp
toward_tail-either [] c ne = absurd ne
toward_tail-either (b ∷ h) c ne = elim (strcmp-cases (b ∷ h) c) [
  | less e ↦ inr (rw e refl, inl e)
  | same e ↦ inl (rw e refl, inr (sym (eq_of_strcmp (b ∷ h) c e)))
  | greater e ↦ inl (rw e refl, inl (strcmp_swap_greater (b ∷ h) c e))
]

-- The string is one of these, and none of them is less.
abbrev pub IsLeast : CString → List CString → Type 0
IsLeast s cs = OneOf s cs × Each (Leq s) cs

abbrev pub IsGreatest : CString → List CString → Type 0
IsGreatest s cs = OneOf s cs × Each (λ c. Leq c s) cs

-- One more string, which the choice so far passes or takes the place of.
IsLeast-pass :
    (r h c : CString) (cs : List CString) → Leq h c → IsLeast r (h ∷ cs) → IsLeast r (h ∷ c ∷ cs)
IsLeast-pass r h c cs le (inl e, (below, rest)) = (inl e, (below, (Leq-trans r h c below le, rest)))
IsLeast-pass r h c cs le (inr one, (below, rest)) =
    (inr (inr one), (below, (Leq-trans r h c below le, rest)))

IsLeast-take :
    (r h c : CString) (cs : List CString) → Leq c h → IsLeast r (c ∷ cs) → IsLeast r (h ∷ c ∷ cs)
IsLeast-take r h c cs le (one, (below, rest)) = (inr one, (Leq-trans r c h below le, (below, rest)))

IsGreatest-pass :
    (r h c : CString) (cs : List CString)
    → Leq c h
    → IsGreatest r (h ∷ cs)
    → IsGreatest r (h ∷ c ∷ cs)
IsGreatest-pass r h c cs le (inl e, (above, rest)) =
    (inl e, (above, (Leq-trans c h r le above, rest)))
IsGreatest-pass r h c cs le (inr one, (above, rest)) =
    (inr (inr one), (above, (Leq-trans c h r le above, rest)))

IsGreatest-take :
    (r h c : CString) (cs : List CString)
    → Leq h c
    → IsGreatest r (c ∷ cs)
    → IsGreatest r (h ∷ c ∷ cs)
IsGreatest-take r h c cs le (one, (above, rest)) =
    (inr one, (Leq-trans h c r le above, (above, rest)))

find_head-IsLeast :
    (h : CString) (cs : List CString)
    → NotEmpty h
    → Each NotEmpty cs
    → IsLeast (find_head h cs) (h ∷ cs)
unfolding find_head
find_head-IsLeast h [] ne each = (inl refl, (inr refl, tt))
find_head-IsLeast h (c ∷ cs) ne each = elim (toward_head-either h c ne) [
  | inl (e, le) ↦
      subst (λ n. IsLeast (find_head n cs) (h ∷ c ∷ cs)) (sym e)
        (IsLeast-pass _ h c cs le (find_head-IsLeast h cs ne each.1))
  | inr (e, le) ↦
      subst (λ n. IsLeast (find_head n cs) (h ∷ c ∷ cs)) (sym e)
        (IsLeast-take _ h c cs le (find_head-IsLeast c cs each.0 each.1))
]

find_tail-IsGreatest :
    (h : CString) (cs : List CString)
    → NotEmpty h
    → Each NotEmpty cs
    → IsGreatest (find_tail h cs) (h ∷ cs)
unfolding find_tail
find_tail-IsGreatest h [] ne each = (inl refl, (inr refl, tt))
find_tail-IsGreatest h (c ∷ cs) ne each = elim (toward_tail-either h c ne) [
  | inl (e, le) ↦
      subst (λ n. IsGreatest (find_tail n cs) (h ∷ c ∷ cs)) (sym e)
        (IsGreatest-pass _ h c cs le (find_tail-IsGreatest h cs ne each.1))
  | inr (e, le) ↦
      subst (λ n. IsGreatest (find_tail n cs) (h ∷ c ∷ cs)) (sym e)
        (IsGreatest-take _ h c cs le (find_tail-IsGreatest c cs each.0 each.1))
]

paths-NotEmpty : (children : List CString) → Each NotEmpty (children_abs_zpaths children)
unfolding children_abs_zpaths
paths-NotEmpty [] = tt
paths-NotEmpty (c ∷ children) = (tt, paths-NotEmpty children)

-- The search for the head finds a least path, and the one for the tail a greatest one.
pub head_and_tail-extreme :
    (child : CString) (children : List CString)
    → let paths = children_abs_zpaths (child ∷ children) in
      IsLeast (head_of paths) paths × IsGreatest (tail_of paths) paths
unfolding head_of tail_of children_abs_zpaths find_head find_tail toward_head toward_tail strcmp
head_and_tail-extreme child children = (
  find_head-IsLeast _ (children_abs_zpaths children) tt (paths-NotEmpty children),
  find_tail-IsGreatest _ (children_abs_zpaths children) tt (paths-NotEmpty children),
)

NotEmpty-filled : (s : CString) → NotEmpty s → s ≡ [] → ⊥
NotEmpty-filled s ne e = subst NotEmpty e ne

Leq-antisymm : (s t : CString) → Leq s t → Leq t s → s ≡ t
Leq-antisymm s t (inr e) k = e
Leq-antisymm s t (inl h) (inr e) = sym e
Leq-antisymm s t (inl h) (inl k) = absurd (ground (arith, strcmp_swap s t h, k))

Each-OneOf : (P : CString → Type 0) (s : CString) (cs : List CString) → Each P cs → OneOf s cs → P s
Each-OneOf P s [] each one = absurd one
Each-OneOf P s (c ∷ cs) each (inl e) = subst P (sym e) each.0
Each-OneOf P s (c ∷ cs) each (inr one) = Each-OneOf P s cs each.1 one

module _ (this_node_path : CString) where
  no_successor :
      (cs : List CString) → Each (λ c. Leq c this_node_path) cs → successor this_node_path cs ≡ []
  unfolding successor
  no_successor [] h = refl
  no_successor (c ∷ cs) (inl e, h) = rw (strcmp_swap c this_node_path e) (no_successor cs h)
  no_successor (c ∷ cs) (inr e, h) =
      rw (ap (strcmp this_node_path) e ∙ strcmp_refl this_node_path) (no_successor cs h)

  no_greater :
      (cs : List CString)
      → Each NotEmpty cs
      → successor this_node_path cs ≡ []
      → Each (λ c. Leq c this_node_path) cs
  unfolding successor
  no_greater [] ne h = tt
  no_greater (c ∷ cs) ne h = elim (strcmp-cases this_node_path c) [
    | less e ↦ absurd (NotEmpty-filled c ne.0 (rw e at h))
    | same e ↦ (inr (sym (eq_of_strcmp this_node_path c e)), no_greater cs ne.1 (rw e at h))
    | greater e ↦ (inl (strcmp_swap_greater this_node_path c e), no_greater cs ne.1 (rw e at h))
  ]

-- For the path of one of the listed nodes, the search of a server for its next server finds none
-- just if the search of a client for the tail finds this path, in whatever order the nodes are
-- listed.
pub successor-tail :
    (this_node_path : CString) (children : List CString)
    → let paths = children_abs_zpaths children in
      OneOf this_node_path paths
      → (successor this_node_path paths ≡ []) ↔ (this_node_path ≡ tail_of paths)
unfolding children_abs_zpaths
successor-tail this_node_path [] one = absurd one
successor-tail this_node_path (child ∷ children) one =
    let paths = children_abs_zpaths (child ∷ children) in
    let (greatest, above) = (head_and_tail-extreme child children).1 in
    (
      λ h.
          Leq-antisymm this_node_path (tail_of paths)
            (Each-OneOf (λ c. Leq c (tail_of paths)) this_node_path paths above one)
            (Each-OneOf (λ c. Leq c this_node_path) (tail_of paths) paths
              (no_greater this_node_path paths (paths-NotEmpty (child ∷ children)) h) greatest),
      λ e. no_successor this_node_path paths (subst (λ t. Each (λ c. Leq c t) paths) (sym e) above),
    )
