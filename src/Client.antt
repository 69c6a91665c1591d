-- ===== src/Client.antt =====
-- source/table_client.c: the parsing of a line that the user types, and the comparison of two lists
-- of nodes.
pub mod Commands
use sd_projeto.Base.{
  ◌≡◌, refl, pos, ◌==ℤ◌, ◌==◌, Bool, true, false, ◌&&◌, ◌||◌, not, List, [], ◌∷◌, ◌++◌, Run, ok,
  fault, null_pointer, ◌>>=◌, length, if◌then◌else◌,
}
use sd_projeto.CString.{CString, strcmp}

-- `operation` of include/table_client.h
pub data Operation : Type 0 where
  put get del size getkeys gettable quit stats invalid : Operation

same : CString → CString → Bool
same s t = strcmp s t ==ℤ pos 0

-- the word, with the line end that the terminal puts behind it
abbrev line : CString → CString
line word = word ++ (10 ∷ [])

abbrev put_str : CString
put_str = 112 ∷ 117 ∷ 116 ∷ []

abbrev get_str : CString
get_str = 103 ∷ 101 ∷ 116 ∷ []

abbrev del_str : CString
del_str = 100 ∷ 101 ∷ 108 ∷ []

abbrev size_str : CString
size_str = line (115 ∷ 105 ∷ 122 ∷ 101 ∷ [])

abbrev getkeys_str : CString
getkeys_str = line (103 ∷ 101 ∷ 116 ∷ 107 ∷ 101 ∷ 121 ∷ 115 ∷ [])

abbrev gettable_str : CString
gettable_str = line (103 ∷ 101 ∷ 116 ∷ 116 ∷ 97 ∷ 98 ∷ 108 ∷ 101 ∷ [])

abbrev pub quit_str : CString
quit_str = line (113 ∷ 117 ∷ 105 ∷ 116 ∷ [])

abbrev stats_str : CString
stats_str = line (115 ∷ 116 ∷ 97 ∷ 116 ∷ 115 ∷ [])

-- The bytes before the next space.
token : CString → CString
token [] = []
token (b ∷ s) = if b == 32 then [] else b ∷ token s

-- `strtok(op_str, " ")`: leading spaces are passed over, and a line with nothing else has no word.
first_word : CString → Run CString
first_word [] = fault null_pointer
first_word (b ∷ s) = if b == 32 then first_word s else ok (token (b ∷ s))

-- the word itself or its first letter, each with or without the line end
is_command : CString → CString → CString → Bool
is_command operation word letter =
    same operation word
    || same operation letter
    || same operation (line word)
    || same operation (line letter)

parse_word : CString → Operation
parse_word operation =
    if is_command operation put_str (112 ∷ [])
    then put
    else if is_command operation get_str (103 ∷ [])
    then get
    else if is_command operation del_str (100 ∷ [])
    then del
    else invalid

pub parse_operation : CString → Run Operation
parse_operation op_str =
    if same op_str size_str || same op_str (line (115 ∷ []))
    then ok size
    else if same op_str getkeys_str || same op_str (line (107 ∷ []))
    then ok getkeys
    else if same op_str gettable_str || same op_str (line (116 ∷ []))
    then ok gettable
    else if same op_str quit_str || same op_str (line (113 ∷ []))
    then ok quit
    else if same op_str stats_str || same op_str (line (115 ∷ 116 ∷ []))
    then ok stats
    else do operation ← first_word op_str; ok (parse_word operation)

-- The result of the loop is kept by `&&`: a single equal pair makes it false.
differ : List CString → List CString → Bool → Bool
differ (c ∷ children) (n ∷ new_children) result =
    differ children new_children (result && not (same c n))
differ _ _ result = result

-- An array of strings with its `count`.
pub children_has_difference : List CString → List CString → Bool
children_has_difference children new_children =
    if not (length children == length new_children) then true else differ children new_children true

parses_put : parse_operation (112 ∷ 32 ∷ 97 ∷ 32 ∷ 98 ∷ 10 ∷ []) ≡ ok put
unfolding parse_operation same strcmp first_word token parse_word is_command
parses_put = refl

one_change_missed :
    children_has_difference ((1 ∷ []) ∷ (2 ∷ []) ∷ []) ((1 ∷ []) ∷ (3 ∷ []) ∷ []) ≡ false
unfolding children_has_difference differ same strcmp
one_change_missed = refl
