-- ===== src/CString.antt =====
-- The C strings that the program compares and copies.
pub mod Order
use sd_projeto.Base.{ℕ, ℤ, pos, negsuc, List, [], ◌∷◌, ◌==◌, ltb, if◌then◌else◌}

-- The bytes before the terminator. `strdup`, `strcpy` and `strndup` copy them, and a copy is the
-- same value.
abbrev pub CString : Type 0
CString = List ℕ

-- The sign of the comparison of `<string.h>`, which is all that C fixes and all that is used.
-- Bytes are compared as `unsigned char`, and the terminator is less than every byte.
unfoldable pub strcmp : CString → CString → ℤ
strcmp [] [] = pos 0
strcmp [] (b ∷ t) = negsuc 0
strcmp (a ∷ s) [] = pos 1
strcmp (a ∷ s) (b ∷ t) = if a == b then strcmp s t else if ltb a b then negsuc 0 else pos 1
