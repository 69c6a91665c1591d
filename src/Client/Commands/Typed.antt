-- ===== src/Client/Commands/Typed.antt =====
-- What the commands do that are typed in full.
use sd_projeto.Base.{
  length-append, ◌^◌, ℕ, zero, suc, ◌≤◌, ◌⊎◌, inl, inr, true, ap, Run, ◌<◌, ◌≡◌, refl, pos, ◌==◌,
  false, [], ◌∷◌, ◌++◌, Option, some, ok, ◌>>=◌, arith, length,
}
use sd_projeto.CString.{CString, strcmp}
use sd_projeto.Data.{Bytes, data_create}
use sd_projeto.Data.Copies.{data_of, data_dup-data_of}
use sd_projeto.Entry.{entry_create}
use sd_projeto.Entry.Order.{entry_of}
use sd_projeto.Message.{MessageT}
use sd_projeto.Stub.{Rtable, rtable_put, rtable_get, rtable_del}
use sd_projeto.Client.{
  put, get, del, put_str, get_str, del_str, parse_operation, same, first_word, token, parse_word,
  is_command,
}
use sd_projeto.Client.Commands.{
  word, behind, strtok, strtok_line, fgets_loop, read_line, put_told, run_put, get_told, run_get,
  del_told, run_del, run_operation, run_line,
}

-- no space and no line end
abbrev pub IsPlain : CString → Type 0
IsPlain [] = Unit
IsPlain (b ∷ s) = ((b == 32) ≡ false) × ((b == 10) ≡ false) × IsPlain s

-- a plain string that is not empty
abbrev pub IsWord : CString → Type 0
IsWord s = (0 < length s) × IsPlain s

word-space : (s r : CString) → IsPlain s → word 32 (s ++ 32 ∷ r) ≡ s
unfolding word
word-space [] r h = refl
word-space (b ∷ s) r (h, _, hs) = rw (h, word-space s r hs) refl

behind-space : (s r : CString) → IsPlain s → behind 32 (s ++ 32 ∷ r) ≡ r
unfolding behind
behind-space [] r h = refl
behind-space (b ∷ s) r (h, _, hs) = rw (h, behind-space s r hs) refl

word-last : (s : CString) → IsPlain s → word 32 (s ++ 10 ∷ []) ≡ s ++ 10 ∷ []
unfolding word
word-last [] h = refl
word-last (b ∷ s) (h, _, hs) = rw (h, word-last s hs) refl

behind-last : (s : CString) → IsPlain s → behind 32 (s ++ 10 ∷ []) ≡ []
unfolding behind
behind-last [] h = refl
behind-last (b ∷ s) (h, _, hs) = rw (h, behind-last s hs) refl

word-line : (s : CString) → IsPlain s → word 10 (s ++ 10 ∷ []) ≡ s
unfolding word
word-line [] h = refl
word-line (b ∷ s) (_, h, hs) = rw (h, word-line s hs) refl

strtok-space : (s r : CString) → IsWord s → strtok 32 (s ++ 32 ∷ r) ≡ (some s, r)
unfolding strtok
strtok-space [] r (h, _) = absurd (omega arith)
strtok-space (b ∷ s) r (_, h) = rw (h.0, word-space (b ∷ s) r h, behind-space (b ∷ s) r h) refl

strtok-last : (s : CString) → IsWord s → strtok 32 (s ++ 10 ∷ []) ≡ (some (s ++ 10 ∷ []), [])
unfolding strtok
strtok-last [] (h, _) = absurd (omega arith)
strtok-last (b ∷ s) (_, h) = rw (h.0, word-last (b ∷ s) h, behind-last (b ∷ s) h) refl

strtok-line : (s : CString) → IsWord s → (strtok 10 (s ++ 10 ∷ [])).0 ≡ some s
unfolding strtok
strtok-line [] (h, _) = absurd (omega arith)
strtok-line (b ∷ s) (_, h) = rw (h.1, word-line (b ∷ s) h) refl

strtok_line-word : (s kept : CString) → IsWord s → strtok_line (some (s ++ 10 ∷ [])) kept ≡ some s
unfolding strtok_line
strtok_line-word s kept h = strtok-line s h

data_create-data_of :
    (b : Bytes) → 0 < length b → data_create (pos (length b)) (some b) ≡ some (data_of b)
unfolding data_create
data_create-data_of b h = ground arith

put_str-IsWord : IsWord put_str
put_str-IsWord = (omega arith, (refl, refl, (refl, refl, (refl, refl, tt))))

get_str-IsWord : IsWord get_str
get_str-IsWord = (omega arith, (refl, refl, (refl, refl, (refl, refl, tt))))

del_str-IsWord : IsWord del_str
del_str-IsWord = (omega arith, (refl, refl, (refl, refl, (refl, refl, tt))))

-- The lines "put <key> <bytes>", "get <key>" and "del <key>".
abbrev pub put_line : CString → Bytes → CString
put_line key bytes = put_str ++ (32 ∷ (key ++ (32 ∷ (bytes ++ (10 ∷ [])))))

longer : (s r : Bytes) → length r ≤ length (s ++ r)
longer s r = rw length-append (omega arith)

-- what the bound of the line says of the bytes
pub short_bytes :
    (key : CString) (bytes : Bytes) → length (put_line key bytes) ≤ 98 → length bytes < 2 ^ 31
short_bytes key bytes h = omega (
  arith,
  longer put_str (32 ∷ (key ++ (32 ∷ (bytes ++ (10 ∷ []))))),
  longer key (32 ∷ (bytes ++ (10 ∷ []))),
  length-append bytes (10 ∷ []),
)

abbrev pub get_line : CString → CString
get_line key = get_str ++ (32 ∷ (key ++ (10 ∷ [])))

abbrev pub del_line : CString → CString
del_line key = del_str ++ (32 ∷ (key ++ (10 ∷ [])))

-- a line end behind bytes that are none
abbrev IsLine : CString → Type 0
IsLine [] = ⊥
IsLine (b ∷ s) = (((b == 10) ≡ true) × (s ≡ [])) ⊎ (((b == 10) ≡ false) × IsLine s)

IsLine-append : (s r : CString) → IsPlain s → IsLine r → IsLine (s ++ r)
IsLine-append [] r h l = l
IsLine-append (b ∷ s) r (_, h, hs) l = inr (h, IsLine-append s r hs l)

put_line-IsLine :
    (key : CString) (bytes : Bytes) → IsWord key → IsWord bytes → IsLine (put_line key bytes)
put_line-IsLine key bytes (_, k) (_, b) =
    IsLine-append put_str (32 ∷ (key ++ (32 ∷ (bytes ++ (10 ∷ []))))) put_str-IsWord.1 (
      inr (
        refl,
        IsLine-append key (32 ∷ (bytes ++ (10 ∷ []))) k
            (inr (refl, IsLine-append bytes (10 ∷ []) b (inl (refl, refl)))),
      ))

get_line-IsLine : (key : CString) → IsWord key → IsLine (get_line key)
get_line-IsLine key (_, k) =
    IsLine-append get_str (32 ∷ (key ++ (10 ∷ []))) get_str-IsWord.1
      (inr (refl, IsLine-append key (10 ∷ []) k (inl (refl, refl))))

del_line-IsLine : (key : CString) → IsWord key → IsLine (del_line key)
del_line-IsLine key (_, k) =
    IsLine-append del_str (32 ∷ (key ++ (10 ∷ []))) del_str-IsWord.1
      (inr (refl, IsLine-append key (10 ∷ []) k (inl (refl, refl))))

fgets_loop-IsLine :
    (n : ℕ) (line later : CString)
    → IsLine line
    → length line ≤ n
    → fgets_loop n (line ++ later) ≡ (line, later)
unfolding fgets_loop
fgets_loop-IsLine n [] later l fits = absurd l
fgets_loop-IsLine zero (b ∷ line) later l fits = absurd (omega arith)
fgets_loop-IsLine (suc n) (b ∷ line) later (inl (e, no_more)) fits = rw (e, no_more) refl
fgets_loop-IsLine (suc n) (b ∷ line) later (inr (e, l)) fits =
    rw (e, fgets_loop-IsLine n line later l (omega arith)) refl

-- A line of at most 98 bytes is read whole.
read_line-IsLine :
    (line later : CString)
    → IsLine line
    → length line ≤ 98
    → read_line (line ++ later) ≡ ok (line, later)
unfolding read_line
read_line-IsLine [] later l fits = absurd l
read_line-IsLine (b ∷ line) later l fits = ap ok (fgets_loop-IsLine 98 (b ∷ line) later l fits)

parse-put_line : (key : CString) (bytes : Bytes) → parse_operation (put_line key bytes) ≡ ok put
unfolding parse_operation same strcmp first_word token parse_word is_command
parse-put_line key bytes = refl

parse-get_line : (key : CString) → parse_operation (get_line key) ≡ ok get
unfolding parse_operation same strcmp first_word token parse_word is_command
parse-get_line key = refl

parse-del_line : (key : CString) → parse_operation (del_line key) ≡ ok del
unfolding parse_operation same strcmp first_word token parse_word is_command
parse-del_line key = refl

module _ {W : Type 0}
    (head_exchange tail_exchange : W → Rtable → MessageT → Run (Option MessageT × W))
    (rtable_head rtable_tail : Rtable) where
  run_put-entry_of :
      (key : CString) (bytes : Bytes) (world : W)
      → 0 < length bytes
      → run_put head_exchange tail_exchange rtable_head rtable_tail (some key) (some bytes) world
        ≡ (rtable_put (head_exchange world) world (some rtable_head) (entry_of (key, bytes))
            >>= put_told head_exchange tail_exchange rtable_head rtable_tail key)
  unfolding run_put entry_create
  run_put-entry_of key bytes world h =
      rw (data_create-data_of bytes h, data_dup-data_of bytes h) refl

  -- The line "put <key> <bytes>", with a key and bytes that are not empty and have no space and no
  -- line end, puts the entry with this key and these bytes at the head, and prints what the call
  -- returns.
  pub run_line-put :
      (key : CString) (bytes : Bytes) (later : CString) (world : W)
      → IsWord key
      → IsWord bytes
      → length (put_line key bytes) ≤ 98
      → run_line head_exchange tail_exchange rtable_head rtable_tail
          (put_line key bytes ++ later)
          world
        ≡ (rtable_put (head_exchange world) world (some rtable_head) (entry_of (key, bytes))
            >>= put_told head_exchange tail_exchange rtable_head rtable_tail key
            >>= λ r. ok (r, later))
  unfolding run_line run_operation
  run_line-put key bytes later world k b fits =
      rw
        (
          read_line-IsLine (put_line key bytes) later (put_line-IsLine key bytes k b) fits,
          parse-put_line key bytes,
          strtok-space put_str (key ++ (32 ∷ (bytes ++ (10 ∷ [])))) put_str-IsWord,
          strtok-space key (bytes ++ (10 ∷ [])) k,
          strtok-last bytes b,
          strtok_line-word bytes [] b,
        )
        (ap (λ r. r >>= λ q. ok (q, later)) (run_put-entry_of key bytes world b.0))

  -- The line "get <key>", with a key that is not empty and has no space and no line end, gets this
  -- key at the tail, and prints the block or an error.
  pub run_line-get :
      (key : CString) (later : CString) (world : W)
      → IsWord key
      → length (get_line key) ≤ 98
      → run_line head_exchange tail_exchange rtable_head rtable_tail (get_line key ++ later) world
        ≡ (rtable_get (tail_exchange world) world (some rtable_tail) key
            >>= get_told head_exchange tail_exchange rtable_head rtable_tail
            >>= λ r. ok (r, later))
  unfolding run_line run_operation run_get
  run_line-get key later world k fits =
      rw
        (
          read_line-IsLine (get_line key) later (get_line-IsLine key k) fits,
          parse-get_line key,
          strtok-space get_str (key ++ (10 ∷ [])) get_str-IsWord,
          strtok-last key k,
          strtok_line-word key [] k,
        )
        refl

  -- The line "del <key>", with a key that is not empty and has no space and no line end, deletes
  -- this key at the head, and prints what the call returns.
  pub run_line-del :
      (key : CString) (later : CString) (world : W)
      → IsWord key
      → length (del_line key) ≤ 98
      → run_line head_exchange tail_exchange rtable_head rtable_tail (del_line key ++ later) world
        ≡ (rtable_del (head_exchange world) world (some rtable_head) key
            >>= del_told head_exchange tail_exchange rtable_head rtable_tail
            >>= λ r. ok (r, later))
  unfolding run_line run_operation run_del
  run_line-del key later world k fits =
      rw
        (
          read_line-IsLine (del_line key) later (del_line-IsLine key k) fits,
          parse-del_line key,
          strtok-space del_str (key ++ (10 ∷ [])) del_str-IsWord,
          strtok-last key k,
          strtok_line-word key [] k,
        )
        refl
