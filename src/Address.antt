-- ===== src/Address.antt =====
-- Addresses, `<ip>:<port>`: source/address.c, and the reading of one in `rtable_connect` of
-- source/client_stub.c. `strchr`, `strndup`, `strtol` and `atoi` are those of the C library.
pub mod Reading
use sd_projeto.Base.{
  ℕ, ◌+◌, ◌-◌, ◌*◌, ◌^◌, ◌%◌, ltb, leb, ◌==◌, ℤ, pos, negsuc, minus_one, ◌-ℤ◌, to_int, Bool, true,
  false, ◌&&◌, ◌||◌, List, [], ◌∷◌, Option, none, some, Run, ok, ◌>>=◌, deref, if◌then◌else◌,
}
use sd_projeto.CString.{CString}

-- 58 is a colon.
strchr_colon : CString → Option CString
strchr_colon [] = none
strchr_colon (b ∷ s) = if b == 58 then some s else strchr_colon s

before_colon : CString → CString
before_colon [] = []
before_colon (b ∷ s) = if b == 58 then [] else b ∷ before_colon s

abbrev pub is_digit : ℕ → Bool
is_digit b = leb 48 b && leb b 57

abbrev is_space : ℕ → Bool
is_space b = b == 32 || (leb 9 b && leb b 13)

-- the value of the digits, each added to ten times what stands before it, and what follows them
digits : CString → ℕ → ℕ × CString
digits [] value = (value, [])
digits (b ∷ s) value = if is_digit b then digits s (value * 10 + (b - 48)) else (value, b ∷ s)

-- `strtol` gives the nearest `long` to a number that is none, and the number 0 and the whole string
-- as the rest if there is no digit.
clamp_long : Bool → ℕ → ℤ
clamp_long true value = if ltb (2 ^ 63) value then pos 0 -ℤ pos (2 ^ 63) else pos 0 -ℤ pos value
clamp_long false value = if ltb value (2 ^ 63) then pos value else pos (2 ^ 63 - 1)

unsigned_number : (whole : CString) → Bool → CString → ℤ × CString
unsigned_number whole negative [] = (pos 0, whole)
unsigned_number whole negative (b ∷ s) =
    let (value, rest) = digits (b ∷ s) 0 in
    if is_digit b then (clamp_long negative value, rest) else (pos 0, whole)

-- 45 is a minus sign and 43 a plus sign.
signed_number : CString → CString → ℤ × CString
signed_number whole [] = (pos 0, whole)
signed_number whole (b ∷ s) =
    if b == 45
    then unsigned_number whole true s
    else if b == 43
    then unsigned_number whole false s
    else unsigned_number whole false (b ∷ s)

skip_spaces : CString → CString → ℤ × CString
skip_spaces whole [] = (pos 0, whole)
skip_spaces whole (b ∷ s) = if is_space b then skip_spaces whole s else signed_number whole (b ∷ s)

pub strtol : CString → ℤ × CString
strtol s = skip_spaces s s

-- A `long` converted to `int`: its low 32 bits.
pub int_of_long : ℤ → ℤ
int_of_long (pos n) = to_int n
int_of_long (negsuc n) = to_int (2 ^ 64 - 1 - n)

-- `server_address`
pub record ServerAddress : Type 0 where
  pub addr_str : Option CString
  pub ip : Option CString
  pub port : ℤ

-- A port with something behind it is refused.
with_port : CString → ServerAddress → ℤ × CString → ℤ × ServerAddress
with_port addr_str addr (port, []) =
    (pos 0, record addr { port = int_of_long port; addr_str = some addr_str })
with_port addr_str addr (port, b ∷ endptr) = (minus_one, addr)

-- What is returned, and what `addr` then points at. Without a colon, the address behind NULL is
-- read.
pub interpret_addr : Option CString → ServerAddress → Run (ℤ × ServerAddress)
interpret_addr none addr = ok (minus_one, addr)
interpret_addr (some addr_str) addr = do
  port_str ← deref (strchr_colon addr_str)
  ok (with_port addr_str (record addr { ip = some (before_colon addr_str) }) (strtol port_str))

-- What is returned; the struct and its strings are freed.
pub destory_addr_struct : Option ServerAddress → ℤ
destory_addr_struct none = minus_one
destory_addr_struct (some addr) = pos 0

-- `atoi` is `(int) strtol`, and tells nothing of a bad number.
pub atoi : CString → ℤ
atoi s = int_of_long (strtol s).0

-- The host and the port that `rtable_connect` connects to, or none if it returns NULL.
pub target : Option CString → Run (Option (CString × ℤ))
target none = ok none
target (some address_port) = do
  port_str ← deref (strchr_colon address_port)
  ok (some (before_colon address_port, atoi port_str))
