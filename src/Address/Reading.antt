-- ===== src/Address/Reading.antt =====
-- Addresses with a decimal port are read as they are written.
use sd_projeto.Base.{
  ℕ, ◌+◌, ◌-◌, ◌*◌, ◌^◌, ◌<◌, ◌≤◌, ◌≡◌, ◌≢◌, ◌∙◌, refl, sym, ap, ℤ, pos, minus_one, to_int, true,
  false, [], ◌∷◌, ◌++◌, some, ok, arith, length,
}
use native.Mathlib.Nat.{add-mul, mul_assoc, mul_comm, pow-suc}
use sd_projeto.CString.{CString}
use sd_projeto.Address.{
  strchr_colon, before_colon, is_digit, digits, clamp_long, unsigned_number, signed_number,
  skip_spaces, strtol, int_of_long, ServerAddress, with_port, interpret_addr, atoi, target,
}

-- no colon among the bytes
abbrev pub NoColon : CString → Type 0
NoColon [] = Unit
NoColon (b ∷ s) = (b ≢ 58) × NoColon s

abbrev pub AreDigits : CString → Type 0
AreDigits [] = Unit
AreDigits (b ∷ s) = (is_digit b ≡ true) × AreDigits s

-- the number with these decimal digits, the first of the highest weight
abbrev pub decimal : CString → ℕ
decimal [] = 0
decimal (b ∷ s) = (b - 48) * 10 ^ length s + decimal s

strchr_colon-append : (ip s : CString) → NoColon ip → strchr_colon (ip ++ (58 ∷ s)) ≡ some s
unfolding strchr_colon
strchr_colon-append [] s h = refl
strchr_colon-append (b ∷ ip) s (h, hs) = ground (arith, strchr_colon-append ip s hs)

before_colon-append : (ip s : CString) → NoColon ip → before_colon (ip ++ (58 ∷ s)) ≡ ip
unfolding before_colon
before_colon-append [] s h = refl
before_colon-append (b ∷ ip) s (h, hs) = ground (arith, before_colon-append ip s hs)

spread : (value digit p : ℕ) → (value * 10 + digit) * p ≡ value * (p * 10) + digit * p
spread value digit p =
    add-mul (value * 10) digit p
    ∙ ap (λ n. n + digit * p) (mul_assoc value 10 p ∙ ap (λ n. value * n) (mul_comm 10 p))

regroup : (value digit p n : ℕ) → (value * 10 + digit) * p + n ≡ value * (p * 10) + (digit * p + n)
regroup value digit p n = omega (arith, spread value digit p)

digits-decimal :
    (s : CString) (value : ℕ)
    → AreDigits s
    → digits s value ≡ (value * 10 ^ length s + decimal s, [])
unfolding digits
digits-decimal [] value h = ap (λ n. (n, [])) (omega arith)
digits-decimal (b ∷ s) value (h, hs) =
    rw (h, digits-decimal s (value * 10 + (b - 48)) hs)
      (ap (λ n. (n, []))
        (regroup value (b - 48) (10 ^ length s) (decimal s)
          ∙ ap (λ q. value * q + ((b - 48) * 10 ^ length s + decimal s))
              (sym (pow-suc 10 (length s)))))

-- A digit is neither a space nor a sign.
skip_spaces-digit :
    (whole : CString) (b : ℕ) (s : CString)
    → is_digit b ≡ true
    → skip_spaces whole (b ∷ s) ≡ unsigned_number whole false (b ∷ s)
unfolding skip_spaces signed_number
skip_spaces-digit whole b s h = ground arith

clamp_long-small : (n : ℕ) → n < 2 ^ 63 → clamp_long false n ≡ pos n
unfolding clamp_long
clamp_long-small n h = ground arith

no_value : (q n : ℕ) → 0 * q + n ≡ n
no_value q n = omega arith

strtol-decimal :
    (b : ℕ) (s : CString)
    → AreDigits (b ∷ s)
    → decimal (b ∷ s) < 2 ^ 63
    → strtol (b ∷ s) ≡ (pos (decimal (b ∷ s)), [])
unfolding strtol unsigned_number
strtol-decimal b s (h, hs) small =
    rw (skip_spaces-digit (b ∷ s) b s h, digits-decimal (b ∷ s) 0 (h, hs))
      (rw (
        h,
        no_value (10 ^ length (b ∷ s)) (decimal (b ∷ s)),
        clamp_long-small (decimal (b ∷ s)) small,
      ))

int_of_long-small : (n : ℕ) → n < 2 ^ 31 → int_of_long (pos n) ≡ pos n
unfolding int_of_long to_int
int_of_long-small n h = ground arith

-- What starts with a letter is no number.
pub strtol-letter : (b : ℕ) (s : CString) → 65 ≤ b → strtol (b ∷ s) ≡ (pos 0, b ∷ s)
unfolding strtol skip_spaces signed_number unsigned_number
strtol-letter b s h = ground arith

-- A port with something behind its number is refused, and the address itself is not kept.
pub interpret_addr-unread :
    (ip port : CString)
    → NoColon ip
    → (number : ℤ) (b : ℕ) (behind : CString) → strtol port ≡ (number, b ∷ behind)
    → (addr : ServerAddress)
    → interpret_addr (some (ip ++ (58 ∷ port))) addr ≡ ok (minus_one, record addr { ip = some ip })
unfolding interpret_addr with_port
interpret_addr-unread ip port no_colon number b behind unread addr =
    rw (strchr_colon-append ip port no_colon, before_colon-append ip port no_colon, unread) refl

module _ (ip : CString) (b : ℕ) (s : CString) (no_colon : NoColon ip) (are : AreDigits (b ∷ s))
    (port : decimal (b ∷ s) < 2 ^ 31) where
  -- An address of the form <ip>:<port>, with no colon in the ip and a decimal port below 2^31, is
  -- read as that ip and that port by both of the functions that read addresses.
  pub interpret_addr-target :
      (addr : ServerAddress)
      → (interpret_addr (some (ip ++ (58 ∷ b ∷ s))) addr
          ≡ ok (
            pos 0,
            record {
              addr_str = some (ip ++ (58 ∷ b ∷ s));
              ip = some ip;
              port = pos (decimal (b ∷ s));
            },
          ))
        × (target (some (ip ++ (58 ∷ b ∷ s))) ≡ ok (some (ip, pos (decimal (b ∷ s)))))
  unfolding interpret_addr with_port target atoi
  interpret_addr-target addr =
      let number = strtol-decimal b s are (omega arith) in
      (
        rw (strchr_colon-append, before_colon-append, number, int_of_long-small),
        rw (strchr_colon-append, before_colon-append, number, int_of_long-small),
      )
