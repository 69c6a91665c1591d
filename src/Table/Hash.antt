-- ===== src/Table/Hash.antt =====
-- `hash_code` of source/table.c: which row holds a key.
use sd_projeto.Base.{
  to_unsigned, false, ◌∙◌, ap, ℕ, ◌+◌, ◌-◌, ◌*◌, ◌%◌, ◌^◌, ◌<◌, ◌≡◌, ℤ, pos, negsuc, pos_part,
  neg_part, rem, abs, abs-rem, to_int, [], ◌∷◌, Run, ok, fault, division_by_zero, arith, ltb, ◌==◌,
  if◌then◌else◌,
}
use sd_projeto.CString.{CString}

-- A `char`, which is signed, converted to `unsigned long long`.
char_bits : ℕ → ℕ
char_bits b = if ltb b 128 then b else 2 ^ 64 - 256 + b

hash_loop : CString → ℕ → ℕ
hash_loop [] result = result
hash_loop (b ∷ key) result = hash_loop key ((result * 31 + char_bits b) % 2 ^ 64)

fold_index : ℕ → ℤ → Run ℤ
fold_index result n =
    let divisor = pos_part n + neg_part n in
    if divisor == 0
    then fault division_by_zero
    else ok (abs (to_int (to_unsigned (rem (to_int result) divisor))))

unfoldable pub hash_code : CString → ℤ → Run ℤ
unfolding hash_loop char_bits fold_index abs to_int rem to_unsigned
hash_code key n = fold_index (hash_loop key 7) n

-- Both conversions keep a remainder.
to_int-to_unsigned-rem :
    (a : ℤ) (n : ℕ) → 0 < n → n < 2 ^ 31 → to_int (to_unsigned (rem a n)) ≡ rem a n
unfolding to_int to_unsigned rem
to_int-to_unsigned-rem (pos m) n h k = ground arith
to_int-to_unsigned-rem (negsuc m) n h k = ground arith

fold_index-rem :
    (result n : ℕ)
    → 0 < n
    → n < 2 ^ 31
    → fold_index result (pos n) ≡ ok (abs (rem (to_int result) n))
unfolding fold_index
fold_index-rem result n h k =
    let e : n + 0 ≡ n = omega arith in
    let ne : (n == 0) ≡ false = ground arith in
    rw (e, ne, to_int-to_unsigned-rem (to_int result) n h k)

-- For at least one and fewer than 2^31 rows, the row of every key is one of them.
pub hash_code-lt :
    (key : CString) (n : ℕ)
    → 0 < n
    → n < 2 ^ 31
    → (i : ℕ) × (hash_code key (pos n) ≡ ok (pos i)) × (i < n)
hash_code-lt key n h k =
    let result = hash_loop key 7 in
    let (i, index, lt) = abs-rem (to_int result) n h in
    (i, (unfold hash_code in fold_index-rem result n h k ∙ ap ok index), lt)
