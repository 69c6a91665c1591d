-- ===== src/Data.antt =====
-- source/data.c and include/data.h: blocks of data. A pointer is an `Option`, where `none` is NULL,
-- and a value under it is the object that the pointer owns. `malloc` is taken never to fail.
pub mod Copies
use sd_projeto.Base.{
  ℕ, ℤ, pos, pos_part, minus_one, leb_ℤ, List, Option, none, some, is_some, Bool, not, ◌||◌, Run,
  ok, ◌>>=◌, memcpy, if◌then◌else◌,
}

abbrev pub Bytes : Type 0
Bytes = List ℕ

-- `struct data_t`; `content` is its field `data`: the bytes that can be read at the address.
pub record Data : Type 0 where
  pub datasize : ℤ
  pub content : Option Bytes

unfoldable pub data_create : ℤ → Option Bytes → Option Data
data_create size content =
    if leb_ℤ size (pos 0) || not (is_some content)
    then none
    else some (record { datasize = size; content = content })

-- What is returned; the block and its content are freed.
unfoldable pub data_destroy : Option Data → ℤ
data_destroy none = minus_one
data_destroy (some d) = pos 0

dup_content : ℤ → Option Bytes → Run (Option Data)
dup_content size none = ok none
dup_content size (some src) = if leb_ℤ size (pos 0) then ok none else do
  copy ← memcpy src (pos_part size)
  ok (some (record { datasize = size; content = some copy }))

unfoldable pub data_dup : Option Data → Run (Option Data)
unfolding dup_content memcpy
data_dup none = ok none
data_dup (some d) = dup_content d.datasize d.content

unfoldable pub data_replace : Option Data → ℤ → Option Bytes → ℤ × Option Data
data_replace none new_size new_content = (minus_one, none)
data_replace (some d) new_size new_content =
    if not (is_some d.content)
      || leb_ℤ d.datasize (pos 0)
      || leb_ℤ new_size (pos 0)
      || not (is_some new_content)
    then (minus_one, some d)
    else (pos 0, some (record { datasize = new_size; content = new_content }))
