-- ===== src/Data/Copies.antt =====
-- Blocks that are filled: what `data_dup` and `data_replace` do to them.
use sd_projeto.Base.{◌<◌, ◌≡◌, pos, [], ◌∷◌, some, ok, arith, length, take-length}
use sd_projeto.Data.{Bytes, Data, data_dup}

-- the block that holds exactly the bytes `b`
abbrev pub data_of : Bytes → Data
data_of b = record { datasize = pos (length b); content = some b }

-- A block with bytes to copy: its copy is a block with the same bytes.
pub data_dup-data_of :
    (b : Bytes) → 0 < length b → data_dup (some (data_of b)) ≡ ok (some (data_of b))
unfolding data_dup
data_dup-data_of [] h = absurd (omega arith)
data_dup-data_of (x ∷ b) h = ground (arith, take-length (x ∷ b))
