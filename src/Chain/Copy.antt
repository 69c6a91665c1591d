-- ===== src/Chain/Copy.antt =====
-- The copy of a table that `dup_table_from_server` makes.
use mathlib.Core.Path.{subst}
use sd_projeto.Base.{◌≡◌, ap, [], ◌∷◌, Option, none, some}
use sd_projeto.CString.{CString}
use sd_projeto.Data.{Bytes}
use sd_projeto.EntryList.Assoc.{Assoc}
use sd_projeto.Table.{Table}
use sd_projeto.Table.Methods.{Map, update}
use sd_projeto.Table.Whole.{Lists}
use sd_projeto.Message.Opcode

-- The map after all pairs of the list were put.
abbrev put_all : Map → Assoc → Map
put_all f [] = f
put_all f ((k, v) ∷ m) = put_all (update f k (some v)) m

abbrev over : Option Bytes → Option Bytes → Option Bytes
over none w = w
over (some v) w = some v

or_else : Table → Option Table → Table
or_else t none = t
or_else t (some t') = t'

pub Lists-same : (t t' : Table) (m : Assoc) → some t ≡ some t' → Lists t m → Lists t' m
unfolding or_else
Lists-same t t' m e lists = subst (λ u. Lists u m) (ap (or_else t) e) lists
