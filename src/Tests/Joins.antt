-- ===== src/Tests/Joins.antt =====
-- Examples for what a server asks another one when it copies its table.
use sd_projeto.Base.{Run, refl, List, [], ◌∷◌, Option, none, some, ok}
use sd_projeto.EntryList.Assoc.{Assoc}
use sd_projeto.Message.{MessageT}
use sd_projeto.Table.{Table}
use sd_projeto.Table.Contents.{contents}
use sd_projeto.Table.Whole.{Lists, Lists-contents}
use sd_projeto.Stub.{Rtable}
use sd_projeto.Skel.{Server}
use sd_projeto.Skel.Sections.{Ready}
use sd_projeto.Serve.Tables.{table_done, size_done}
use sd_projeto.Stub.Requests.{ask_message}
use sd_projeto.Message.Opcode
use sd_projeto.Tests.{stored, stored_table, stored_map, stored-IsTable, stored-Models}
use sd_projeto.Tests.Chains.{counters, free, tail}

abbrev Sent : Type 0
Sent = List MessageT

abbrev pub exchange : Rtable → MessageT → Run (Option MessageT × Sent)
exchange rtable m = ok (none, m ∷ [])

abbrev pub pairs : Assoc
pairs = contents stored

pub pairs-Lists : Lists stored_table pairs
pairs-Lists = Lists-contents stored stored-IsTable

abbrev pub last : Server
last = record tail { table = some stored_table }

abbrev pub last-Ready : Ready stored_map last
last-Ready = record {
  table = stored_table;
  its_table = refl;
  models = stored-Models;
  stats = counters;
  its_stats = refl;
  table_free = free;
  stats_free = free;
}

abbrev pub answers : List MessageT
answers =
    ask_message Opcode.gettable ∷ table_done pairs ∷ ask_message Opcode.size ∷ size_done pairs ∷ []
