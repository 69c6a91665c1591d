-- ===== src/Resources/Fresh.antt =====
-- A fresh server holds the empty map, and is a chain of its own.
use sd_projeto.Base.{ℕ, ◌<◌, ◌^◌, ◌≡◌, refl, ◌∙◌, ap, pos, false, some, ok, ◌>>=◌}
use sd_projeto.Table.Methods.{Map, Models, empty, table_create-empty}
use sd_projeto.CString.{strcmp}
use sd_projeto.Table.{Table, table_destroy}
use sd_projeto.Table.Whole.{table_destroy-table_of}
use sd_projeto.Mutex.{unlocked}
use sd_projeto.Mutex.Free.{IsFree}
use sd_projeto.Skel.{Server, table_skel_init, table_skel_destroy, has_next}
use sd_projeto.Skel.Sections.{Ready}
use sd_projeto.Resources.{
  init_server_resources, with_table, no_stats, fresh, destroy_server_resources,
}

unlocked-IsFree : IsFree unlocked
unlocked-IsFree = record { no_writer_waits = refl; no_reader = refl; no_writer = refl }

fresh-Ready : (f : Map) (t : Table) → Models f t → Ready f (fresh t)
unfolding fresh
fresh-Ready f t models = record {
  table = t;
  its_table = refl;
  models = models;
  stats = no_stats;
  its_stats = refl;
  table_free = unlocked-IsFree;
  stats_free = unlocked-IsFree;
}

fresh-Linked : (t : Table) → has_next (fresh t) ≡ false
unfolding fresh has_next strcmp
fresh-Linked t = refl

-- The resources of a server made with at least one and fewer than 2^31 lists are those of a server
-- that holds the empty map, whose locks are free, and which has no next server.
pub init_server_resources-Ready :
    (n : ℕ)
    → 0 < n
    → n < 2 ^ 31
    → (server : Server) × (init_server_resources (pos n) ≡ ok (pos 0, some server))
      × Ready empty server
      × (has_next server ≡ false)
unfolding init_server_resources with_table table_skel_init
init_server_resources-Ready n h k =
    let (t, creates, models) = table_create-empty n h k in
    (fresh t, rw creates refl, fresh-Ready empty t models, fresh-Linked t)

-- The table of a server that holds a map is destroyed without a fault.
pub Ready-destroyed :
    {f : Map} {server : Server} → Ready f server → destroy_server_resources server ≡ ok (pos 0)
unfolding destroy_server_resources table_skel_destroy
Ready-destroyed {f} {server} r =
    ap (λ t. table_destroy t >>= (λ ret. ok (pos 0))) (r.its_table ∙ ap some r.models.table)
    ∙ rw (table_destroy-table_of r.models.rows) refl
