-- ===== src/Resources.antt =====
-- The resources of a server: `init_server_resources`, `destroy_server_resources` and the handler of
-- SIGINT, of source/table_server.c.
pub mod Fresh
use sd_projeto.Base.{
  ℕ, false, ℤ, pos, minus_one, Bool, true, [], Option, none, some, Run, ok, ◌>>=◌,
}
use sd_projeto.Table.{Table}
use sd_projeto.Mutex.{unlocked}
use sd_projeto.Stats.{Statistics}
use sd_projeto.Stub.{Rtable}
use sd_projeto.Skel.{Server, table_skel_init, table_skel_destroy}

-- What `calloc` leaves.
no_stats : Statistics
no_stats = record { n_clientes = pos 0; n_operacoes = pos 0; total_time = pos 0 }

-- No connection: an empty address.
no_rtable : Rtable
no_rtable = record { server_address = []; server_port = pos 0; sockfd = pos 0 }

fresh : Table → Server
fresh table = record {
  table = some table;
  global_stats = some no_stats;
  table_locks = unlocked;
  stats_locks = unlocked;
  next_server_rtable = some no_rtable;
  next_server_node_path = [];
}

with_table : Option Table → ℤ × Option Server
with_table none = (minus_one, none)
with_table (some table) = (pos 0, some (fresh table))

pub init_server_resources : ℤ → Run (ℤ × Option Server)
init_server_resources n_lists = do table ← table_skel_init n_lists; ok (with_table table)

-- The result of the destruction of the table is not looked at.
pub destroy_server_resources : Server → Run ℤ
destroy_server_resources server = do ret ← table_skel_destroy server.table; ok (pos 0)

-- The flag `terminated` that the loop of the server tests.
pub sigint_handler : Bool → Bool
sigint_handler terminated = true

-- What a signal does. `restart` is the flag `SA_RESTART`, `other_flags` are the rest.
pub data Handler : Type 0 where
  default ignore calls_sigint_handler : Handler

pub record SigAction : Type 0 where
  pub sa_handler : Handler
  pub restart : Bool
  pub other_flags : ℕ

pub record SignalActions : Type 0 where
  pub sigint : SigAction
  pub sigpipe : SigAction

-- The flags that are set already are kept, but for `SA_RESTART`.
pub set_sig_handlers : SignalActions → SignalActions
set_sig_handlers actions = record {
  sigint = record actions.sigint { sa_handler = calls_sigint_handler; restart = false };
  sigpipe = record actions.sigpipe { sa_handler = ignore; restart = false };
}
