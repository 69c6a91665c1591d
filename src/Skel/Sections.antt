-- ===== src/Skel/Sections.antt =====
-- Work on the table of a server whose locks are free.
use sd_projeto.Base.{◌≡◌, refl, ℤ, pos, ◌+ℤ◌, Option, some, Run, ok}
use sd_projeto.Mutex.Free.{
  IsFree, read_over, write_over, enter_read-IsFree, enter_write-IsFree, read_over-IsFree,
  write_over-IsFree,
}
use sd_projeto.Stats.{Statistics, increase_operations, increase_time}
use sd_projeto.Table.{Table}
use sd_projeto.Table.Methods.{Map, Models}
use sd_projeto.Skel.{Server, under_read, under_write}

-- The server holds the map `f`, and no thread is inside its locks.
pub record Ready (f : Map) (server : Server) : Type 0 where
  pub table : Table
  pub its_table : server.table ≡ some table
  pub models : Models f table
  pub stats : Statistics
  pub its_stats : server.global_stats ≡ some stats
  pub table_free : IsFree server.table_locks
  pub stats_free : IsFree server.stats_locks

-- the statistics after one more operation that took `time`
abbrev pub counted : Statistics → ℤ → Statistics
counted stats time = record stats {
  n_operacoes = stats.n_operacoes +ℤ pos 1;
  total_time = stats.total_time +ℤ time;
}

-- the server after one more operation that read, and after one that wrote
abbrev pub read_done : ℤ → Statistics → Server → Server
read_done time stats server = record server {
  global_stats = some (counted stats time);
  table_locks = read_over server.table_locks;
  stats_locks = write_over (write_over server.stats_locks);
}

abbrev pub write_done : ℤ → Statistics → Option Table → Server → Server
write_done time stats table server = record server {
  table = table;
  global_stats = some (counted stats time);
  table_locks = write_over server.table_locks;
  stats_locks = write_over (write_over server.stats_locks);
}

module _ {f : Map} {server : Server} (r : Ready f server) (time : ℤ) where
  open r use {table, its_table, models, stats, its_stats, table_free, stats_free}

  counts :
      increase_operations stats server.stats_locks
      ≡ ok
          (record stats { n_operacoes = stats.n_operacoes +ℤ pos 1 }, write_over server.stats_locks)
  unfolding increase_operations
  counts = rw (enter_write-IsFree stats_free)

  times :
      (s : Statistics)
      → increase_time s (write_over server.stats_locks) time
        ≡ ok (
          record s { total_time = s.total_time +ℤ time },
          write_over (write_over server.stats_locks),
        )
  unfolding increase_time
  times s = rw (enter_write-IsFree (write_over-IsFree stats_free))

  pub under_read-ok :
      {A : Type 0} (body : Option Table → Run A) (a : A)
      → body (some table) ≡ ok a
      → under_read time body server ≡ ok (a, read_done time stats server)
  unfolding under_read
  under_read-ok body a runs =
      rw (enter_read-IsFree table_free, its_stats, counts, its_table, runs, times)

  pub read_done-Ready : Ready f (read_done time stats server)
  read_done-Ready = record {
    table = table;
    its_table = its_table;
    models = models;
    stats = counted stats time;
    its_stats = refl;
    table_free = read_over-IsFree table_free;
    stats_free = write_over-IsFree (write_over-IsFree stats_free);
  }

  pub under_write-ok :
      {A : Type 0} (body : Option Table → Run (A × Option Table)) (a : A) (table' : Option Table)
      → body (some table) ≡ ok (a, table')
      → under_write time body server ≡ ok (a, write_done time stats table' server)
  unfolding under_write
  under_write-ok body a table' runs =
      rw (enter_write-IsFree table_free, its_stats, counts, its_table, runs, times)

  pub write_done-Ready :
      {g : Map} {t : Table} → Models g t → Ready g (write_done time stats (some t) server)
  write_done-Ready {t} m = record {
    table = t;
    its_table = refl;
    models = m;
    stats = counted stats time;
    its_stats = refl;
    table_free = write_over-IsFree table_free;
    stats_free = write_over-IsFree (write_over-IsFree stats_free);
  }
