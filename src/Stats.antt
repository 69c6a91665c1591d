-- ===== src/Stats.antt =====
-- source/stats.c and include/stats.h: the counters of the server, changed under their lock.
pub mod Threads
use sd_projeto.Base.{ℤ, pos, ◌+ℤ◌, Option, none, some, Run, ok, fault, blocked, ◌>>=◌}
use sd_projeto.Mutex.{Locks, enter_write, exit_write}

-- `struct statistics_t`
pub record Statistics : Type 0 where
  pub n_clientes : ℤ
  pub n_operacoes : ℤ
  pub total_time : ℤ

-- A thread that runs alone and has to wait would wait for ever.
abbrev pub acquire : Option Locks → Run Locks
acquire none = fault blocked
acquire (some locks) = ok locks

unfoldable pub change_client_num : Statistics → Locks → ℤ → Run (Statistics × Locks)
change_client_num stats locks value = do
  held ← acquire (enter_write locks)
  let current = stats.n_clientes
  ok (record stats { n_clientes = current +ℤ value }, (exit_write held).0)

unfoldable pub increase_operations : Statistics → Locks → Run (Statistics × Locks)
increase_operations stats locks = do
  held ← acquire (enter_write locks)
  let current = stats.n_operacoes
  ok (record stats { n_operacoes = current +ℤ pos 1 }, (exit_write held).0)

unfoldable pub increase_time : Statistics → Locks → ℤ → Run (Statistics × Locks)
increase_time stats locks time = do
  held ← acquire (enter_write locks)
  let current = stats.total_time
  ok (record stats { total_time = current +ℤ time }, (exit_write held).0)
