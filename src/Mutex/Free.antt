-- ===== src/Mutex/Free.antt =====
-- A lock with no thread inside: it lets a thread in at once, and is free again when that leaves.
use sd_projeto.Base.{◌≡◌, pos, pos_part, ◌+ℤ◌, ◌-ℤ◌, false, true, some, arith}
use sd_projeto.Mutex.{Locks, enter_read, exit_read, enter_write, exit_write}

-- The count of waiting writers may be below 0.
pub record IsFree (locks : Locks) : Type 0 where
  pub no_writer_waits : pos_part locks.writers_waiting ≡ 0
  pub no_reader : locks.readers_reading ≡ pos 0
  pub no_writer : locks.writer_active ≡ false

-- while one thread reads, and while one thread writes
abbrev pub read_held : Locks → Locks
read_held locks = record locks { readers_reading = locks.readers_reading +ℤ pos 1 }

abbrev pub write_held : Locks → Locks
write_held locks = record locks {
  writers_waiting = locks.writers_waiting -ℤ pos 1;
  writer_active = true;
}

-- after one thread has read, and after one has written
abbrev pub read_over : Locks → Locks
read_over locks = (exit_read (read_held locks)).0

abbrev pub write_over : Locks → Locks
write_over locks = (exit_write (write_held locks)).0

module _ {locks : Locks} (free : IsFree locks) where
  pub enter_read-IsFree : enter_read locks ≡ some (read_held locks)
  unfolding enter_read
  enter_read-IsFree = ground (arith, free.no_writer_waits, free.no_writer)

  pub enter_write-IsFree : enter_write locks ≡ some (write_held locks)
  unfolding enter_write
  enter_write-IsFree = ground (arith, free.no_reader, free.no_writer)

  pub read_over-IsFree : IsFree (read_over locks)
  unfolding exit_read ◌+ℤ◌ ◌-ℤ◌
  read_over-IsFree = ground (arith, free.no_writer_waits, free.no_reader, free.no_writer)

  pub write_over-IsFree : IsFree (write_over locks)
  unfolding exit_write ◌-ℤ◌
  write_over-IsFree = ground (arith, free.no_writer_waits, free.no_reader, free.no_writer)
