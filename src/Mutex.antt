-- ===== src/Mutex.antt =====
-- source/mutex.c and include/mutex.h: a lock for many readers or one writer, over a POSIX mutex and
-- a condition. The mutex is held from the start to the end of each function, so a function is one
-- step, but for the wait.
pub mod Free
pub mod Threads
use sd_projeto.Base.{
  ℤ, pos, ◌+ℤ◌, ◌-ℤ◌, ltb_ℤ, ◌==ℤ◌, Bool, true, false, ◌||◌, Option, none, some, if◌then◌else◌,
}

-- `mutex_locks`, without the mutex and the condition
pub record Locks : Type 0 where
  pub writers_waiting : ℤ
  pub readers_reading : ℤ
  pub writer_active : Bool

-- Both locks of the server start like this (`init_server_resources`).
abbrev pub unlocked : Locks
unlocked = record { writers_waiting = pos 0; readers_reading = pos 0; writer_active = false }

-- One test of the loop: `none` if the thread must wait on the condition.
unfoldable pub enter_read : Locks → Option Locks
enter_read locks =
    if ltb_ℤ (pos 0) locks.writers_waiting || locks.writer_active
    then none
    else some (record locks { readers_reading = locks.readers_reading +ℤ pos 1 })

-- The new state, and whether the condition is broadcast.
unfoldable pub exit_read : Locks → Locks × Bool
exit_read locks =
    let left = locks.readers_reading -ℤ pos 1 in
    (record locks { readers_reading = left }, left ==ℤ pos 0)

unfoldable pub enter_write : Locks → Option Locks
enter_write locks =
    if ltb_ℤ (pos 0) locks.readers_reading || locks.writer_active
    then none
    else some
        (record locks { writers_waiting = locks.writers_waiting -ℤ pos 1; writer_active = true })

unfoldable pub exit_write : Locks → Locks × Bool
exit_write locks = (record locks { writer_active = false }, true)
