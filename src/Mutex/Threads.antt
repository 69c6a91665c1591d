-- ===== src/Mutex/Threads.antt =====
-- Threads that share one lock, interleaved in any order.
pub mod Totals
pub mod Invariant
pub mod Safety
pub mod Progress
pub mod Others
use sd_projeto.Base.{
  ℕ, ◌<◌, Bool, true, false, List, map, Option, none, some, length, set, get_or, replicate,
  if◌then◌else◌,
}
use sd_projeto.Mutex.{Locks, unlocked, enter_read, exit_read, enter_write, exit_write}

-- Where a thread stands: outside, before the test of `enter_read` or `enter_write`, asleep in the
-- wait of one of them, or between the enter and the exit.
pub data Place : Type 0 where
  outside wants_read wants_write asleep_read asleep_write reading writing : Place

pub record System : Type 0 where
  pub locks : Locks
  pub threads : List Place

-- What a broadcast does to a thread.
unfoldable pub wake : Place → Place
wake asleep_read = wants_read
wake asleep_write = wants_write
wake p = p

-- What a thread does next: `call_read` and `call_write` count outside only, `wake_up` in a wait
-- (POSIX lets a wait end with no broadcast), and `go_on` in all other places.
pub data Action : Type 0 where
  call_read call_write wake_up go_on : Action

move : System → ℕ → Place → System
move s i p = record s { threads = set s.threads i p }

enter : System → ℕ → Option Locks → (inside asleep : Place) → System
enter s i none inside asleep = move s i asleep
enter s i (some locks) inside asleep = record { locks = locks; threads = set s.threads i inside }

leave : System → ℕ → Locks × Bool → System
leave s i (locks, broadcast) =
    let threads = set s.threads i outside in
    record { locks = locks; threads = if broadcast then map wake threads else threads }

act : System → ℕ → Action → Place → System
act s i call_read outside = move s i wants_read
act s i call_write outside = move s i wants_write
act s i wake_up asleep_read = move s i wants_read
act s i wake_up asleep_write = move s i wants_write
act s i go_on wants_read = enter s i (enter_read s.locks) reading asleep_read
act s i go_on wants_write = enter s i (enter_write s.locks) writing asleep_write
act s i go_on reading = leave s i (exit_read s.locks)
act s i go_on writing = leave s i (exit_write s.locks)
act s i _ _ = s

abbrev pub place : System → ℕ → Place
place s i = get_or s.threads i outside

unfoldable pub step : System → ℕ → Action → System
unfolding act enter leave move enter_read exit_read enter_write exit_write
step s i a = act s i a (place s i)

abbrev pub start_state : ℕ → System
start_state n = record { locks = unlocked; threads = replicate n outside }

-- `n` threads, none of them inside at the start
pub data Reach (n : ℕ) : System → Type 0 where
  start : Reach n (start_state n)
  next :
      {s : System} → Reach n s → (i : ℕ) (a : Action) → i < length s.threads → Reach n (step s i a)
