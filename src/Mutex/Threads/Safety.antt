-- ===== src/Mutex/Threads/Safety.antt =====
-- What the lock guarantees in every reachable state, and what it does not.
use sd_projeto.Base.{
  ℕ, ◌<◌, ◌≡◌, ◌≢◌, refl, ◌⊎◌, inl, inr, pos, true, false, some, arith, length, ◌+ℤ◌, if◌then◌else◌,
}
use sd_projeto.Mutex.{enter_read}
use sd_projeto.Mutex.Threads.{
  Place, asleep_read, asleep_write, reading, writing, System, place, Reach,
}
use sd_projeto.Mutex.Threads.Totals.{total, le-total, add-le-total, find_positive}
use sd_projeto.Mutex.Threads.Invariant.{reads, writes, waits_read, waits_write, Reach-Inv}

reading_of : (p : Place) → 0 < reads p → p ≡ reading
reading_of reading h = refl
reading_of p h = ground arith

writing_of : (p : Place) → 0 < writes p → p ≡ writing
writing_of writing h = refl
writing_of p h = ground arith

pub someone_inside :
    (s : System)
    → (s.locks.writer_active ≡ true) ⊎ (0 < total reads s.threads)
    → total writes s.threads ≡ (if s.locks.writer_active then 1 else 0)
    → (j : ℕ) × (j < length s.threads) × ((place s j ≡ reading) ⊎ (place s j ≡ writing))
someone_inside s (inl active) w =
    let (j, lt, h) = find_positive writes s.threads (ground arith) in
    (j, lt, inr (writing_of (place s j) h))
someone_inside s (inr some_read) w =
    let (j, lt, h) = find_positive reads s.threads some_read in
    (j, lt, inl (reading_of (place s j) h))

module _ {n : ℕ} {s : System} (r : Reach n s) (i : ℕ) (lt : i < length s.threads) where
  open (Reach-Inv r) use {readers, writers, excluded, unwaited, asleep_readers, asleep_writers}

  -- In every reachable state of any number of threads that share the lock, while one thread writes
  -- no thread reads.
  pub no_reader_beside_writer :
      (j : ℕ) → j < length s.threads → place s i ≡ writing → place s j ≢ reading
  no_reader_beside_writer j lt' w r' =
      ground
        (arith, le-total writes s.threads i lt, le-total reads s.threads j lt', writers, excluded)

  -- In every reachable state of any number of threads that share the lock, at most one thread
  -- writes.
  pub one_writer :
      (j : ℕ) → j < length s.threads → i ≢ j → place s i ≡ writing → place s j ≢ writing
  one_writer j lt' ne w w' = ground (arith, add-le-total writes s.threads i j lt lt' ne, writers)

  -- In every reachable state in which a thread sleeps in a wait of the lock, some thread is
  -- inside, so that its exit is still to come.
  pub no_lost_wakeup :
      (place s i ≡ asleep_read) ⊎ (place s i ≡ asleep_write)
      → (j : ℕ) × (j < length s.threads) × ((place s j ≡ reading) ⊎ (place s j ≡ writing))
  no_lost_wakeup (inl e) =
      someone_inside s (inl (asleep_readers (ground (arith, le-total waits_read s.threads i lt))))
        writers
  no_lost_wakeup (inr e) =
      someone_inside s (asleep_writers (ground (arith, le-total waits_write s.threads i lt)))
        writers

-- In every reachable state in which no thread writes, a thread that enters to read is let in, even
-- if threads wait to write.
pub readers_overtake_writers :
    {n : ℕ} {s : System}
    → Reach n s
    → s.locks.writer_active ≡ false
    → enter_read s.locks
      ≡ some (record s.locks { readers_reading = s.locks.readers_reading +ℤ pos 1 })
unfolding enter_read
readers_overtake_writers {s} r free = ground (arith, (Reach-Inv r).unwaited)
