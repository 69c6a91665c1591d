-- ===== src/Tests/Locks.antt =====
-- Examples for the threads: the first one is inside, the second one meets it.
use sd_projeto.Base.{
  none, ℕ, suc, List, inr, ◌<◌, ◌≡◌, ◌≢◌, refl, ◌⊎◌, inl, pos, ◌+ℤ◌, ◌-ℤ◌, false, some, arith,
  length,
}
use sd_projeto.Mutex.{enter_read, enter_write}
use sd_projeto.Mutex.Threads.{
  System, reading, writing, asleep_read, asleep_write, call_read, call_write, go_on, place, step,
  start_state, Reach, start, next,
}
use sd_projeto.Mutex.Threads.Safety.{
  no_reader_beside_writer, one_writer, no_lost_wakeup, readers_overtake_writers,
}
use sd_projeto.Mutex.Threads.Progress.{go_on_all, insides, reader, inside_of, waiting_thread_enters}
use sd_projeto.Stats.Threads.{
  Counting, load_counter, store_counter, Counts, begins, steps, loads, stores, no_lost_update,
}

-- The first of three threads writes.
abbrev one_writes : System
one_writes = step (step (start_state 3) 0 call_write) 0 go_on

two_left : (s : System) → 3 ≡ length s.threads → (0 < length s.threads) × (1 < length s.threads)
two_left s e = (omega arith, omega arith)

one_writes_three : 3 ≡ length one_writes.threads
unfolding step enter_write
one_writes_three = refl

called : 0 < length (step (start_state 3) 0 call_write).threads
unfolding step
called = omega arith

one_writes_reached : Reach 3 one_writes
one_writes_reached = next (next start 0 call_write (omega arith)) 0 go_on called

it_writes : place one_writes 0 ≡ writing
unfolding step enter_write
it_writes = refl

no_reader_beside_writer_example : place one_writes 1 ≢ reading
no_reader_beside_writer_example =
    no_reader_beside_writer one_writes_reached 0 (two_left one_writes one_writes_three).0 1
      (two_left one_writes one_writes_three).1 it_writes

one_writer_example : place one_writes 1 ≢ writing
one_writer_example =
    one_writer one_writes_reached 0 (two_left one_writes one_writes_three).0 1
      (two_left one_writes one_writes_three).1 (λ e. omega arith) it_writes

-- The second thread has then tried to read, and sleeps.
abbrev one_sleeps : System
one_sleeps = step (step one_writes 1 call_read) 1 go_on

tries : 1 < length (step one_writes 1 call_read).threads
unfolding step enter_write
tries = omega arith

sleeps_lt : 1 < length one_sleeps.threads
unfolding step enter_write enter_read ◌-ℤ◌
sleeps_lt = omega arith

one_sleeps_reached : Reach 3 one_sleeps
one_sleeps_reached =
    next (next one_writes_reached 1 call_read (two_left one_writes one_writes_three).1) 1 go_on
      tries

it_sleeps : place one_sleeps 1 ≡ asleep_read
unfolding step enter_write enter_read ◌-ℤ◌
it_sleeps = refl

no_lost_wakeup_example :
    (j : ℕ) × (j < length one_sleeps.threads)
    × ((place one_sleeps j ≡ reading) ⊎ (place one_sleeps j ≡ writing))
no_lost_wakeup_example = no_lost_wakeup one_sleeps_reached 1 sleeps_lt (inl it_sleeps)

-- The first thread reads and the second sleeps before it writes; the third is let in.
abbrev one_waits_to_write : System
one_waits_to_write =
    step (step (step (step (start_state 3) 0 call_read) 0 go_on) 1 call_write) 1 go_on

read_called : 0 < length (step (start_state 3) 0 call_read).threads
unfolding step
read_called = omega arith

one_reads_lt : 1 < length (step (step (start_state 3) 0 call_read) 0 go_on).threads
unfolding step enter_read
one_reads_lt = omega arith

write_called :
    1 < length (step (step (step (start_state 3) 0 call_read) 0 go_on) 1 call_write).threads
unfolding step enter_read
write_called = omega arith

waiting_reached : Reach 3 one_waits_to_write
waiting_reached =
    next
      (next (next (next start 0 call_read (omega arith)) 0 go_on read_called) 1 call_write
        one_reads_lt)
      1 go_on write_called

it_waits : place one_waits_to_write 1 ≡ asleep_write
unfolding step enter_read enter_write ◌+ℤ◌
it_waits = refl

nobody_writes : one_waits_to_write.locks.writer_active ≡ false
unfolding step enter_read enter_write ◌+ℤ◌
nobody_writes = refl

readers_overtake_writers_example :
    enter_read one_waits_to_write.locks
    ≡ some (record one_waits_to_write.locks {
      readers_reading = one_waits_to_write.locks.readers_reading +ℤ pos 1;
    })
readers_overtake_writers_example = readers_overtake_writers waiting_reached nobody_writes

waiting_thread_enters_example :
    (js : List ℕ) × (place (go_on_all one_sleeps js) 1 ≡ inside_of reader)
    × (length js ≡ suc (insides one_sleeps))
waiting_thread_enters_example =
    waiting_thread_enters one_sleeps_reached reader 1 sleeps_lt (inr it_sleeps)

-- The first of three threads is inside and adds 2 to a counter that was 7.
Counts-inside :
    Counts 3 (pos 7) (record { system = one_writes; counter = pos 7; current = λ i. none }) (pos 7)
Counts-inside = steps (steps begins 0 call_write (omega arith) refl) 0 go_on called refl

abbrev has_read : Counting
has_read = load_counter (record { system = one_writes; counter = pos 7; current = λ i. none }) 0

has_read_7 : has_read.current 0 ≡ some (pos 7)
unfolding load_counter
has_read_7 = refl

no_lost_update_example : (store_counter has_read 0 (pos 7) (pos 2)).counter ≡ pos 7 +ℤ pos 2
no_lost_update_example = no_lost_update (
    stores (loads Counts-inside 0 (two_left one_writes one_writes_three).0 it_writes) 0 (pos 7)
      (pos 2) has_read_7)
