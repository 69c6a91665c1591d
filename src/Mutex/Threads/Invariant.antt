-- ===== src/Mutex/Threads/Invariant.antt =====
-- What the fields of the lock say about the threads; true at the start and kept by every step.
use sd_projeto.Base.{
  ℕ, ◌+◌, ◌<◌, ◌≡◌, refl, ap, ◌⊎◌, pos, pos_part, ◌+ℤ◌, ◌-ℤ◌, true, map, arith, length, set,
  if◌then◌else◌,
}
use sd_projeto.Mutex.{enter_read, exit_read, enter_write, exit_write}
use sd_projeto.Mutex.Threads.{
  Place, outside, wants_read, wants_write, asleep_read, asleep_write, reading, writing, System,
  wake, Action, call_read, call_write, wake_up, go_on, move, enter, leave, act, place, step,
  start_state, Reach, start, next,
}
use sd_projeto.Mutex.Threads.Totals.{total, total-set, total-replicate, total-wake, total-wake_zero}

abbrev pub reads : Place → ℕ
reads reading = 1
reads _ = 0

abbrev pub writes : Place → ℕ
writes writing = 1
writes _ = 0

abbrev pub waits_read : Place → ℕ
waits_read asleep_read = 1
waits_read _ = 0

abbrev pub waits_write : Place → ℕ
waits_write asleep_write = 1
waits_write _ = 0

pub record Inv (s : System) : Type 0 where
  pub readers : s.locks.readers_reading ≡ pos (total reads s.threads)
  pub writers : total writes s.threads ≡ (if s.locks.writer_active then 1 else 0)
  pub excluded : s.locks.writer_active ≡ true → total reads s.threads ≡ 0
  pub unwaited : pos_part s.locks.writers_waiting ≡ 0
  pub asleep_readers : 0 < total waits_read s.threads → s.locks.writer_active ≡ true
  pub asleep_writers :
      0 < total waits_write s.threads → (s.locks.writer_active ≡ true) ⊎ (0 < total reads s.threads)

Inv-start : (n : ℕ) → Inv (start_state n)
Inv-start n =
    let r = total-replicate reads n refl in
    let w = total-replicate writes n refl in
    let rs = total-replicate waits_read n refl in
    let ws = total-replicate waits_write n refl in
    record {
      readers = rw r;
      writers = w;
      excluded = λ e. r;
      unwaited = refl;
      asleep_readers = λ h. absurd (omega arith);
      asleep_writers = λ h. absurd (omega arith);
    }

module _ (s : System) (i : ℕ) (lt : i < length s.threads) (inv : Inv s) where
  -- the sums when thread `i` goes to the place `p`
  record Sums (p : Place) : Type 0 where
    of_reads : total reads (set s.threads i p) + reads (place s i) ≡ total reads s.threads + reads p
    of_writes :
        total writes (set s.threads i p) + writes (place s i) ≡ total writes s.threads + writes p
    of_waits_read :
        total waits_read (set s.threads i p) + waits_read (place s i)
        ≡ total waits_read s.threads + waits_read p
    of_waits_write :
        total waits_write (set s.threads i p) + waits_write (place s i)
        ≡ total waits_write s.threads + waits_write p

  sums : (p : Place) → Sums p
  sums p = record {
    of_reads = total-set reads s.threads i p lt;
    of_writes = total-set writes s.threads i p lt;
    of_waits_read = total-set waits_read s.threads i p lt;
    of_waits_write = total-set waits_write s.threads i p lt;
  }

  -- the sums after a broadcast
  record Woken (p : Place) : Type 0 where
    of_reads : total reads (map wake (set s.threads i p)) ≡ total reads (set s.threads i p)
    of_writes : total writes (map wake (set s.threads i p)) ≡ total writes (set s.threads i p)
    of_waits_read : total waits_read (map wake (set s.threads i p)) ≡ 0
    of_waits_write : total waits_write (map wake (set s.threads i p)) ≡ 0

  woken : (p : Place) → Woken p
  unfolding wake
  woken p = record {
    of_reads = total-wake reads (set s.threads i p) (λ q. ground arith);
    of_writes = total-wake writes (set s.threads i p) (λ q. ground arith);
    of_waits_read = total-wake_zero waits_read (set s.threads i p) (λ q. ground arith);
    of_waits_write = total-wake_zero waits_write (set s.threads i p) (λ q. ground arith);
  }

  -- A move that neither enters, nor leaves, nor falls asleep.
  move-Inv :
      (q : Place)
      → reads (place s i) ≡ reads q
      → writes (place s i) ≡ writes q
      → waits_read q ≡ 0
      → waits_write q ≡ 0
      → Sums q
      → Inv (move s i q)
  unfolding move
  move-Inv q r w wr ww m = ground arith

  enter_read-Inv :
      place s i ≡ wants_read
      → Sums reading
      → Sums asleep_read
      → Inv (enter s i (enter_read s.locks) reading asleep_read)
  unfolding enter enter_read move ◌+ℤ◌
  enter_read-Inv e m a = ground arith

  enter_write-Inv :
      place s i ≡ wants_write
      → Sums writing
      → Sums asleep_write
      → Inv (enter s i (enter_write s.locks) writing asleep_write)
  unfolding enter enter_write move ◌-ℤ◌
  enter_write-Inv e m a = ground arith

  exit_read-Inv :
      place s i ≡ reading → Sums outside → Woken outside → Inv (leave s i (exit_read s.locks))
  unfolding leave exit_read ◌-ℤ◌
  exit_read-Inv e m a = ground arith

  exit_write-Inv :
      place s i ≡ writing → Sums outside → Woken outside → Inv (leave s i (exit_write s.locks))
  unfolding leave exit_write
  exit_write-Inv e m a = ground arith

  act-Inv : (a : Action) (p : Place) → place s i ≡ p → Inv (act s i a p)
  unfolding act
  act-Inv call_read outside e =
      move-Inv wants_read (ap reads e) (ap writes e) refl refl (sums wants_read)
  act-Inv call_write outside e =
      move-Inv wants_write (ap reads e) (ap writes e) refl refl (sums wants_write)
  act-Inv wake_up asleep_read e =
      move-Inv wants_read (ap reads e) (ap writes e) refl refl (sums wants_read)
  act-Inv wake_up asleep_write e =
      move-Inv wants_write (ap reads e) (ap writes e) refl refl (sums wants_write)
  act-Inv go_on wants_read e = enter_read-Inv e (sums reading) (sums asleep_read)
  act-Inv go_on wants_write e = enter_write-Inv e (sums writing) (sums asleep_write)
  act-Inv go_on reading e = exit_read-Inv e (sums outside) (woken outside)
  act-Inv go_on writing e = exit_write-Inv e (sums outside) (woken outside)
  act-Inv _ _ e = inv

-- Every step of a thread keeps the invariant that ties the fields of the lock to the places of the
-- threads.
pub step-Inv : (s : System) (i : ℕ) (a : Action) → i < length s.threads → Inv s → Inv (step s i a)
step-Inv s i a lt inv = unfold step in act-Inv s i lt inv a (place s i) refl

pub Reach-Inv : {n : ℕ} {s : System} → Reach n s → Inv s
Reach-Inv {n} start = Inv-start n
Reach-Inv (next {s} r i a lt) = step-Inv s i a lt (Reach-Inv r)
