-- ===== src/Mutex/Threads/Others.antt =====
-- A step of one thread leaves another one that writes where it is.
use sd_projeto.Base.{
  ℕ, zero, suc, ◌<◌, ◌≡◌, ◌≢◌, ◌∙◌, refl, ap, Bool, true, false, List, [], ◌∷◌, map, Option, none,
  some, arith, length, length-set, length-map, set, get_or, get_or-set,
}
use sd_projeto.Mutex.{Locks, enter_read, exit_read, enter_write, exit_write}
use sd_projeto.Mutex.Threads.{
  Place, outside, wants_read, wants_write, asleep_read, asleep_write, reading, writing, System,
  wake, Action, call_read, call_write, wake_up, go_on, move, enter, leave, act, place, step,
}

wake-stays :
    (ps : List Place) (j : ℕ)
    → get_or ps j outside ≡ writing
    → get_or (map wake ps) j outside ≡ writing
unfolding wake
wake-stays [] j h = h
wake-stays (p ∷ ps) zero h = ap wake h
wake-stays (p ∷ ps) (suc j) h = wake-stays ps j h

-- The number of threads is kept, and the thread `j` still writes.
abbrev Stays : System → ℕ → System → Type 0
Stays s j s' = (length s'.threads ≡ length s.threads) × (place s' j ≡ writing)

module _ (s : System) (i j : ℕ) (lt : i < length s.threads) (ne : i ≢ j)
    (h : place s j ≡ writing) where
  set-stays : (p : Place) → get_or (set s.threads i p) j outside ≡ writing
  set-stays p = ground (arith, get_or-set s.threads i j p outside lt)

  move-Stays : (p : Place) → Stays s j (move s i p)
  unfolding move
  move-Stays p = (length-set s.threads i p, set-stays p)

  enter-Stays : (o : Option Locks) (inside asleep : Place) → Stays s j (enter s i o inside asleep)
  unfolding enter move
  enter-Stays none inside asleep = move-Stays asleep
  enter-Stays (some locks) inside asleep = move-Stays inside

  leave-Stays : (locks : Locks) (b : Bool) → Stays s j (leave s i (locks, b))
  unfolding leave move
  leave-Stays locks false = move-Stays outside
  leave-Stays locks true = (
    length-map wake (set s.threads i outside) ∙ length-set s.threads i outside,
    wake-stays (set s.threads i outside) j (set-stays outside),
  )

  act-Stays : (a : Action) (p : Place) → Stays s j (act s i a p)
  unfolding act
  act-Stays call_read outside = move-Stays wants_read
  act-Stays call_read _ = (refl, h)
  act-Stays call_write outside = move-Stays wants_write
  act-Stays call_write _ = (refl, h)
  act-Stays wake_up asleep_read = move-Stays wants_read
  act-Stays wake_up asleep_write = move-Stays wants_write
  act-Stays wake_up _ = (refl, h)
  act-Stays go_on wants_read = enter-Stays (enter_read s.locks) reading asleep_read
  act-Stays go_on wants_write = enter-Stays (enter_write s.locks) writing asleep_write
  act-Stays go_on reading = leave-Stays (exit_read s.locks).0 (exit_read s.locks).1
  act-Stays go_on writing = leave-Stays (exit_write s.locks).0 (exit_write s.locks).1
  act-Stays go_on _ = (refl, h)

  pub step-Stays :
      (a : Action)
      → (length (step s i a).threads ≡ length s.threads) × (place (step s i a) j ≡ writing)
  unfolding step
  step-Stays a = act-Stays a (place s i)
