-- ===== src/Mutex/Threads/Progress.antt =====
-- From every reachable state some schedule lets a waiting thread in: those that are inside leave, and
-- then it goes on.
use mathlib.Core.Path.{subst}
use sd_projeto.Base.{
  ℕ, zero, suc, ◌+◌, ◌<◌, ◌≡◌, ◌≢◌, refl, ◌∙◌, sym, ap, ◌⊎◌, inl, inr, pos, Option, none, some,
  is_some, Bool-cases, Bool, true, false, List, [], ◌∷◌, map, arith, length, length-map, length-set,
  get_or-set, set, get_or,
}
use sd_projeto.Mutex.{Locks, enter_read, exit_read, enter_write, exit_write}
use sd_projeto.Mutex.Threads.{
  Place, outside, wants_read, wants_write, asleep_read, asleep_write, reading, writing, System,
  wake, go_on, enter, leave, act, place, step, Reach,
}
use sd_projeto.Mutex.Threads.Totals.{total, total-set, total-wake, le-total}
use sd_projeto.Mutex.Threads.Invariant.{
  reads, writes, waits_read, waits_write, Inv, Reach-Inv, step-Inv,
}
use sd_projeto.Mutex.Threads.Safety.{someone_inside}

-- These threads go on, one after the other.
pub go_on_all : System → List ℕ → System
go_on_all s [] = s
go_on_all s (j ∷ js) = go_on_all (step s j go_on) js

-- how many threads are inside
pub insides : System → ℕ
insides s = total reads s.threads + total writes s.threads

pub data Kind : Type 0 where
  reader writer : Kind

abbrev pub inside_of : Kind → Place
inside_of reader = reading
inside_of writer = writing

-- The thread is before the test, or asleep.
abbrev pub Waits : Kind → Place → Type 0
Waits reader p = (p ≡ wants_read) ⊎ (p ≡ asleep_read)
Waits writer p = (p ≡ wants_write) ⊎ (p ≡ asleep_write)

abbrev IsInside : Place → Type 0
IsInside p = (p ≡ reading) ⊎ (p ≡ writing)

wake-Waits : (k : Kind) (p : Place) → Waits k p → Waits k (wake p)
unfolding wake
wake-Waits reader p (inl e) = inl (rw e refl)
wake-Waits reader p (inr e) = inl (rw e refl)
wake-Waits writer p (inl e) = inl (rw e refl)
wake-Waits writer p (inr e) = inl (rw e refl)

Waits-not_inside : (k : Kind) (p : Place) → Waits k p → IsInside p → ⊥
Waits-not_inside reader p w h = ground arith
Waits-not_inside writer p w h = ground arith

get_or-wake :
    (ps : List Place) (i : ℕ) → get_or (map wake ps) i outside ≡ wake (get_or ps i outside)
unfolding wake
get_or-wake [] i = refl
get_or-wake (p ∷ ps) zero = refl
get_or-wake (p ∷ ps) (suc i) = get_or-wake ps i

reads-wake : (p : Place) → reads (wake p) ≡ reads p
unfolding wake
reads-wake p = ground arith

writes-wake : (p : Place) → writes (wake p) ≡ writes p
unfolding wake
writes-wake p = ground arith

module _ (s : System) (j : ℕ) (lt : j < length s.threads) (locks : Locks) where
  leave-insides : (b : Bool) → IsInside (place s j) → insides (leave s j (locks, b)) + 1 ≡ insides s
  unfolding leave insides
  leave-insides false h =
      ground
        (arith, total-set reads s.threads j outside lt, total-set writes s.threads j outside lt)
  leave-insides true h = ground (
    arith,
    total-set reads s.threads j outside lt,
    total-set writes s.threads j outside lt,
    total-wake reads (set s.threads j outside) reads-wake,
    total-wake writes (set s.threads j outside) writes-wake,
  )

  leave-length : (b : Bool) → length (leave s j (locks, b)).threads ≡ length s.threads
  unfolding leave
  leave-length false = length-set s.threads j outside
  leave-length true = length-map wake (set s.threads j outside) ∙ length-set s.threads j outside

  module _ (k : Kind) (i : ℕ) (ne : j ≢ i) where
    same_place : get_or (set s.threads j outside) i outside ≡ place s i
    same_place = ground (arith, get_or-set s.threads j i outside outside lt)

    leave-Waits : (b : Bool) → Waits k (place s i) → Waits k (place (leave s j (locks, b)) i)
    unfolding leave
    leave-Waits false w = subst (Waits k) (sym same_place) w
    leave-Waits true w =
        subst (Waits k) (sym (get_or-wake (set s.threads j outside) i ∙ ap wake same_place))
          (wake-Waits k (place s i) w)

step-leave :
    (s : System) (j : ℕ)
    → IsInside (place s j)
    → (locks : Locks) × (b : Bool) × (step s j go_on ≡ leave s j (locks, b))
unfolding step act
step-leave s j (inl e) = ((exit_read s.locks).0, (exit_read s.locks).1, ap (act s j go_on) e)
step-leave s j (inr e) = ((exit_write s.locks).0, (exit_write s.locks).1, ap (act s j go_on) e)

active_of :
    (s : System)
    → Inv s
    → 0 < insides s
    → (s.locks.writer_active ≡ true) ⊎ (0 < total reads s.threads)
unfolding insides
active_of s inv h = elim (Bool-cases s.locks.writer_active) [
  | inl e ↦ inl e
  | inr e ↦ inr (ground (arith, e, inv.writers))
]

inactive_of : (s : System) → Inv s → insides s ≡ 0 → s.locks.writer_active ≡ false
unfolding insides
inactive_of s inv empty = ground (arith, inv.writers)

no_readers_of : (s : System) → Inv s → insides s ≡ 0 → s.locks.readers_reading ≡ pos 0
unfolding insides
no_readers_of s inv empty = inv.readers ∙ ap pos (omega arith)

get_or-set_here :
    (ps : List Place) (i : ℕ) (p : Place) → i < length ps → get_or (set ps i p) i outside ≡ p
get_or-set_here ps i p lt = ground (arith, get_or-set ps i i p outside lt)

enters :
    (s : System) (i : ℕ) (o : Option Locks) (inside asleep : Place)
    → is_some o ≡ true
    → i < length s.threads
    → place (enter s i o inside asleep) i ≡ inside
unfolding enter
enters s i none inside asleep h lt = cc
enters s i (some locks) inside asleep h lt = get_or-set_here s.threads i inside lt

-- When nobody is inside, a waiting thread is before the test, and passes it.
lets_in_now :
    (s : System)
    → Inv s
    → insides s ≡ 0
    → (k : Kind) (i : ℕ) → i < length s.threads
    → Waits k (place s i)
    → place (step s i go_on) i ≡ inside_of k
unfolding step act insides
lets_in_now s inv empty reader i lt (inl e) =
    ap (λ p. place (act s i go_on p) i) e
    ∙ enters s i (enter_read s.locks) reading asleep_read
        (unfold enter_read in ground (arith, inactive_of s inv empty, inv.unwaited)) lt
lets_in_now s inv empty reader i lt (inr e) = absurd (
    ground (
      arith,
      inactive_of s inv empty,
      inv.asleep_readers (ground (arith, le-total waits_read s.threads i lt)),
    ))
lets_in_now s inv empty writer i lt (inl e) =
    ap (λ p. place (act s i go_on p) i) e
    ∙ enters s i (enter_write s.locks) writing asleep_write
        (unfold enter_write in ground (arith, inactive_of s inv empty, no_readers_of s inv empty))
        lt
lets_in_now s inv empty writer i lt (inr e) = absurd (
    ground (
      arith,
      inactive_of s inv empty,
      inv.asleep_writers (ground (arith, le-total waits_write s.threads i lt)),
    ))

lets_in :
    (k : Kind) (i n : ℕ) (s : System)
    → Inv s
    → insides s ≡ n
    → i < length s.threads
    → Waits k (place s i)
    → (js : List ℕ) × (place (go_on_all s js) i ≡ inside_of k) × (length js ≡ suc n)
unfolding go_on_all
lets_in k i zero s inv e lt w = (i ∷ [], lets_in_now s inv e k i lt w, refl)
lets_in k i (suc n) s inv e lt w =
    let (j, lt', h) = someone_inside s (active_of s inv (omega arith)) inv.writers in
    let (locks, b, steps) = step-leave s j h in
    let ne = λ (same : j ≡ i).
      Waits-not_inside k (place s i) w (subst (λ q. IsInside (place s q)) same h) in
    let left = leave s j (locks, b) in
    let inv' = subst Inv steps (step-Inv s j go_on lt' inv) in
    let (js, gets, len) =
      lets_in k i n left inv' (omega (arith, leave-insides s j lt' locks b h))
        (rw (leave-length s j lt' locks b) lt) (leave-Waits s j lt' locks k i ne b w) in
    (j ∷ js, ap (λ q. place (go_on_all q js) i) steps ∙ gets, ap suc len)

-- In every reachable state in which a thread waits to read or to write, asleep or before its test,
-- some threads that go on one after the other, one more than there are threads inside, let it in.
pub waiting_thread_enters :
    {n : ℕ} {s : System}
    → Reach n s
    → (k : Kind) (i : ℕ) → i < length s.threads
    → Waits k (place s i)
    → (js : List ℕ) × (place (go_on_all s js) i ≡ inside_of k) × (length js ≡ suc (insides s))
waiting_thread_enters {s} r k i lt w = lets_in k i (insides s) s (Reach-Inv r) refl lt w
