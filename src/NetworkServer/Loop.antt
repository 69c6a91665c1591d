-- ===== src/NetworkServer/Loop.antt =====
-- The whole loop: each thread that was created is joined.
use sd_projeto.Base.{
  ℕ, zero, suc, ◌≡◌, refl, ℤ, pos, Bool, true, false, List, [], ◌∷◌, ◌++◌, Option, none, some, Run,
  ok, fault, ◌>>=◌, write, replicate, arith, if◌then◌else◌,
}
use sd_projeto.NetworkServer.{
  Accepted, would_block, refused, connection, Round, Event, Slot, vacant_slot, n_threads, handle,
  Joined, join_threads, find_vacant, accept_at, accept_into, after_joins, one_round, unless_error,
  all_rounds, end_slot, end_threads, end_loop, network_main_loop,
}
use sd_projeto.NetworkServer.Slots.{
  false-true, Succeeds, Succeeds-bind, creates, joins, count, count-append, running, Handled,
  Balanced, BalancedJoined, Balanced-trans, claimed, Claimed, join_threads-Balanced,
  write_vacant-Balanced,
}

-- Every creation of a thread succeeds.
abbrev pub Created : Accepted → Type 0
Created (connection fd false) = ⊥
Created _ = Unit

abbrev pub AllCreated : List Round → Type 0
AllCreated [] = Unit
AllCreated (round ∷ rounds) = Created round.accepted × AllCreated rounds

module _ (c : ℤ) where
  nothing-Balanced : (slots : List Slot) → Handled slots → Balanced c slots (slots, [])
  unfolding count
  nothing-Balanced slots h = (h, refl)

  accept_into-Balanced :
      (accepted : Accepted)
      → Created accepted
      → (slots : List Slot) → Handled slots
      → (vacant : Option ℕ) → find_vacant slots ≡ vacant
      → Succeeds (Balanced c slots) (accept_into vacant accepted slots)
  unfolding accept_into accept_at
  accept_into-Balanced accepted k slots h none e = nothing-Balanced slots h
  accept_into-Balanced would_block k slots h (some i) e = nothing-Balanced slots h
  accept_into-Balanced refused k slots h (some i) e = nothing-Balanced slots h
  accept_into-Balanced (connection fd true) k slots h (some i) e =
      Succeeds-bind (Claimed c fd slots) (Balanced c slots) _ (write slots i (claimed c fd))
        (write_vacant-Balanced c fd slots h i e) (λ slots' b. b)
  accept_into-Balanced (connection fd false) k slots h (some i) e = absurd k

  after_joins-Balanced :
      (accepted : Accepted)
      → Created accepted
      → (slots : List Slot) (j : Joined) → BalancedJoined c slots j
      → Succeeds (BalancedJoined c slots) (after_joins accepted j)
  unfolding after_joins
  after_joins-Balanced accepted k slots ((slots', true), log) b = b
  after_joins-Balanced accepted k slots ((slots', false), log) b =
      Succeeds-bind (Balanced c slots') (BalancedJoined c slots) _
        (accept_into (find_vacant slots') accepted slots')
        (accept_into-Balanced accepted k slots' b.0 (find_vacant slots') refl)
        (λ end more. Balanced-trans c slots slots' log end b more)

  one_round-Balanced :
      (round : Round)
      → Created round.accepted
      → (slots : List Slot) → Handled slots
      → Succeeds (BalancedJoined c slots) (one_round round slots)
  unfolding one_round
  one_round-Balanced round k slots h =
      Succeeds-bind (BalancedJoined c slots) (BalancedJoined c slots) _
        (join_threads round.tryjoin slots) (join_threads-Balanced c round.tryjoin slots h)
        (after_joins-Balanced round.accepted k slots)

  unless_error-Balanced :
      (next : List Slot → Run (List Slot × List Event))
      → ((slots : List Slot) → Handled slots → Succeeds (Balanced c slots) (next slots))
      → (slots : List Slot) (j : Joined) → BalancedJoined c slots j
      → Succeeds (Balanced c slots) (unless_error next j)
  unfolding unless_error
  unless_error-Balanced next ih slots ((slots', true), log) b = b
  unless_error-Balanced next ih slots ((slots', false), log) b =
      Succeeds-bind (Balanced c slots') (Balanced c slots) _ (next slots') (ih slots' b.0)
        (λ end more. Balanced-trans c slots slots' log end b more)

  all_rounds-Balanced :
      (rounds : List Round)
      → AllCreated rounds
      → (slots : List Slot) → Handled slots
      → Succeeds (Balanced c slots) (all_rounds rounds slots)
  unfolding all_rounds
  all_rounds-Balanced [] k slots h = nothing-Balanced slots h
  all_rounds-Balanced (round ∷ rounds) k slots h =
      Succeeds-bind (BalancedJoined c slots) (Balanced c slots) _ (one_round round slots)
        (one_round-Balanced round k.0 slots h)
        (unless_error-Balanced (all_rounds rounds) (all_rounds-Balanced rounds k.1) slots)

  -- The calls at the end join what runs, and create nothing.
  abbrev Ended : List Slot → List Event → Type 0
  Ended slots log = (count (creates c) log ≡ 0) × (count (joins c) log ≡ running c slots)

  end_slot-Ended :
      (active : Bool) (thread : Option ℤ) (slots : List Slot)
      → Handled (record { active = active; thread = thread } ∷ slots)
      → (rest : Run (List Event)) → Succeeds (Ended slots) rest
      → Succeeds
          (Ended (record { active = active; thread = thread } ∷ slots))
          (if active then handle thread >>= end_slot rest else rest)
  unfolding handle end_slot running count
  end_slot-Ended true none slots h rest b = absurd (false-true (h.0 refl))
  end_slot-Ended true (some fd) slots h (ok log) b = (omega arith, omega arith)
  end_slot-Ended true (some fd) slots h (fault e) b = b
  end_slot-Ended false thread slots h (ok log) b = (b.0, omega arith)
  end_slot-Ended false thread slots h (fault e) b = b

  end_threads-Ended :
      (slots : List Slot) → Handled slots → Succeeds (Ended slots) (end_threads slots)
  unfolding end_threads count running
  end_threads-Ended [] h = (refl, refl)
  end_threads-Ended (slot ∷ slots) h =
      end_slot-Ended slot.active slot.thread slots h (end_threads slots)
        (end_threads-Ended slots h.1)

  vacant-Handled : (n : ℕ) → Handled (replicate n vacant_slot)
  unfolding vacant_slot
  vacant-Handled zero = tt
  vacant-Handled (suc n) = ((λ e. absurd (false-true e)), vacant-Handled n)

  vacant-running : (n : ℕ) → running c (replicate n vacant_slot) ≡ 0
  unfolding vacant_slot running
  vacant-running zero = refl
  vacant-running (suc n) = rw (vacant-running n) refl

  abbrev AllJoined : ℤ × List Event → Type 0
  AllJoined (ret, log) = (ret ≡ pos 0) × (count (creates c) log ≡ count (joins c) log)

  main_loop-AllJoined :
      (rounds : List Round) → AllCreated rounds → Succeeds AllJoined (network_main_loop rounds)
  unfolding network_main_loop end_loop
  main_loop-AllJoined rounds k =
      Succeeds-bind (Balanced c start) AllJoined _ (all_rounds rounds start)
        (all_rounds-Balanced rounds k start (vacant-Handled n_threads))
        (λ (slots, log) b.
          Succeeds-bind (Ended slots) AllJoined _ (end_threads slots) (end_threads-Ended slots b.0)
            (λ more e. (refl, sums slots log more b e)))
    where
      start : List Slot
      start = replicate n_threads vacant_slot

      sums :
          (slots : List Slot) (log more : List Event)
          → Balanced c start (slots, log)
          → Ended slots more
          → count (creates c) (log ++ more) ≡ count (joins c) (log ++ more)
      sums slots log more b e =
          let none_runs = vacant-running n_threads in
          rw (count-append (creates c) log more, count-append (joins c) log more) (omega arith)

Succeeds-value {ℓ} :
    {A : Type ℓ} (P : A → Type 0) (m : Run A) → Succeeds P m → (a : A) × (m ≡ ok a) × P a
Succeeds-value P (ok a) h = (a, refl, h)
Succeeds-value P (fault e) h = absurd h

-- For every sequence of rounds in which every creation of a thread succeeds, the loop of the
-- server ends without a fault and with 0, also after a failed pthread_tryjoin_np, where its
-- documentation has -1, and for each descriptor it has joined as many threads as it has created.
pub network_main_loop-joins :
    (rounds : List Round)
    → AllCreated rounds
    → (c : ℤ)
    → (r : ℤ × List Event) × (network_main_loop rounds ≡ ok r)
      × ((r.0 ≡ pos 0) × (count (creates c) r.1 ≡ count (joins c) r.1))
network_main_loop-joins rounds k c =
    Succeeds-value (AllJoined c) (network_main_loop rounds) (main_loop-AllJoined c rounds k)
