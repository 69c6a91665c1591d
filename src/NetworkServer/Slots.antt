-- ===== src/NetworkServer/Slots.antt =====
-- The threads in the slots: each thread that was created is joined.
use sd_projeto.Base.{
  ℕ, zero, suc, ◌+◌, ◌≡◌, refl, ℤ, ◌==ℤ◌, Bool, true, false, List, [], ◌∷◌, ◌++◌, Option, none,
  some, is_some, Run, ok, fault, ◌>>=◌, write, arith, if◌then◌else◌,
}
use mathlib.Core.Option
use sd_projeto.NetworkServer.{
  Join, done, busy, failed, Event, create_thread, join_thread, Slot, handle, Joined, keep, log_join,
  try_slot, join_threads, find_vacant,
}

pub false-true : false ≡ true → ⊥
false-true e = ground arith

-- the run has a value, and this holds of it
abbrev pub Succeeds {ℓ} : {A : Type ℓ} → (A → Type 0) → Run A → Type 0
Succeeds P (ok a) = P a
Succeeds P (fault e) = ⊥

pub Succeeds-bind {ℓ κ} :
    {A : Type ℓ} {B : Type κ} (P : A → Type 0) (Q : B → Type 0) (f : A → Run B) (m : Run A)
    → Succeeds P m
    → ((a : A) → P a → Succeeds Q (f a))
    → Succeeds Q (m >>= f)
Succeeds-bind P Q f (ok a) h k = k a h
Succeeds-bind P Q f (fault e) h k = absurd h

-- The event starts, or ends, the thread of this connection.
abbrev pub creates : ℤ → Event → Bool
creates c (create_thread fd) = fd ==ℤ c
creates c _ = false

abbrev pub joins : ℤ → Event → Bool
joins c (join_thread fd) = fd ==ℤ c
joins c _ = false

unfoldable pub count : (Event → Bool) → List Event → ℕ
count p [] = 0
count p (e ∷ es) = (if p e then 1 else 0) + count p es

pub count-append :
    (p : Event → Bool) (es fs : List Event) → count p (es ++ fs) ≡ count p es + count p fs
unfolding count
count-append p [] fs = omega arith
count-append p (e ∷ es) fs = rw (count-append p es fs) (omega arith)

abbrev holds : ℤ → Option ℤ → Bool
holds c none = false
holds c (some fd) = fd ==ℤ c

-- how many active slots have the thread
unfoldable pub running : ℤ → List Slot → ℕ
running c [] = 0
running c (slot ∷ slots) =
    (if slot.active then if holds c slot.thread then 1 else 0 else 0) + running c slots

-- each active slot has a handle
abbrev pub Handled : List Slot → Type 0
Handled [] = Unit
Handled (slot ∷ slots) = (slot.active ≡ true → is_some slot.thread ≡ true) × Handled slots

module _ (c : ℤ) where
  -- What holds from `slots` on, of the calls and what they left.
  abbrev pub Balanced : List Slot → List Slot × List Event → Type 0
  Balanced slots (slots', log) =
      Handled slots'
      × (running c slots + count (creates c) log ≡ running c slots' + count (joins c) log)

  abbrev pub BalancedJoined : List Slot → Joined → Type 0
  BalancedJoined slots ((slots', server_error), log) = Balanced slots (slots', log)

  keep-Balanced :
      (slot : Slot) (slots : List Slot)
      → Handled (slot ∷ slots)
      → (rest : Run Joined) → Succeeds (BalancedJoined slots) rest
      → Succeeds (BalancedJoined (slot ∷ slots)) (rest >>= keep slot)
  unfolding keep running
  keep-Balanced slot slots h (ok ((slots', e), log)) (hs, b) = ((h.0, hs), omega arith)
  keep-Balanced slot slots h (fault e) b = b

  done-Balanced :
      (fd : ℤ) (slots : List Slot) (rest : Run Joined)
      → Succeeds (BalancedJoined slots) rest
      → Succeeds
          (BalancedJoined (record { active = true; thread = some fd } ∷ slots))
          (rest >>= keep (record { active = false; thread = some fd }) >>= log_join fd)
  unfolding keep log_join running count
  done-Balanced fd slots (ok ((slots', e), log)) (hs, b) =
      ((λ e. absurd (false-true e), hs), omega arith)
  done-Balanced fd slots (fault e) b = b

  failed_join-Balanced :
      (slots : List Slot) → Handled slots → BalancedJoined slots ((slots, true), [])
  unfolding count
  failed_join-Balanced slots h = (h, refl)

  try_slot-Balanced :
      (join : Join) (fd : ℤ) (slots : List Slot)
      → Handled slots
      → (rest : Run Joined) → Succeeds (BalancedJoined slots) rest
      → Succeeds
          (BalancedJoined (record { active = true; thread = some fd } ∷ slots))
          (try_slot join fd (record { active = true; thread = some fd }) slots rest)
  unfolding try_slot
  try_slot-Balanced done fd slots hs rest b = done-Balanced fd slots rest b
  try_slot-Balanced busy fd slots hs rest b =
      keep-Balanced (record { active = true; thread = some fd }) slots ((λ e. refl), hs) rest b
  try_slot-Balanced failed fd slots hs rest b =
      failed_join-Balanced (record { active = true; thread = some fd } ∷ slots) ((λ e. refl), hs)

  join_slot-Balanced :
      (tryjoin : ℤ → Join) (active : Bool) (thread : Option ℤ) (slots : List Slot)
      → Handled (record { active = active; thread = thread } ∷ slots)
      → (rest : Run Joined) → Succeeds (BalancedJoined slots) rest
      → Succeeds (BalancedJoined (record { active = active; thread = thread } ∷ slots)) (
          if active
          then handle thread >>= (λ fd.
            try_slot (tryjoin fd) fd (record { active = active; thread = thread }) slots rest)
          else rest >>= keep (record { active = active; thread = thread }))
  unfolding handle
  join_slot-Balanced tryjoin true none slots h rest b = absurd (false-true (h.0 refl))
  join_slot-Balanced tryjoin true (some fd) slots h rest b =
      try_slot-Balanced (tryjoin fd) fd slots h.1 rest b
  join_slot-Balanced tryjoin false thread slots h rest b =
      keep-Balanced (record { active = false; thread = thread }) slots h rest b

  pub join_threads-Balanced :
      (tryjoin : ℤ → Join) (slots : List Slot)
      → Handled slots
      → Succeeds (BalancedJoined slots) (join_threads tryjoin slots)
  unfolding join_threads count
  join_threads-Balanced tryjoin [] h = (h, refl)
  join_threads-Balanced tryjoin (slot ∷ slots) h =
      join_slot-Balanced tryjoin slot.active slot.thread slots h (join_threads tryjoin slots)
        (join_threads-Balanced tryjoin slots h.1)

  abbrev pub claimed : ℤ → Slot
  claimed fd = record { active = true; thread = some fd }

  abbrev pub Claimed : ℤ → List Slot → List Slot → Type 0
  Claimed fd slots slots' = Balanced slots (slots', create_thread fd ∷ [])

  write_rest-Balanced :
      (fd : ℤ) (slot : Slot) (slots : List Slot)
      → Handled (slot ∷ slots)
      → (rest : Run (List Slot)) → Succeeds (Claimed fd slots) rest
      → Succeeds (Claimed fd (slot ∷ slots)) (rest >>= λ slots'. ok (slot ∷ slots'))
  unfolding running count
  write_rest-Balanced fd slot slots h (ok slots') (hs, b) = ((h.0, hs), omega arith)
  write_rest-Balanced fd slot slots h (fault e) b = b

  write_slot-Balanced :
      (fd : ℤ) (active : Bool) (thread : Option ℤ) (slots : List Slot)
      → Handled (record { active = active; thread = thread } ∷ slots)
      → (vacant : Option ℕ)
      → ((i : ℕ) → vacant ≡ some i → Succeeds (Claimed fd slots) (write slots i (claimed fd)))
      → (i : ℕ) → (if active then Option.map suc vacant else some 0) ≡ some i
      → Succeeds
          (Claimed fd (record { active = active; thread = thread } ∷ slots))
          (write (record { active = active; thread = thread } ∷ slots) i (claimed fd))
  unfolding write running count
  write_slot-Balanced fd true thread slots h none ih i e = absurd (ground arith)
  write_slot-Balanced fd true thread slots h (some vacant) ih zero e = absurd (ground arith)
  write_slot-Balanced fd true thread slots h (some vacant) ih (suc i) e =
      write_rest-Balanced fd (record { active = true; thread = thread }) slots h
        (write slots i (claimed fd)) (ih i (grind arith))
  write_slot-Balanced fd false thread slots h vacant ih zero e = (((λ f. refl), h.1), omega arith)
  write_slot-Balanced fd false thread slots h vacant ih (suc i) e = absurd (ground arith)

  pub write_vacant-Balanced :
      (fd : ℤ) (slots : List Slot)
      → Handled slots
      → (i : ℕ) → find_vacant slots ≡ some i
      → Succeeds (Claimed fd slots) (write slots i (claimed fd))
  unfolding find_vacant
  write_vacant-Balanced fd [] h i e = absurd (ground arith)
  write_vacant-Balanced fd (slot ∷ slots) h i e =
      write_slot-Balanced fd slot.active slot.thread slots h (find_vacant slots)
        (write_vacant-Balanced fd slots h.1) i e

  pub Balanced-trans :
      (slots slots' : List Slot) (log : List Event) (end : List Slot × List Event)
      → Balanced slots (slots', log)
      → Balanced slots' end
      → Balanced slots (end.0, log ++ end.1)
  Balanced-trans slots slots' log (end, more) a b =
      (b.0, rw (count-append (creates c) log more, count-append (joins c) log more) (omega arith))
