-- ===== src/NetworkServer/Failure.antt =====
-- What the creation of a thread does that fails.
use sd_projeto.Base.{
  ℕ, zero, suc, ◌≡◌, refl, ap, ℤ, true, false, List, [], ◌∷◌, none, ok, fault, ◌>>=◌, uninitialised,
  write, replicate,
}
use sd_projeto.NetworkServer.{
  Join, connection, Round, Event, close_socket, Slot, vacant_slot, n_threads, handle, keep,
  join_threads, find_vacant, accept_at, accept_into, after_joins, one_round, unless_error,
  all_rounds, end_threads, end_loop, network_main_loop,
}

-- a slot that is marked, and has no handle
abbrev marked : Slot
marked = record { active = true; thread = none }

join_threads-vacant :
    (tryjoin : ℤ → Join) (n : ℕ)
    → join_threads tryjoin (replicate n vacant_slot) ≡ ok ((replicate n vacant_slot, false), [])
unfolding join_threads vacant_slot keep
join_threads-vacant tryjoin zero = refl
join_threads-vacant tryjoin (suc n) = rw (join_threads-vacant tryjoin n) refl

one_round-uncreated :
    (tryjoin : ℤ → Join) (fd : ℤ) (n : ℕ)
    → one_round
        (record { tryjoin = tryjoin; accepted = connection fd false })
        (replicate (suc n) vacant_slot)
      ≡ ok ((marked ∷ replicate n vacant_slot, false), close_socket fd ∷ [])
unfolding one_round after_joins accept_into accept_at find_vacant write vacant_slot
one_round-uncreated tryjoin fd n = rw (join_threads-vacant tryjoin (suc n)) refl

n_threads-suc : n_threads ≡ suc 4999
unfolding n_threads
n_threads-suc = refl

-- Every way on from there reads the handle.
unless_error-marked :
    (rounds : List Round) (slots : List Slot) (log : List Event)
    → (unless_error (all_rounds rounds) ((marked ∷ slots, false), log) >>= end_loop)
      ≡ fault uninitialised
unfolding unless_error all_rounds one_round join_threads end_threads end_loop handle
unless_error-marked [] slots log = refl
unless_error-marked (round ∷ rounds) slots log = refl

all_rounds-uncreated :
    (tryjoin : ℤ → Join) (fd : ℤ) (rounds : List Round)
    → all_rounds
        (record { tryjoin = tryjoin; accepted = connection fd false } ∷ rounds)
        (replicate (suc 4999) vacant_slot)
      ≡ unless_error
          (all_rounds rounds)
          ((marked ∷ replicate 4999 vacant_slot, false), close_socket fd ∷ [])
unfolding all_rounds
all_rounds-uncreated tryjoin fd rounds =
    ap (λ r. r >>= unless_error (all_rounds rounds)) (one_round-uncreated tryjoin fd 4999)

-- If the creation of the thread fails for the connection accepted in the first round, the loop
-- reads a handle that nothing has set, whatever happens in the rounds that follow.
pub network_main_loop-uncreated :
    (tryjoin : ℤ → Join) (fd : ℤ) (rounds : List Round)
    → network_main_loop (record { tryjoin = tryjoin; accepted = connection fd false } ∷ rounds)
      ≡ fault uninitialised
unfolding network_main_loop
network_main_loop-uncreated tryjoin fd rounds =
    rw (n_threads-suc, all_rounds-uncreated tryjoin fd rounds)
      (unless_error-marked rounds (replicate 4999 vacant_slot) (close_socket fd ∷ []))
