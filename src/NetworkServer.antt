-- ===== src/NetworkServer.antt =====
-- source/network_server.c: the socket that listens, and the loop that accepts connections and starts
-- a thread for each. What the system does in a round of the loop is an argument.
pub mod Slots
pub mod Loop
pub mod Failure
use sd_projeto.Base.{
  ℕ, zero, suc, ◌+◌, ℤ, pos, minus_one, ltb_ℤ, ◌==ℤ◌, Bool, true, false, List, [], ◌∷◌, ◌++◌,
  Option, none, some, Run, ok, fault, ◌>>=◌, uninitialised, write, replicate, if◌then◌else◌,
}
use mathlib.Core.Option
use sd_projeto.Message.{MessageT}
use sd_projeto.Data.{Bytes}
use sd_projeto.Framing.{Received, message_send_all, message_receive_all}

-- The results of `socket`, `setsockopt`, `bind` and `listen`; what is returned, and the descriptor
-- that was closed.
pub network_server_init : (sockfd set bound listens : ℤ) → ℤ × Option ℤ
network_server_init sockfd set bound listens =
    if ltb_ℤ sockfd (pos 0)
    then (minus_one, none)
    else if set ==ℤ minus_one
    then (minus_one, none)
    else if ltb_ℤ bound (pos 0)
    then (minus_one, some sockfd)
    else if ltb_ℤ listens (pos 0)
    then (minus_one, some sockfd)
    else (sockfd, none)

-- What `pthread_tryjoin_np` tells of a thread.
pub data Join : Type 0 where
  done busy failed : Join

-- What `accept` gives: nothing that waits, an error, or a connection; `pthread_create` then
-- succeeds or not.
pub data Accepted : Type 0 where
  would_block refused : Accepted
  connection : (connsockfd : ℤ) → (created : Bool) → Accepted

pub record Round : Type 0 where
  pub tryjoin : ℤ → Join
  pub accepted : Accepted

-- The calls that start and end threads, and `close`. A thread is named by the descriptor of its
-- connection.
pub data Event : Type 0 where
  create_thread join_thread kill_thread close_socket : ℤ → Event

-- One place of the arrays `active_threads` and `threads`. No call filled a handle that is `none`.
pub record Slot : Type 0 where
  pub active : Bool
  pub thread : Option ℤ

pub vacant_slot : Slot
vacant_slot = record { active = false; thread = none }

pub n_threads : ℕ
n_threads = 5000

pub handle : Option ℤ → Run ℤ
handle none = fault uninitialised
handle (some connsockfd) = ok connsockfd

-- The slots, `server_error`, and the calls made.
abbrev pub Joined : Type 0
Joined = (List Slot × Bool) × List Event

pub keep : Slot → Joined → Run Joined
keep slot ((slots, server_error), log) = ok ((slot ∷ slots, server_error), log)

pub log_join : ℤ → Joined → Run Joined
log_join connsockfd (s, log) = ok (s, join_thread connsockfd ∷ log)

-- `rest` is what the loop does with the slots after this one.
pub try_slot : Join → ℤ → Slot → List Slot → Run Joined → Run Joined
try_slot done connsockfd slot slots rest =
    rest >>= keep (record slot { active = false }) >>= log_join connsockfd
try_slot busy connsockfd slot slots rest = rest >>= keep slot
try_slot failed connsockfd slot slots rest = ok ((slot ∷ slots, true), [])

-- The loop over the threads.
pub join_threads : (ℤ → Join) → List Slot → Run Joined
join_threads tryjoin [] = ok (([], false), [])
join_threads tryjoin (slot ∷ slots) =
    let rest = join_threads tryjoin slots in
    if slot.active
    then handle slot.thread
      >>= (λ connsockfd. try_slot (tryjoin connsockfd) connsockfd slot slots rest)
    else rest >>= keep slot

-- The first slot that is not active.
pub find_vacant : List Slot → Option ℕ
find_vacant [] = none
find_vacant (slot ∷ slots) =
    let rest = find_vacant slots in if slot.active then Option.map suc rest else some 0

-- A connection for the vacant slot. The slot is marked first; POSIX leaves the handle undefined
-- where no thread is created.
pub accept_at : ℕ → Accepted → List Slot → Run (List Slot × List Event)
accept_at vacant_thread would_block slots = ok (slots, [])
accept_at vacant_thread refused slots = ok (slots, [])
accept_at vacant_thread (connection connsockfd true) slots = do
  slots' ← write slots vacant_thread (record { active = true; thread = some connsockfd })
  ok (slots', create_thread connsockfd ∷ [])
accept_at vacant_thread (connection connsockfd false) slots = do
  slots' ← write slots vacant_thread (record { active = true; thread = none })
  ok (slots', close_socket connsockfd ∷ [])

-- Without a vacant slot the server sleeps.
pub accept_into : Option ℕ → Accepted → List Slot → Run (List Slot × List Event)
accept_into none accepted slots = ok (slots, [])
accept_into (some vacant_thread) accepted slots = accept_at vacant_thread accepted slots

pub after_joins : Accepted → Joined → Run Joined
after_joins accepted ((slots, true), log) = ok ((slots, true), log)
after_joins accepted ((slots, false), log) = do
  (slots', more) ← accept_into (find_vacant slots) accepted slots
  ok ((slots', false), log ++ more)

pub one_round : Round → List Slot → Run Joined
one_round round slots = join_threads round.tryjoin slots >>= after_joins round.accepted

pub unless_error :
    (List Slot → Run (List Slot × List Event)) → Joined → Run (List Slot × List Event)
unless_error next ((slots, true), log) = ok (slots, log)
unless_error next ((slots, false), log) = do (slots', more) ← next slots; ok (slots', log ++ more)

-- The loop ends with an error, or where `terminated` is set, after the rounds that are given.
pub all_rounds : List Round → List Slot → Run (List Slot × List Event)
all_rounds [] slots = ok (slots, [])
all_rounds (round ∷ rounds) slots = one_round round slots >>= unless_error (all_rounds rounds)

pub end_slot : Run (List Event) → ℤ → Run (List Event)
end_slot rest connsockfd = do log ← rest; ok (kill_thread connsockfd ∷ join_thread connsockfd ∷ log)

-- The loop at the end, over the threads that are left.
pub end_threads : List Slot → Run (List Event)
end_threads [] = ok []
end_threads (slot ∷ slots) =
    let rest = end_threads slots in
    if slot.active then handle slot.thread >>= end_slot rest else rest

pub end_loop : List Slot × List Event → Run (ℤ × List Event)
end_loop (slots, log) = do more ← end_threads slots; ok (pos 0, log ++ more)

-- It returns 0 in any case. The calls it made are returned here too.
pub network_main_loop : List Round → Run (ℤ × List Event)
network_main_loop rounds = all_rounds rounds (replicate n_threads vacant_slot) >>= end_loop

module _ {S : Type 0} where
  unfoldable pub network_receive :
      (S → ℕ → Received × S) → (Bytes → Option MessageT) → S → Run (Option MessageT × S)
  network_receive read unpack s = do
    ((msg, disconnected), s') ← message_receive_all read unpack s
    ok (msg, s')

  unfoldable pub network_send :
      (S → Bytes → ℤ × S) → (MessageT → Bytes) → S → MessageT → Run (ℤ × S)
  network_send write pack s msg = message_send_all write pack msg s

  pub network_server_close : (S → ℤ → ℤ × S) → S → ℤ → ℤ × S
  network_server_close close s socket = close s socket
