-- ===== src/Tests/Chains.antt =====
-- Examples for a chain of two servers, which starts empty.
use mathlib.Core.Option
use sd_projeto.Base.{
  true, sym, is_some, ◌≡◌, refl, pos, List, [], ◌∷◌, false, Option, none, some, ok, ◌>>=◌, arith,
}
use sd_projeto.CString.{strcmp}
use sd_projeto.Data.Copies.{data_of}
use sd_projeto.Message.{MessageT, message_init}
use sd_projeto.Mutex.{unlocked}
use sd_projeto.Mutex.Free.{IsFree}
use sd_projeto.Stats.{Statistics}
use sd_projeto.Stub.{Rtable}
use sd_projeto.Table.{Table}
use sd_projeto.Table.Methods.{Models, empty, update, table_create-empty}
use sd_projeto.Skel.{Server, has_next}
use sd_projeto.Skel.Sections.{Ready}
use sd_projeto.Client.Commands.Typed.{IsWord}
use sd_projeto.Replicas.{Replica, reaches, Write, put, del, write_all, read_tail}
use sd_projeto.Replicas.Writes.{IsChain}
use sd_projeto.Replicas.History.{IsSmall, Fits, after, read_tail-write_all}
use sd_projeto.Serve.Connection.{Call, get}
use sd_projeto.Serve.Connection as Connection
use sd_projeto.Skel.Invoke.Malformed.{Malformed}
use sd_projeto.Message.Opcode
use sd_projeto.Message.CType
use mathlib.Core.Path.{subst}
use sd_projeto.Stub.Requests.{put_message, del_message, get_message}
use sd_projeto.Skel.Invoke.Reads.{got}
use sd_projeto.Serve.Transport.{Crosses}
use sd_projeto.Serve.Calls.{put_done, del_done}
use sd_projeto.Tests.{key_a, key_b, packed, unpacked}

abbrev pub created : (t : Table) × Models empty t
created = let (t, _, models) = table_create-empty 2 (omega arith) (omega arith) in (t, models)

abbrev pub counters : Statistics
counters = record { n_clientes = pos 1; n_operacoes = pos 0; total_time = pos 0 }

abbrev pub to_tail : Rtable
to_tail = record { server_address = 49 ∷ []; server_port = pos 9000; sockfd = pos 5 }

abbrev pub tail : Server
tail = record {
  table = some created.0;
  global_stats = some counters;
  table_locks = unlocked;
  stats_locks = unlocked;
  next_server_rtable = none;
  next_server_node_path = [];
}

abbrev head : Server
head = record tail { next_server_rtable = some to_tail; next_server_node_path = 47 ∷ [] }

pub free : IsFree unlocked
free = record { no_writer_waits = refl; no_reader = refl; no_writer = refl }

pub tail-Ready : Ready empty tail
tail-Ready = record {
  table = created.0;
  its_table = refl;
  models = created.1;
  stats = counters;
  its_stats = refl;
  table_free = free;
  stats_free = free;
}

head-Ready : Ready empty head
head-Ready = record {
  table = created.0;
  its_table = refl;
  models = created.1;
  stats = counters;
  its_stats = refl;
  table_free = free;
  stats_free = free;
}

abbrev to_head : Rtable
to_head = record { server_address = 49 ∷ []; server_port = pos 8000; sockfd = pos 4 }

-- The head listens at port 8000 and the tail at port 9000 of the same host.
abbrev at_head : Replica
at_head = record { address = (49 ∷ [], pos 8000); server = head }

abbrev at_tail : Replica
at_tail = record { address = (49 ∷ [], pos 9000); server = tail }

head_reached : reaches to_head at_head.address ≡ true
unfolding reaches strcmp
head_reached = refl

tail_reached : (reaches to_tail at_head.address ≡ false) × (reaches to_tail at_tail.address ≡ true)
unfolding reaches strcmp
tail_reached = (refl, refl)

two-IsChain : IsChain empty (at_head ∷ at_tail ∷ [])
unfolding has_next strcmp
two-IsChain = (head-Ready, (to_tail, (refl, refl), tail_reached.1), (tail-Ready, refl, tt))

abbrev two_writes : List Write
two_writes = put key_b (3 ∷ []) ∷ del key_a ∷ []

abbrev two_messages : List MessageT
two_messages =
    put_message key_b (3 ∷ [])
    ∷ put_done key_b (3 ∷ [])
    ∷ del_message key_a
    ∷ del_done key_a (is_some (update empty key_b (some (3 ∷ [])) key_a))
    ∷ get_message key_b
    ∷ got (get_message key_b) (some (3 ∷ []))
    ∷ []

two_writes-Fits : Fits packed (unpacked two_messages) empty two_writes
two_writes-Fits = (
  omega arith,
  omega arith,
  (refl, omega arith),
  (refl, omega arith),
  ((refl, omega arith), (refl, omega arith), tt),
)

b_left : after empty two_writes key_b ≡ some (3 ∷ [])
unfolding strcmp
b_left = refl

b_answered :
    Crosses packed (unpacked two_messages) (got (get_message key_b) (after empty two_writes key_b))
b_answered =
    subst (λ w. Crosses packed (unpacked two_messages) (got (get_message key_b) w)) (sym b_left)
      (refl, omega arith)

empty-IsSmall : IsSmall empty
empty-IsSmall k v e = absurd (ground (arith, e))

read_tail-write_all_example :
    (write_all packed (unpacked two_messages) (pos 3) to_head two_writes (at_head ∷ at_tail ∷ [])
      >>= read_tail packed (unpacked two_messages) (pos 3) to_tail key_b)
    ≡ ok (Option.map data_of (after empty two_writes key_b))
read_tail-write_all_example =
    read_tail-write_all packed (unpacked two_messages) (pos 3) to_head to_tail empty two_writes
      empty-IsSmall two_writes-Fits at_head (at_tail ∷ []) head_reached tail_reached two-IsChain
      key_b (refl, omega arith) b_answered

abbrev key_a-IsWord : IsWord key_a
key_a-IsWord = (omega arith, (refl, refl, tt))

abbrev puts_a : List MessageT
puts_a = put_message key_a key_b ∷ put_done key_a key_b ∷ []

abbrev three_calls : List Call
three_calls = Connection.put key_a (1 ∷ []) ∷ get key_b ∷ Connection.del key_b ∷ []

-- A request to get no key.
abbrev gets_nothing : MessageT
gets_nothing = record message_init { opcode = Opcode.get; c_type = CType.key; key = none }
