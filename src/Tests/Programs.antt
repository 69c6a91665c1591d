-- ===== src/Tests/Programs.antt =====
-- Examples for the programs: the client's terminal and connection, the server's threads, and the
-- nodes that both follow.
use sd_projeto.Base.{
  ℕ, ◌≡◌, ◌↔◌, refl, ℤ, pos, true, false, List, [], ◌∷◌, ◌++◌, Option, none, some, ok, fault,
  uninitialised, arith, length, inl,
}
use sd_projeto.CString.{CString}
use sd_projeto.Stub.{Rtable}
use sd_projeto.NetworkServer.{
  Join, done, busy, would_block, connection, Round, Event, network_main_loop,
}
use sd_projeto.NetworkServer.Slots.{count, creates, joins}
use sd_projeto.NetworkServer.Loop.{network_main_loop-joins}
use sd_projeto.NetworkServer.Failure.{network_main_loop-uncreated}
use sd_projeto.Address.{ServerAddress, interpret_addr, target}
use sd_projeto.Address.Reading.{NoColon, AreDigits, decimal, interpret_addr-target}
use sd_projeto.Framing.{received}
use sd_projeto.NetworkClient.{Os}
use sd_projeto.Chain.{children_abs_zpaths, successor}
use sd_projeto.Endpoints.{head_of, tail_of, Ends, client_watch_children}
use sd_projeto.Endpoints.Extremes.{OneOf, successor-tail}
use sd_projeto.Endpoints.Moves.{HasAddress, client_watch_children-ends}
use sd_projeto.Tests.{key_a, key_c}

abbrev link : Rtable
link = record { server_address = 49 ∷ []; server_port = pos 80; sockfd = pos 4 }

all_done : ℤ → Join
all_done connsockfd = done

all_busy : ℤ → Join
all_busy connsockfd = busy

abbrev four_rounds : List Round
four_rounds =
    record { tryjoin = all_done; accepted = connection (pos 5) true }
    ∷ record { tryjoin = all_busy; accepted = connection (pos 6) true }
    ∷ record { tryjoin = all_done; accepted = would_block }
    ∷ record { tryjoin = all_busy; accepted = connection (pos 5) true }
    ∷ []

network_main_loop-joins_example :
    (r : ℤ × List Event) × (network_main_loop four_rounds ≡ ok r)
    × ((r.0 ≡ pos 0) × (count (creates (pos 5)) r.1 ≡ count (joins (pos 5)) r.1))
network_main_loop-joins_example =
    network_main_loop-joins four_rounds (tt, (tt, (tt, (tt, tt)))) (pos 5)

network_main_loop-uncreated_example :
    network_main_loop
      (record { tryjoin = all_done; accepted = connection (pos 5) false } ∷ four_rounds)
    ≡ fault uninitialised
network_main_loop-uncreated_example = network_main_loop-uncreated all_done (pos 5) four_rounds

abbrev host : CString
host = 49 ∷ 46 ∷ 50 ∷ []

abbrev nowhere : ServerAddress
nowhere = record { addr_str = none; ip = none; port = pos 0 }

host-NoColon : NoColon host
host-NoColon = (λ e. omega arith, (λ e. omega arith, (λ e. omega arith, tt)))

port-AreDigits : AreDigits (56 ∷ 48 ∷ [])
port-AreDigits = (refl, (refl, tt))

interpret_addr-target_example :
    (interpret_addr (some (host ++ (58 ∷ 56 ∷ 48 ∷ []))) nowhere
      ≡ ok (
        pos 0,
        record {
          addr_str = some (host ++ (58 ∷ 56 ∷ 48 ∷ []));
          ip = some host;
          port = pos (decimal (56 ∷ 48 ∷ []));
        },
      ))
    × (target (some (host ++ (58 ∷ 56 ∷ 48 ∷ []))) ≡ ok (some (host, pos (decimal (56 ∷ 48 ∷ [])))))
interpret_addr-target_example =
    interpret_addr-target host 56 (48 ∷ []) host-NoColon port-AreDigits (omega arith) nowhere

-- A system on which all calls succeed, and every read gives nothing.
abbrev os : Os ℕ
os = record {
  socket = λ n. (pos 3, n);
  inet_pton = λ address. true;
  connect = λ n fd address port. (pos 0, n);
  close = λ n fd. (pos 0, n);
  write = λ fd n b. (pos (length b), n);
  read = λ fd n size. (received [], n);
}

-- two nodes, listed in no order
abbrev nodes : List CString
nodes = key_c ∷ key_a ∷ []

last_listed : OneOf (47 ∷ 99 ∷ 104 ∷ 97 ∷ 105 ∷ 110 ∷ 47 ∷ key_c) (children_abs_zpaths nodes)
unfolding children_abs_zpaths
last_listed = inl refl

successor-tail_example :
    (successor (47 ∷ 99 ∷ 104 ∷ 97 ∷ 105 ∷ 110 ∷ 47 ∷ key_c) (children_abs_zpaths nodes) ≡ [])
    ↔ ((47 ∷ 99 ∷ 104 ∷ 97 ∷ 105 ∷ 110 ∷ 47 ∷ key_c) ≡ tail_of (children_abs_zpaths nodes))
successor-tail_example =
    successor-tail (47 ∷ 99 ∷ 104 ∷ 97 ∷ 105 ∷ 110 ∷ 47 ∷ key_c) nodes last_listed

abbrev address : CString
address = 49 ∷ 58 ∷ 56 ∷ []

zoo_get : CString → Option CString
zoo_get path = some address

address_place : (place : CString × ℤ) × (target (some address) ≡ ok (some place))
address_place =
    let (_, reads) =
      interpret_addr-target (49 ∷ []) 56 [] (λ e. omega arith, tt) (refl, tt) (omega arith)
        nowhere in
    (_, reads)

has_address : (path : CString) → HasAddress zoo_get path
unfolding zoo_get
has_address path = (address, address_place.0, (refl, address_place.1))

abbrev ends : Ends ℕ
ends = record {
  head_path = [];
  tail_path = [];
  rtable_head = none;
  rtable_tail = some link;
  connected_to_head = false;
  connected_to_tail = true;
  system = 0;
}

client_watch_children-ends_example :
    (ends' : Ends ℕ) × (client_watch_children os zoo_get (pos 9) true (some nodes) ends ≡ ok ends')
    × ((ends'.head_path ≡ head_of (children_abs_zpaths nodes))
        × (ends'.tail_path ≡ tail_of (children_abs_zpaths nodes)))
client_watch_children-ends_example =
    client_watch_children-ends os zoo_get (pos 9) nodes ends
      (has_address (head_of (children_abs_zpaths nodes)))
      (has_address (tail_of (children_abs_zpaths nodes)))
