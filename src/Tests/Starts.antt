-- ===== src/Tests/Starts.antt =====
-- Examples for a server that starts: with a good address, and with a port that is none.
use sd_projeto.Base.{
  Run, ℕ, ◌≡◌, refl, ℤ, pos, minus_one, ◌==ℤ◌, true, false, List, [], ◌∷◌, ◌++◌, Option, none, some,
  ok, fault, null_pointer, arith, inl, inr,
}
use sd_projeto.CString.{CString}
use sd_projeto.Table.Methods.{empty}
use sd_projeto.Message.{MessageT}
use sd_projeto.Stub.{Rtable}
use sd_projeto.Skel.{Server}
use sd_projeto.Address.{strtol}
use sd_projeto.Address.Reading.{NoColon, AreDigits, strtol-letter}
use sd_projeto.NetworkServer.{Join, done, connection, would_block, Round, Event}
use sd_projeto.Startup.{Attempt, serves, server_main}
use sd_projeto.Startup.Main.{AllNotYet, lists_none, server_main-serves, server_main-unread_port}

-- ZooKeeper knows no node.
no_node : CString → Option CString
no_node path = none

unconnected : CString → Option Rtable
unconnected address = none

silent : ℕ → Rtable → MessageT → Run (Option MessageT × ℕ)
silent world rtable m = ok (none, world)

opened : ℤ → ℤ
opened port = pos 4

-- "1:80" and "1:x"
abbrev host : CString
host = 49 ∷ []

host-NoColon : NoColon host
host-NoColon = (λ e. omega arith, tt)

eighty-AreDigits : AreDigits (56 ∷ 48 ∷ [])
eighty-AreDigits = (refl, (refl, tt))

-- First ZooKeeper is not connected, then the children cannot be listed.
abbrev two_attempts : List Attempt
two_attempts =
    record { connected_to_zk = false; root_exists = false; root_created = false; children = none }
    ∷ record { connected_to_zk = true; root_exists = false; root_created = true; children = none }
    ∷ []

two-AllNotYet : AllNotYet two_attempts
two-AllNotYet = (inl refl, (inr (refl, refl), tt))

all_done : ℤ → Join
all_done connsockfd = done

abbrev two_rounds : List Round
two_rounds =
    record { tryjoin = all_done; accepted = connection (pos 5) true }
    ∷ record { tryjoin = all_done; accepted = would_block }
    ∷ []

-- Nothing is asked of the server.
abbrev idle : Server × ℕ → Server × ℕ
idle s = s

opens : (port : ℤ) → (opened port ==ℤ minus_one) ≡ false
unfolding opened
opens port = refl

server_main-serves_example :
    (world' : ℕ) × (log : List Event) × (server_main no_node unconnected silent opened
        (pos 2)
        (host ++ (58 ∷ 56 ∷ 48 ∷ []))
        []
        (some host)
        two_rounds
        idle
        (two_attempts ++ lists_none ∷ [])
        7
      ≡ ok (serves (pos 0) (host ++ (58 ∷ 56 ∷ 48 ∷ [])) host log world'))
server_main-serves_example =
    server_main-serves no_node unconnected silent opened 2 (omega arith) (omega arith) host
      host-NoColon two_attempts [] two-AllNotYet [] two_rounds idle 7 56 (48 ∷ []) eighty-AreDigits
      (omega arith) (opens _) (tt, (tt, tt)) (λ server world. empty) (λ server r. r) host

not_a_number : strtol (120 ∷ []) ≡ (pos 0, 120 ∷ [])
not_a_number = strtol-letter 120 [] (omega arith)

server_main-unread_port_example :
    server_main no_node unconnected silent opened
      (pos 2)
      (host ++ (58 ∷ 120 ∷ []))
      []
      (some host)
      two_rounds
      idle
      (two_attempts ++ lists_none ∷ [])
      7
    ≡ fault null_pointer
server_main-unread_port_example =
    server_main-unread_port no_node unconnected silent opened 2 (omega arith) (omega arith) host
      host-NoColon two_attempts [] two-AllNotYet [] two_rounds idle 7 (120 ∷ []) (pos 0) 120 []
      not_a_number (opens _) (some host)
