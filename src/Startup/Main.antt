-- ===== src/Startup/Main.antt =====
-- The whole `main` of a server: how it comes to serve, and what a bad port does.
use sd_projeto.Base.{
  Run, ℕ, ◌<◌, ◌^◌, ◌≡◌, refl, ap, ℤ, pos, minus_one, ◌==ℤ◌, to_unsigned, true, false, ◌||◌, ◌⊎◌,
  inl, inr, List, [], ◌∷◌, ◌++◌, Option, none, some, ok, fault, null_pointer, arith,
}
use sd_projeto.CString.{CString}
use sd_projeto.Table.Methods.{Map, empty}
use sd_projeto.Message.{MessageT}
use sd_projeto.Stub.{Rtable}
use sd_projeto.Skel.{Server}
use sd_projeto.Skel.Sections.{Ready}
use sd_projeto.Framing.{to_short}
use sd_projeto.Address.{strtol}
use sd_projeto.Address.Reading.{
  NoColon, AreDigits, decimal, interpret_addr-target, interpret_addr-unread,
}
use sd_projeto.Resources.Fresh.{Ready-destroyed, init_server_resources-Ready}
use sd_projeto.NetworkServer.{Round, Event}
use sd_projeto.NetworkServer.Loop.{AllCreated, network_main_loop-joins}
use sd_projeto.Startup.{
  no_address, with_resources, set_up, Attempt, listed, after_listing, wait, serves, take_table,
  registered, entered, started, server_main,
}

-- The attempt does not end the loop.
abbrev pub NotYet : Attempt → Type 0
NotYet attempt =
    (attempt.connected_to_zk ≡ false)
    ⊎ ((attempt.root_exists || attempt.root_created ≡ true) × (attempt.children ≡ none))

abbrev pub AllNotYet : List Attempt → Type 0
AllNotYet [] = Unit
AllNotYet (attempt ∷ attempts) = NotYet attempt × AllNotYet attempts

-- ZooKeeper lists no server.
abbrev pub lists_none : Attempt
lists_none = record {
  connected_to_zk = true;
  root_exists = true;
  root_created = false;
  children = some [];
}

wait-listed :
    (early later : List Attempt) → AllNotYet early → wait (early ++ lists_none ∷ later) ≡ listed []
unfolding wait after_listing
wait-listed [] later h = refl
wait-listed (attempt ∷ early) later (inl e, h) = rw e (wait-listed early later h)
wait-listed (attempt ∷ early) later (inr (e, e'), h) =
    rw (e, e') (ground (arith, wait-listed early later h))

module _ {W : Type 0} (zoo_get : CString → Option CString) (connect : CString → Option Rtable)
    (exchange : W → Rtable → MessageT → Run (Option MessageT × W)) (open_socket : ℤ → ℤ) (n : ℕ)
    (some_lists : 0 < n) (few_lists : n < 2 ^ 31) (ip : CString) (no_colon : NoColon ip)
    (early later : List Attempt) (not_yet : AllNotYet early) (unset : CString) (rounds : List Round)
    (threads : Server × W → Server × W) (world : W) where
  -- A server that is started with at least one and fewer than 2^31 lists and an address
  -- <ip>:<port>, with no colon in the ip and a decimal port below 2^31 for which the socket is
  -- opened, tries until ZooKeeper is connected and lists the children of the root; if there are
  -- none, every creation of a thread succeeds, its node can be created, and the connections leave
  -- it ready with some map, it serves under its address and the path of its node and returns 0,
  -- also when its loop of connections ended after a failed pthread_tryjoin_np, where the
  -- documentation of network_main_loop has -1.
  pub server_main-serves :
      (b : ℕ) (s : CString)
      → AreDigits (b ∷ s)
      → decimal (b ∷ s) < 2 ^ 31
      → (open_socket (to_short (to_unsigned (pos (decimal (b ∷ s))))) ==ℤ minus_one) ≡ false
      → AllCreated rounds
      → (f : Server → W → Map)
      → ((server : Server)
          → Ready empty server
          → Ready (f server world) (threads (server, world)).0)
      → (path : CString)
      → (world' : W) × (log : List Event) × (server_main zoo_get connect exchange open_socket
            (pos n)
            (ip ++ (58 ∷ b ∷ s))
            unset
            (some path)
            rounds
            threads
            (early ++ lists_none ∷ later)
            world
          ≡ ok (serves (pos 0) (ip ++ (58 ∷ b ∷ s)) path log world'))
  unfolding server_main set_up with_resources started entered take_table registered
  server_main-serves b s are port opens created f keeps path =
      let (server, makes, r, _) = init_server_resources-Ready n some_lists few_lists in
      let reads = interpret_addr-target ip b s no_colon are port no_address in
      let ((ret, log), loops, (zero_, _)) = network_main_loop-joins rounds created (pos 0) in
      (
        (threads (server, world)).1,
        log,
        rw
            (
              makes,
              reads.0,
              opens,
              wait-listed early later not_yet,
              loops,
              Ready-destroyed (keeps server r),
            )
            (ap (λ ret. ok (serves ret (ip ++ (58 ∷ b ∷ s)) path log (threads (server, world)).1))
              zero_),
      )

  -- A server that is started with at least one and fewer than 2^31 lists and an address whose port
  -- has something behind its number opens a socket for port 0 if it can, and, when ZooKeeper lists
  -- no children of the root, reads NULL as its own address.
  pub server_main-unread_port :
      (port : CString) (number : ℤ) (b : ℕ) (behind : CString)
      → strtol port ≡ (number, b ∷ behind)
      → (open_socket (to_short (to_unsigned (pos 0))) ==ℤ minus_one) ≡ false
      → (created_node_path : Option CString)
      → server_main zoo_get connect exchange open_socket
          (pos n)
          (ip ++ (58 ∷ port))
          unset
          created_node_path
          rounds
          threads
          (early ++ lists_none ∷ later)
          world
        ≡ fault null_pointer
  unfolding server_main set_up with_resources started entered take_table registered to_short
      no_address
  server_main-unread_port port number b behind unread opens created_node_path =
      let (server, makes, _, _) = init_server_resources-Ready n some_lists few_lists in
      rw
        (
          makes,
          interpret_addr-unread ip port no_colon number b behind unread no_address,
          opens,
          wait-listed early later not_yet,
        )
        refl
