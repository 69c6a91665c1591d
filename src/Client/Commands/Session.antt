-- ===== src/Client/Commands/Session.antt =====
-- `main` of source/table_client.c from its start to its end: the wait for ZooKeeper, the start, the
-- loop of commands, and the disconnecting. `head_exchange` and `tail_exchange` are what an exchange
-- over the two connections gives; the flag `client_connected_to_zk` is read off the same state.
use sd_projeto.Base.{
  ℕ, suc, ◌++◌, ◌≡◌, refl, ℤ, pos, minus_one, ◌==ℤ◌, Bool, true, false, not, ◌&&◌, List, [], ◌∷◌,
  Option, none, some, Run, ok, ◌>>=◌, if◌then◌else◌,
}
use sd_projeto.CString.{CString, strcmp}
use sd_projeto.Message.{MessageT}
use sd_projeto.Stub.{Rtable}
use sd_projeto.NetworkClient.{Os, Link, rtable_disconnect}
use sd_projeto.NetworkClient.Flag.{rtable_disconnect-closed}
use sd_projeto.Endpoints.{Ends}
use sd_projeto.Endpoints.Start.{Started, client_start}
use sd_projeto.Client.{same, quit_str, quit, parse_operation}
use sd_projeto.Client.Commands.{
  fgets_loop, read_line, Output, bye, run_operation, is_quit, run_lines,
}

-- How `main` ends: it never leaves the wait, it exits before the loop, or it ends with what was
-- printed, a status and what is left of the connections.
pub data Session (S : Type 0) : Type 0 where
  connecting exits : Session S
  ended : List Output → ℤ → Ends S → Session S

-- The flag `client_connected_to_zk` as the rounds of the wait read it.
pub is_connected : List Bool → Bool
is_connected [] = false
is_connected (flag ∷ later) = if flag then true else is_connected later

module _ {S : Type 0} (os : Os S) where
  -- A connection that is not closed keeps the second one from being closed.
  disconnect_tail : Rtable → Ends S → ℤ × Link S → ℤ × Ends S
  disconnect_tail rtable_tail ends (ret, link) =
      let ends' = record ends { connected_to_head = link.connected; system = link.system } in
      let (ret', link') =
        rtable_disconnect os (some rtable_tail)
          (record { connected = ends.connected_to_tail; system = link.system }) in
      if ret ==ℤ minus_one then (minus_one, ends') else (
        if ret' ==ℤ minus_one then minus_one else pos 0,
        record ends' { connected_to_tail = link'.connected; system = link'.system },
      )

  pub disconnect : (rtable_head rtable_tail : Rtable) → Ends S → ℤ × Ends S
  disconnect rtable_head rtable_tail ends = disconnect_tail rtable_tail ends (
      rtable_disconnect os (some rtable_head)
        (record { connected = ends.connected_to_head; system = ends.system }))

  module _ (zoo_get : CString → Option CString) (garbage : ℤ)
      (head_exchange tail_exchange : Ends S → Rtable → MessageT → Run (Option MessageT × Ends S))
      (client_connected_to_zk : Ends S → Bool) where
    pub linked : Ends S → Bool
    linked ends = ends.connected_to_head && ends.connected_to_tail && client_connected_to_zk ends

    finished : Started S → List Output × Ends S → Session S
    finished started (printed, ends) =
        let (status, ends') = disconnect started.rtable_head started.rtable_tail ends in
        ended printed status ends'

    in_session : (rounds : ℕ) → (stdin : CString) → Option (Started S) → Run (Session S)
    in_session rounds stdin none = ok exits
    in_session rounds stdin (some started) = do
      end ←
          run_lines head_exchange tail_exchange started.rtable_head started.rtable_tail rounds
            linked stdin started.ends
      ok (finished started end)

    -- `zh` tells whether `zookeeper_init` gives a handle.
    pub client_main :
        (zh : Bool)
        → List Bool
        → (children : Option (List CString)) → (rounds : ℕ) → (stdin : CString) → S
        → Run (Session S)
    client_main zh flags children rounds stdin s =
        if not zh
        then ok exits
        else if is_connected flags
        then (client_start os zoo_get garbage children s >>= in_session rounds stdin)
        else ok connecting

    -- `main` with the arguments that it is started with, the name of the program first.
    pub client_program :
        (argv : List CString)
        → (zookeeper_init : CString → Bool) → List Bool
        → (children : Option (List CString)) → (rounds : ℕ) → (stdin : CString) → S
        → Run (Session S)
    client_program (program ∷ zk_addr ∷ []) zookeeper_init flags children rounds stdin s =
        client_main (zookeeper_init zk_addr) flags children rounds stdin s
    client_program argv zookeeper_init flags children rounds stdin s = ok exits

reads_quit : (later : CString) → read_line (quit_str ++ later) ≡ ok (quit_str, later)
unfolding read_line fgets_loop
reads_quit later = refl

-- "quit"
quits : parse_operation quit_str ≡ ok quit
unfolding parse_operation same strcmp
quits = refl

module _ {S : Type 0} (os : Os S)
    (closes : (s : S) (fd : ℤ) → ((os.close s fd).0 ==ℤ minus_one) ≡ false) where
  -- When closing a descriptor succeeds, both connections are closed, that to the head first.
  disconnect-closed :
      (rtable_head rtable_tail : Rtable) (ends : Ends S)
      → disconnect os rtable_head rtable_tail ends ≡ (
        pos 0,
        record ends {
          connected_to_head = false;
          connected_to_tail = false;
          system = (os.close (os.close ends.system rtable_head.sockfd).1 rtable_tail.sockfd).1;
        },
      )
  unfolding disconnect disconnect_tail
  disconnect-closed rtable_head rtable_tail ends =
      rw (rtable_disconnect-closed os closes, rtable_disconnect-closed os closes) refl

  module _ (zoo_get : CString → Option CString) (garbage : ℤ)
      (head_exchange tail_exchange : Ends S → Rtable → MessageT → Run (Option MessageT × Ends S))
      (client_connected_to_zk : Ends S → Bool) where
    -- When ZooKeeper gets connected, the client has both connections, and closing a descriptor
    -- succeeds, the line "quit" ends the session with status 0 and no connection, whatever follows it.
    pub client_main-quit :
        (flags : List Bool)
        → is_connected flags ≡ true
        → (children : Option (List CString)) (rounds : ℕ) (later : CString) (s : S)
          (started : Started S)
        → client_start os zoo_get garbage children s ≡ ok (some started)
        → linked os zoo_get garbage head_exchange tail_exchange client_connected_to_zk started.ends
          ≡ true
        → (ends : Ends S) × (client_main os zoo_get garbage head_exchange tail_exchange
              client_connected_to_zk true flags children
              (suc rounds)
              (quit_str ++ later)
              s
            ≡ ok (ended (bye ∷ []) (pos 0) ends))
          × (ends.connected_to_head ≡ false)
          × (ends.connected_to_tail ≡ false)
    unfolding client_main in_session run_lines run_operation is_quit finished
    client_main-quit flags zk children rounds later s started starts both = (
      (disconnect os started.rtable_head started.rtable_tail started.ends).1,
      rw
          (
            zk,
            starts,
            both,
            reads_quit later,
            quits,
            disconnect-closed started.rtable_head started.rtable_tail started.ends,
          )
          refl,
      rw (disconnect-closed started.rtable_head started.rtable_tail started.ends) refl,
      rw (disconnect-closed started.rtable_head started.rtable_tail started.ends) refl,
    )
