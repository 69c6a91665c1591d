-- ===== src/NetworkClient.antt =====
-- source/network_client.c, and `rtable_connect` and `rtable_disconnect` of source/client_stub.c: the
-- connection of a client. What the operating system does is an argument.
pub mod Flag
use sd_projeto.Base.{
  ℕ, ◌%◌, ◌^◌, ℤ, pos, minus_one, ltb_ℤ, ◌≡◌, refl, ◌==ℤ◌, to_unsigned, Bool, true, false, ◌||◌,
  Option, none, some, Run, ok, ◌>>=◌, if◌then◌else◌,
}
use sd_projeto.CString.{CString}
use sd_projeto.Data.{Bytes}
use sd_projeto.Message.{MessageT}
use sd_projeto.Stub.{Rtable}
use sd_projeto.Framing.{Received, message_send_all, message_receive_all}
use sd_projeto.Address.{target}

-- The calls of the system, each with the state that it leaves. `connect` takes the descriptor, the
-- address and the port in 16 bits; `inet_pton` says whether an address is one.
pub record Os (S : Type 0) : Type 0 where
  pub socket : S → ℤ × S
  pub inet_pton : CString → Bool
  pub connect : S → ℤ → CString → ℕ → ℤ × S
  pub close : S → ℤ → ℤ × S
  pub write : ℤ → S → Bytes → ℤ × S
  pub read : ℤ → S → ℕ → Received × S

-- The flag `*connected`, and the system.
pub record Link (S : Type 0) : Type 0 where
  pub connected : Bool
  pub system : S

module _ {S : Type 0} (os : Os S) where
  closed : ℤ × S → Bool → ℤ × Link S
  closed (ret, s) connected =
      if ret ==ℤ minus_one
      then (minus_one, record { connected = connected; system = s })
      else (pos 0, record { connected = false; system = s })

  pub network_close : Rtable → Link S → ℤ × Link S
  network_close rtable link = closed (os.close link.system rtable.sockfd) link.connected

  -- The descriptor that is closed is that of `rtable`, not the new one.
  failed_connect : Rtable → Link S → (ℤ × Rtable) × Link S
  failed_connect rtable link = ((minus_one, rtable), (network_close rtable link).1)

  connected_to : Rtable → ℤ → Bool → ℤ × S → (ℤ × Rtable) × Link S
  connected_to rtable sockfd connected (ret, s) =
      if ltb_ℤ ret (pos 0)
      then failed_connect rtable (record { connected = connected; system = s })
      else ((pos 0, record rtable { sockfd = sockfd }), record { connected = true; system = s })

  with_socket : Rtable → Bool → ℤ × S → (ℤ × Rtable) × Link S
  with_socket rtable connected (sockfd, s) =
      if ltb_ℤ sockfd (pos 0)
      then ((minus_one, rtable), record { connected = connected; system = s })
      else if os.inet_pton rtable.server_address
      then connected_to rtable sockfd connected
          (os.connect s sockfd rtable.server_address (to_unsigned rtable.server_port % 2 ^ 16))
      else failed_connect rtable (record { connected = connected; system = s })

  pub network_connect : Rtable → Link S → (ℤ × Rtable) × Link S
  network_connect rtable link = with_socket rtable link.connected (os.socket link.system)

  -- `garbage` is what the new struct holds in `sockfd`.
  pub connect_to : CString × ℤ → (garbage : ℤ) → Link S → Option Rtable × Link S
  connect_to (server_address, server_port) garbage link =
      let rtable : Rtable = record {
        server_address = server_address;
        server_port = server_port;
        sockfd = garbage;
      } in
      let ((ret, rtable'), link') = network_connect rtable link in
      (if ltb_ℤ ret (pos 0) then none else some rtable', link')

  connect_target : Option (CString × ℤ) → ℤ → Link S → Option Rtable × Link S
  connect_target none garbage link = (none, link)
  connect_target (some place) garbage link = connect_to place garbage link

  pub rtable_connect : Option CString → (garbage : ℤ) → Link S → Run (Option Rtable × Link S)
  rtable_connect address_port garbage link = do
    place ← target address_port
    ok (connect_target place garbage link)

  pub rtable_connect-target :
      (addr : CString) (place : CString × ℤ) (garbage : ℤ) (link : Link S)
      → target (some addr) ≡ ok (some place)
      → rtable_connect (some addr) garbage link ≡ ok (connect_to place garbage link)
  unfolding rtable_connect connect_target
  rtable_connect-target addr place garbage link h = rw h refl

  pub rtable_disconnect : Option Rtable → Link S → ℤ × Link S
  rtable_disconnect none link = (minus_one, link)
  rtable_disconnect (some rtable) link = network_close rtable link

  module _ (pack : MessageT → Bytes) (unpack : Bytes → Option MessageT) where
    gave_up : Rtable → Bool → S → Option MessageT × Link S
    gave_up rtable connected s =
        (none, (network_close rtable (record { connected = connected; system = s })).1)

    -- `disconnected` is tested first.
    answer_read : Rtable → Bool → (Option MessageT × Bool) × S → Option MessageT × Link S
    answer_read rtable connected ((msg, true), s) = gave_up rtable connected s
    answer_read rtable connected ((none, false), s) = gave_up rtable connected s
    answer_read rtable connected ((some msg, false), s) =
        (some msg, record { connected = connected; system = s })

    after_send : Rtable → Bool → ℤ → S → Run (Option MessageT × Link S)
    after_send rtable connected sent s =
        if sent ==ℤ minus_one || sent ==ℤ pos 0
        then ok (gave_up rtable connected s)
        else message_receive_all (os.read rtable.sockfd) unpack s
          >>= (λ r. ok (answer_read rtable connected r))

    pub network_send_receive : Rtable → MessageT → Link S → Run (Option MessageT × Link S)
    network_send_receive rtable msg link = do
      (sent, s) ← message_send_all (os.write rtable.sockfd) pack msg link.system
      after_send rtable link.connected sent s
