-- ===== src/NetworkClient/Flag.antt =====
-- The flag `*connected` tells whether the last exchange had an answer.
use sd_projeto.Base.{
  ◌≡◌, refl, ℤ, pos, minus_one, ◌==ℤ◌, Bool, true, false, ◌||◌, Option, none, some, is_some, Run,
  ok, fault, ◌>>=◌, if◌then◌else◌, Bool-cases, inl, inr,
}
use sd_projeto.Data.{Bytes}
use sd_projeto.Message.{MessageT}
use sd_projeto.Stub.{Rtable}
use sd_projeto.Framing.{message_receive_all, message_send_all}
use sd_projeto.NetworkClient.{
  Os, Link, closed, network_close, gave_up, answer_read, after_send, network_send_receive,
  rtable_disconnect,
}

-- what holds of the value of a run that has one
abbrev pub Returned {ℓ} : {A : Type ℓ} → (A → Type 0) → Run A → Type 0
Returned P (ok a) = P a
Returned P (fault e) = Unit

module _ {S : Type 0} (os : Os S)
    (closes : (s : S) (fd : ℤ) → ((os.close s fd).0 ==ℤ minus_one) ≡ false) where
  network_close-connected :
      (rtable : Rtable) (link : Link S) → (network_close os rtable link).1.connected ≡ false
  unfolding network_close closed
  network_close-connected rtable link = rw (closes link.system rtable.sockfd) refl

  pub rtable_disconnect-closed :
      (rtable : Rtable) (link : Link S)
      → rtable_disconnect os (some rtable) link
        ≡ (pos 0, record { connected = false; system = (os.close link.system rtable.sockfd).1 })
  unfolding rtable_disconnect network_close closed
  rtable_disconnect-closed rtable link = rw (closes link.system rtable.sockfd) refl

  module _ (pack : MessageT → Bytes) (unpack : Bytes → Option MessageT) (rtable : Rtable) where
    answer_read-connected :
        (connected : Bool) (r : (Option MessageT × Bool) × S)
        → (answer_read os pack unpack rtable connected r).1.connected
          ≡ (if is_some (answer_read os pack unpack rtable connected r).0 then connected else false)
    unfolding answer_read gave_up
    answer_read-connected connected ((msg, true), s) = network_close-connected rtable _
    answer_read-connected connected ((none, false), s) = network_close-connected rtable _
    answer_read-connected connected ((some msg, false), s) = refl

    abbrev Told : Bool → Option MessageT × Link S → Type 0
    Told connected r = r.1.connected ≡ (if is_some r.0 then connected else false)

    after_receive :
        (connected : Bool) (r : Run ((Option MessageT × Bool) × S))
        → Returned
            (Told connected)
            (r >>= (λ q. ok (answer_read os pack unpack rtable connected q)))
    after_receive connected (ok q) = answer_read-connected connected q
    after_receive connected (fault e) = tt

    after_send-Told :
        (connected : Bool) (sent : ℤ) (s : S)
        → Returned (Told connected) (after_send os pack unpack rtable connected sent s)
    unfolding after_send gave_up
    after_send-Told connected sent s = elim (Bool-cases (sent ==ℤ minus_one || sent ==ℤ pos 0)) [
      | inl e ↦ rw e (network_close-connected rtable _)
      | inr e ↦
          rw e (after_receive connected (message_receive_all (os.read rtable.sockfd) unpack s))
    ]

    sent_Told :
        (connected : Bool) (r : Run (ℤ × S))
        → Returned
            (Told connected)
            (r >>= (λ q. after_send os pack unpack rtable connected q.0 q.1))
    sent_Told connected (ok q) = after_send-Told connected q.0 q.1
    sent_Told connected (fault e) = tt

    -- If the exchange returns, the flag is cleared with NULL, and kept with an answer.
    pub network_send_receive-connected :
        (msg : MessageT) (link : Link S)
        → Returned
            (λ r. r.1.connected ≡ (if is_some r.0 then link.connected else false))
            (network_send_receive os pack unpack rtable msg link)
    unfolding network_send_receive
    network_send_receive-connected msg link =
        sent_Told link.connected (message_send_all (os.write rtable.sockfd) pack msg link.system)
