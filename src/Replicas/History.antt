-- ===== src/Replicas/History.antt =====
-- A chain of servers, seen by a client, is one map: a read from the tail sees all writes to the
-- head.
use mathlib.Core.Option
use sd_projeto.Base.{
  ◌^◌, ◌<◌, ◌≡◌, ◌∙◌, refl, sym, ap, is_some, true, false, ℤ, List, [], ◌∷◌, Option, none, some, ok,
  ◌>>=◌, arith, length, Bool-cases, inl, inr,
}
use sd_projeto.CString.{CString}
use sd_projeto.CString.Order.{str_eq}
use sd_projeto.Data.{Bytes}
use sd_projeto.Data.Copies.{data_of}
use sd_projeto.Stub.{Rtable, get_answer}
use sd_projeto.Stub.Requests.{put_message, del_message, get_message, rtable_get-get_message}
use sd_projeto.Table.Methods.{Map, update}
use sd_projeto.Skel.Sections.{read_done}
use sd_projeto.Skel.Invoke.Reads.{got, invoke-get}
use sd_projeto.Serve.Calls.{put_done, del_done, get_answer-got}
use sd_projeto.Serve.Transport.{Crosses, ask-invoke}
use mathlib.Core.Path.{subst}
use sd_projeto.Message.{MessageT}
use sd_projeto.Replicas.{
  Replica, reaches, chain_ask, joined, passed_by, Write, put, del, write_all, read_tail,
}
use sd_projeto.Replicas.Writes.{addresses, first, IsChain, write_head-put, write_head-del}

-- what a history of writes makes of a map
abbrev pub after : Map → List Write → Map
after f [] = f
after f (put k v ∷ ws) = after (update f k (some v)) ws
after f (del k ∷ ws) = after (update f k none) ws

-- Blocks of at least one byte, with a length that an `int` holds, and messages that fit: the
-- requests, and the answers to them.
abbrev pub Fits : (MessageT → Bytes) → (Bytes → Option MessageT) → Map → List Write → Type 0
Fits pack unpack f [] = Unit
Fits pack unpack f (put k v ∷ ws) =
    (0 < length v)
    × (length v < 2 ^ 31)
    × Crosses pack unpack (put_message k v)
    × Crosses pack unpack (put_done k v)
    × Fits pack unpack (update f k (some v)) ws
Fits pack unpack f (del k ∷ ws) =
    Crosses pack unpack (del_message k)
    × Crosses pack unpack (del_done k (is_some (f k)))
    × Fits pack unpack (update f k none) ws

abbrev pub IsSmall : Map → Type 0
IsSmall f = (k : CString) (v : Bytes) → f k ≡ some v → length v < 2 ^ 31

update-IsSmall :
    (f : Map) (k : CString) (w : Option Bytes)
    → IsSmall f
    → ((v : Bytes) → w ≡ some v → length v < 2 ^ 31)
    → IsSmall (update f k w)
update-IsSmall f k w small h j v = elim (Bool-cases (str_eq k j)) [
  | inl e ↦ λ g. h v (rw e at g)
  | inr e ↦ λ g. small j v (rw e at g)
]

-- The connection reaches the last of these addresses, and none before it.
abbrev pub ReachesLast : Rtable → List (CString × ℤ) → Type 0
ReachesLast rtable [] = ⊥
ReachesLast rtable (a ∷ []) = reaches rtable a ≡ true
ReachesLast rtable (a ∷ b ∷ places) = (reaches rtable a ≡ false) × ReachesLast rtable (b ∷ places)

module _ (pack : MessageT → Bytes) (unpack : Bytes → Option MessageT) where
  after-IsSmall :
      (f : Map) (ws : List Write) → IsSmall f → Fits pack unpack f ws → IsSmall (after f ws)
  after-IsSmall f [] small fits = small
  after-IsSmall f (put k v ∷ ws) small (h, h', there, back, fits) =
      after-IsSmall (update f k (some v)) ws
        (update-IsSmall f k (some v) small (λ u e. ground (arith, e))) fits
  after-IsSmall f (del k ∷ ws) small (there, back, fits) =
      after-IsSmall (update f k none) ws
        (update-IsSmall f k none small (λ u e. absurd (ground (arith, e)))) fits

  module _ (time : ℤ) where
    -- The last server answers a get.
    asks_last :
        (rtable : Rtable) (f : Map) (k : CString)
        → Crosses pack unpack (get_message k)
        → Crosses pack unpack (got (get_message k) (f k))
        → (replica : Replica) (rest : List Replica) → IsChain f (replica ∷ rest)
        → ReachesLast rtable (addresses (replica ∷ rest))
        → (left : List Replica) × (chain_ask pack unpack time
              (replica ∷ rest)
              rtable
              (get_message k)
            ≡ ok (some (got (get_message k) (f k)), left))
    unfolding chain_ask joined passed_by
    asks_last rtable f k there back replica [] (r, l, c) hit = (
      record replica { server = read_done time r.stats replica.server } ∷ [],
      rw hit (
          ap (λ e. e >>= joined pack unpack time replica)
            (ask-invoke pack unpack (chain_ask pack unpack time []) [] time replica.server rtable
              (get_message k) _ there back
              (invoke-get (chain_ask pack unpack time []) [] time (get_message k) r k refl refl)
              refl)),
    )
    asks_last rtable f k there back replica (next ∷ rest) (r, l, c) (miss, reached) =
        let (left, asks) = asks_last rtable f k there back next rest c reached in
        (replica ∷ left, rw miss (ap (λ e. e >>= passed_by pack unpack time replica) asks))

    read_tail-IsChain :
        (rtable : Rtable) (f : Map) (k : CString)
        → IsSmall f
        → Crosses pack unpack (get_message k)
        → Crosses pack unpack (got (get_message k) (f k))
        → (replica : Replica) (rest : List Replica) → IsChain f (replica ∷ rest)
        → ReachesLast rtable (addresses (replica ∷ rest))
        → read_tail pack unpack time rtable k (replica ∷ rest) ≡ ok (Option.map data_of (f k))
    unfolding read_tail
    read_tail-IsChain rtable f k small there back replica rest c reached =
        let (left, asks) = asks_last rtable f k there back replica rest c reached in
        ap (λ e. e >>= λ q. ok q.0)
          (rtable_get-get_message (chain_ask pack unpack time (replica ∷ rest)) (replica ∷ rest)
              rtable k
            ∙ ap (λ e. e >>= λ q. get_answer q.0 >>= λ d. ok (d, q.1)) asks
            ∙ ap (λ g. g >>= λ d. ok (d, left)) (get_answer-got k (f k) (small k)))

    -- A sequence of writes at the head leaves a chain that holds what the sequence makes of the map.
    pub write_all-after :
        (rtable : Rtable) (f : Map) (ws : List Write)
        → Fits pack unpack f ws
        → (replica : Replica) (rest : List Replica) → reaches rtable replica.address ≡ true
        → IsChain f (replica ∷ rest)
        → (head : Replica) × (behind : List Replica) × (write_all pack unpack time rtable ws
              (replica ∷ rest)
            ≡ ok (head ∷ behind))
          × IsChain (after f ws) (head ∷ behind)
          × (addresses (head ∷ behind) ≡ addresses (replica ∷ rest))
    unfolding write_all
    write_all-after rtable f [] fits replica rest hit c = (replica, rest, refl, c, refl)
    write_all-after rtable f (put k v ∷ ws) (h, h', there, back, fits) replica rest hit c =
        let (head, behind, puts, chain, same) =
          write_head-put pack unpack time rtable f replica rest hit c k v h h' there back in
        let hit' = ap (λ places. reaches rtable (first head.address places)) same ∙ hit in
        let (head', behind', writes, chain', same') =
          write_all-after rtable (update f k (some v)) ws fits head behind hit' chain in
        (
          head',
          behind',
          ap (λ e. e >>= λ q. write_all pack unpack time rtable ws q.1) puts ∙ writes,
          chain',
          same' ∙ same,
        )
    write_all-after rtable f (del k ∷ ws) (there, back, fits) replica rest hit c =
        let (head, behind, dels, chain, same) =
          write_head-del pack unpack time rtable f replica rest hit c k there back in
        let hit' = ap (λ places. reaches rtable (first head.address places)) same ∙ hit in
        let (head', behind', writes, chain', same') =
          write_all-after rtable (update f k none) ws fits head behind hit' chain in
        (
          head',
          behind',
          ap (λ e. e >>= λ q. write_all pack unpack time rtable ws q.1) dels ∙ writes,
          chain',
          same' ∙ same,
        )

    -- In a chain of servers that are linked in order by their addresses, hold the same map of
    -- blocks shorter than 2^31 and have free locks, for a client connected to the first address
    -- and to the last, which is at none of the others: after any sequence of puts and dels at the
    -- head, each put of at least one and fewer than 2^31 bytes, a get of a key at the tail returns
    -- the bytes that this sequence leaves under the key, or NULL if it leaves none, when each of
    -- these requests and answers packs into at most 2048 bytes, from which it is unpacked again.
    pub read_tail-write_all :
        (rtable_head rtable_tail : Rtable) (f : Map) (ws : List Write)
        → IsSmall f
        → Fits pack unpack f ws
        → (replica : Replica) (rest : List Replica) → reaches rtable_head replica.address ≡ true
        → ReachesLast rtable_tail (addresses (replica ∷ rest))
        → IsChain f (replica ∷ rest)
        → (k : CString) → Crosses pack unpack (get_message k)
        → Crosses pack unpack (got (get_message k) (after f ws k))
        → (write_all pack unpack time rtable_head ws (replica ∷ rest)
            >>= read_tail pack unpack time rtable_tail k)
          ≡ ok (Option.map data_of (after f ws k))
    read_tail-write_all rtable_head rtable_tail f ws small fits replica rest hit last c k there
          back =
        let (head, behind, writes, chain, same) =
          write_all-after rtable_head f ws fits replica rest hit c in
        ap (λ e. e >>= read_tail pack unpack time rtable_tail k) writes
        ∙ read_tail-IsChain rtable_tail (after f ws) k (after-IsSmall f ws small fits) there back
            head behind chain (subst (ReachesLast rtable_tail) (sym same) last)
