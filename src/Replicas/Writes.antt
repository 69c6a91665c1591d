-- ===== src/Replicas/Writes.antt =====
-- What one write to the head leaves of every server of the chain.
use sd_projeto.Base.{
  ◌>>=◌, ltb_ℤ, ◌^◌, ◌<◌, ◌≡◌, ◌∙◌, refl, ap, ℤ, pos, minus_one, true, false, List, [], ◌∷◌, Option,
  none, some, is_some, ok, length, if◌then◌else◌,
}
use sd_projeto.CString.{CString}
use sd_projeto.Data.{Bytes}
use sd_projeto.Message.{MessageT}
use sd_projeto.Message.CType
use sd_projeto.Stub.{Rtable, put_answer, del_answer}
use sd_projeto.Stub.Requests.{
  put_message, del_message, rtable_put-put_message, rtable_del-del_message,
}
use sd_projeto.Stub.Answers.{put_answer-done, del_answer-done}
use sd_projeto.Table.{Table}
use sd_projeto.Table.Methods.{Map, Models, update}
use sd_projeto.Skel.{Server, has_next}
use sd_projeto.Stats.{Statistics}
use sd_projeto.Skel.Sections.{Ready, write_done, write_done-Ready}
use sd_projeto.Skel.Invoke.{invoke}
use sd_projeto.Skel.Invoke.Writes.{Linked, Passed, invoke-put, invoke-del}
use sd_projeto.Serve.Calls.{put_done, del_done, not_negative}
use sd_projeto.Serve.Transport.{Crosses, ask-invoke}
use sd_projeto.Replicas.{Replica, reaches, chain_ask, joined, put, del, write_head}

-- The server has a connection that reaches the one behind it, or none if it is the last.
abbrev pub IsLinked : Server → List Replica → Type 0
IsLinked server [] = Linked none server
IsLinked server (next ∷ rest) =
    (rtable : Rtable) × Linked (some rtable) server × (reaches rtable next.address ≡ true)

-- Every server holds the map `f`, its locks are free, and it is linked to the one behind it.
abbrev pub IsChain : Map → List Replica → Type 0
IsChain f [] = Unit
IsChain f (replica ∷ rest) = Ready f replica.server × IsLinked replica.server rest × IsChain f rest

abbrev pub addresses : List Replica → List (CString × ℤ)
addresses [] = []
addresses (replica ∷ rest) = replica.address ∷ addresses rest

abbrev pub first : CString × ℤ → List (CString × ℤ) → CString × ℤ
first a [] = a
first a (b ∷ bs) = b

Linked-write_done :
    (time : ℤ) (stats : Statistics) (table : Option Table) (server : Server) (next : Option Rtable)
    → Linked next server
    → Linked next (write_done time stats table server)
unfolding has_next
Linked-write_done time stats table server none l = l
Linked-write_done time stats table server (some rtable) l = l

-- A request `m` that a server answers by `a`, that turns the map `f` into `g`, and that is passed on.
module _ (pack : MessageT → Bytes) (unpack : Bytes → Option MessageT) (time : ℤ) (f g : Map)
    (m a : MessageT) (there : Crosses pack unpack m) (back : Crosses pack unpack a)
    (acts : (rest : List Replica) (server : Server) (r : Ready f server) (next : Option Rtable)
      → Linked next server
      → (left : List Replica) → Passed (chain_ask pack unpack time rest) rest next m left
      → (t : Table) × (res : ℤ) × (invoke (chain_ask pack unpack time rest) rest time m server
          ≡ ok (record {
            res = res;
            msg = a;
            server = write_done time r.stats (some t) server;
            world = left;
          }))
        × (ltb_ℤ res (pos 0) ≡ false)
        × Models g t) where
  asks_one :
      (rest : List Replica) (rtable : Rtable) (replica : Replica)
      → reaches rtable replica.address ≡ true
      → (r : Ready f replica.server) (next : Option Rtable) → Linked next replica.server
      → (left : List Replica) → Passed (chain_ask pack unpack time rest) rest next m left
      → (t : Table) × (chain_ask pack unpack time (replica ∷ rest) rtable m
          ≡ ok (
            some a,
            record replica { server = write_done time r.stats (some t) replica.server } ∷ left,
          ))
        × Models g t
  unfolding chain_ask joined
  asks_one rest rtable replica hit r next l left passed =
      let (t, res, runs, done, models) = acts rest replica.server r next l left passed in
      (
        t,
        rw hit (
            ap (λ e. e >>= joined pack unpack time replica)
              (ask-invoke pack unpack (chain_ask pack unpack time rest) rest time replica.server
                rtable m _ there back runs done)),
        models,
      )

  pub asks_along :
      (rtable : Rtable) (replica : Replica) (rest : List Replica)
      → reaches rtable replica.address ≡ true
      → IsChain f (replica ∷ rest)
      → (head : Replica) × (behind : List Replica) × (chain_ask pack unpack time
            (replica ∷ rest)
            rtable
            m
          ≡ ok (some a, head ∷ behind))
        × IsChain g (head ∷ behind)
        × (addresses (head ∷ behind) ≡ addresses (replica ∷ rest))
  asks_along rtable replica [] hit (r, l, c) =
      let (t, asks, models) = asks_one [] rtable replica hit r none l [] refl in
      (
        _,
        [],
        asks,
        (
          write_done-Ready r time models,
          Linked-write_done time r.stats (some t) replica.server none l,
          tt,
        ),
        refl,
      )
  asks_along rtable replica (next ∷ rest) hit (r, (to, l, reached), c) =
      let (head, behind, passed, chain, same) = asks_along to next rest reached c in
      let (t, asks, models) =
        asks_one (next ∷ rest) rtable replica hit r (some to) l (head ∷ behind) (some a, passed) in
      (
        _,
        head ∷ behind,
        asks,
        (
          write_done-Ready r time models,
          (
            to,
            Linked-write_done time r.stats (some t) replica.server (some to) l,
            ap (λ places. reaches to (first head.address places)) same ∙ reached,
          ),
          chain,
        ),
        ap (λ places. replica.address ∷ places) same,
      )

module _ (pack : MessageT → Bytes) (unpack : Bytes → Option MessageT) (time : ℤ) (rtable : Rtable)
    (f : Map) (replica : Replica) (rest : List Replica)
    (hit : reaches rtable replica.address ≡ true) (c : IsChain f (replica ∷ rest)) where
  -- A put at the head returns 0 and updates the map of every server.
  pub write_head-put :
      (k : CString) (v : Bytes)
      → 0 < length v
      → length v < 2 ^ 31
      → Crosses pack unpack (put_message k v)
      → Crosses pack unpack (put_done k v)
      → (head : Replica) × (behind : List Replica) × (write_head pack unpack time rtable
            (put k v)
            (replica ∷ rest)
          ≡ ok (pos 0, head ∷ behind))
        × IsChain (update f k (some v)) (head ∷ behind)
        × (addresses (head ∷ behind) ≡ addresses (replica ∷ rest))
  unfolding write_head
  write_head-put k v h small there back =
      let m = put_message k v in
      let (head, behind, asks, chain, same) =
        asks_along pack unpack time f (update f k (some v)) m (put_done k v) there back
          (λ rest server r next l left passed.
            let (t, runs, models) =
              invoke-put (chain_ask pack unpack time rest) rest time m server r next l k v h small
                refl refl left passed in
            (t, pos 0, runs, refl, models))
          rtable replica rest hit c in
      (
        head,
        behind,
        rtable_put-put_message (chain_ask pack unpack time (replica ∷ rest)) (replica ∷ rest) rtable
              k v
            ∙ ap (λ e. e >>= λ q. ok (put_answer q.0, q.1)) asks
            ∙ ap (λ z. ok (z, head ∷ behind)) (put_answer-done m CType.nothing),
        chain,
        same,
      )

  -- A del at the head returns 0 if the key was there and -1 if not, and removes it from every server.
  pub write_head-del :
      (k : CString)
      → Crosses pack unpack (del_message k)
      → Crosses pack unpack (del_done k (is_some (f k)))
      → (head : Replica) × (behind : List Replica) × (write_head pack unpack time rtable
            (del k)
            (replica ∷ rest)
          ≡ ok ((if is_some (f k) then pos 0 else minus_one), head ∷ behind))
        × IsChain (update f k none) (head ∷ behind)
        × (addresses (head ∷ behind) ≡ addresses (replica ∷ rest))
  unfolding write_head
  write_head-del k there back =
      let m = del_message k in
      let (head, behind, asks, chain, same) =
        asks_along pack unpack time f (update f k none) m (del_done k (is_some (f k))) there back
          (λ rest server r next l left passed.
            let (t, runs, models) =
              invoke-del (chain_ask pack unpack time rest) rest time m server r next l k refl refl
                left passed in
            (
              t,
              (if is_some (f k) then pos 0 else pos 1),
              runs,
              not_negative (is_some (f k)),
              models,
            ))
          rtable replica rest hit c in
      (
        head,
        behind,
        rtable_del-del_message (chain_ask pack unpack time (replica ∷ rest)) (replica ∷ rest) rtable
              k
            ∙ ap (λ e. e >>= λ q. ok (del_answer q.0, q.1)) asks
            ∙ ap (λ z. ok (z, head ∷ behind)) (del_answer-done m (is_some (f k))),
        chain,
        same,
      )
