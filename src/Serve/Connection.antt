-- ===== src/Serve/Connection.antt =====
-- The requests of one connection, one after the other.
pub mod Clients
use mathlib.Core.Path.{subst}
use sd_projeto.Base.{
  ℕ, suc, ◌+◌, ◌^◌, ◌<◌, ◌≡◌, ◌∙◌, refl, sym, ap, ℤ, pos, negsuc, minus_one, ltb_ℤ, ◌+ℤ◌, true,
  false, List, [], ◌∷◌, ◌++◌, Bool, fault, map, Option, none, some, is_some, Run, ok, ◌>>=◌, arith,
  length, if◌then◌else◌,
}
use sd_projeto.CString.{CString}
use sd_projeto.Data.{Bytes}
use sd_projeto.Message.{MessageT}
use sd_projeto.Mutex.Free.{enter_write-IsFree, write_over, write_over-IsFree}
use sd_projeto.Stats.{Statistics, change_client_num}
use sd_projeto.Stub.{Rtable}
use sd_projeto.Stub.Requests.{put_message, get_message, del_message}
use sd_projeto.Table.{Table}
use sd_projeto.Table.Methods.{Map, update}
use sd_projeto.Skel.{Server, Outcome, has_next}
use sd_projeto.Skel.Sections.{Ready, read_done, write_done, read_done-Ready, write_done-Ready}
use sd_projeto.Skel.Invoke.{invoke}
use sd_projeto.Skel.Invoke.Reads.{invoke-get}
use sd_projeto.Skel.Invoke.Writes.{Linked, Passed, invoke-put, invoke-del}
use sd_projeto.Serve.{plain, answer_of, serve_request, serve_loop, change_clients, serve_conn}
use sd_projeto.Serve.Calls.{not_negative}

-- what a client asks of a server
pub data Call : Type 0 where
  put : CString → Bytes → Call
  get : CString → Call
  del : CString → Call

abbrev pub message : Call → MessageT
message (put k v) = put_message k v
message (get k) = get_message k
message (del k) = del_message k

abbrev pub effect : Map → Call → Map
effect f (put k v) = update f k (some v)
effect f (get k) = f
effect f (del k) = update f k none

abbrev pub effects : Map → List Call → Map
effects f [] = f
effects f (c ∷ cs) = effects (effect f c) cs

-- The blocks have at least one byte, and a length that an `int` holds.
abbrev pub Fits : List Call → Type 0
Fits [] = Unit
Fits (put k v ∷ cs) = (0 < length v) × (length v < 2 ^ 31) × Fits cs
Fits (get k ∷ cs) = Fits cs
Fits (del k ∷ cs) = Fits cs

-- The messages of the calls; each answer is sent, in a positive number of bytes.
abbrev pub received : ℕ → List Call → List (MessageT × ℤ)
received n [] = []
received n (c ∷ cs) = (message c, pos (suc n)) ∷ received n cs

abbrev pub clients_of : Option Statistics → ℤ
clients_of none = pos 0
clients_of (some stats) = stats.n_clientes

-- The server holds the map, is linked to `next`, and counts `n` clients.
abbrev pub Serving : Map → Option Rtable → ℤ → Server → Type 0
Serving f next n server = Ready f server × Linked next server × (clients_of server.global_stats ≡ n)

-- The link does not depend on the table, the counters and the locks.
Linked-write_done :
    (time : ℤ) (stats : Statistics) (table : Option Table) (server : Server) (next : Option Rtable)
    → Linked next server
    → Linked next (write_done time stats table server)
unfolding has_next
Linked-write_done time stats table server none l = l
Linked-write_done time stats table server (some rtable) l = l

Linked-read_done :
    (time : ℤ) (stats : Statistics) (server : Server) (next : Option Rtable)
    → Linked next server
    → Linked next (read_done time stats server)
unfolding has_next
Linked-read_done time stats server none l = l
Linked-read_done time stats server (some rtable) l = l

Fits-first : (c : Call) (cs : List Call) → Fits (c ∷ cs) → Fits (c ∷ [])
Fits-first (put k v) cs (h, h', _) = (h, h', tt)
Fits-first (get k) cs h = tt
Fits-first (del k) cs h = tt

Fits-rest : (c : Call) (cs : List Call) → Fits (c ∷ cs) → Fits cs
Fits-rest (put k v) cs (_, _, h) = h
Fits-rest (get k) cs h = h
Fits-rest (del k) cs h = h

is_sent : (n : ℕ) → ltb_ℤ (pos 0) (pos (suc n)) ≡ true
is_sent n = ground arith

module _ {W : Type 0} (exchange : Rtable → MessageT → Option MessageT × W) (time : ℤ)
    (next : Option Rtable) (n : ℤ) where
  -- what is left behind the connection to the next server
  passed_on : W → Option Rtable → MessageT → W
  passed_on world none m = world
  passed_on world (some to) m = (exchange to m).1

  passed :
      (to : Option Rtable) (m : MessageT) (world : W)
      → Passed (plain exchange) world to m (passed_on world to m)
  unfolding passed_on
  passed none m world = refl
  passed (some to) m world = ((exchange to m).0, refl)

  -- what one request leaves
  abbrev Served : Map → MessageT → Server × W → Type 0
  Served g msg s =
      (answer : MessageT) × (server' : Server) × (world' : W) × (serve_request (plain exchange) time
          msg s
        ≡ ok (some answer, (server', world')))
      × Serving g next n server'

  serve_request-invoke :
      (msg : MessageT) (server : Server) (world : W) (o : Outcome W)
      → invoke (plain exchange) world time msg server ≡ ok o
      → ltb_ℤ o.res (pos 0) ≡ false
      → serve_request (plain exchange) time msg (server, world)
        ≡ ok (some o.msg, (o.server, o.world))
  unfolding serve_request answer_of
  serve_request-invoke msg server world o runs done = rw (runs, done) refl

  serve_call :
      (f : Map) (c : Call)
      → Fits (c ∷ [])
      → (server : Server) (world : W) → Serving f next n server
      → Served (effect f c) (message c) (server, world)
  serve_call f (put k v) (h, h', _) server world (r, l, clients) =
      let (t, runs, models) =
        invoke-put (plain exchange) world time (put_message k v) server r next l k v h h' refl refl
          (passed_on world next (put_message k v)) (passed next (put_message k v) world) in
      (
        _,
        _,
        _,
        serve_request-invoke (put_message k v) server world _ runs refl,
        (
          write_done-Ready r time models,
          Linked-write_done time r.stats (some t) server next l,
          sym (ap clients_of r.its_stats) ∙ clients,
        ),
      )
  serve_call f (get k) fits server world (r, l, clients) = (
    _,
    _,
    _,
    serve_request-invoke (get_message k) server world _
        (invoke-get (plain exchange) world time (get_message k) r k refl refl) refl,
    (
      read_done-Ready r time,
      Linked-read_done time r.stats server next l,
      sym (ap clients_of r.its_stats) ∙ clients,
    ),
  )
  serve_call f (del k) fits server world (r, l, clients) =
      let (t, runs, models) =
        invoke-del (plain exchange) world time (del_message k) server r next l k refl refl
          (passed_on world next (del_message k)) (passed next (del_message k) world) in
      (
        _,
        _,
        _,
        serve_request-invoke (del_message k) server world _ runs (not_negative (is_some (f k))),
        (
          write_done-Ready r time models,
          Linked-write_done time r.stats (some t) server next l,
          sym (ap clients_of r.its_stats) ∙ clients,
        ),
      )

  -- These answers are sent before what the loop still does.
  abbrev pub before :
      List MessageT → (List MessageT × ℕ) × (Server × W) → Run ((List MessageT × ℕ) × (Server × W))
  before answers ((more, closes), s) = ok ((answers ++ more, closes), s)

  -- what the calls leave of the connection's loop
  abbrev pub LoopDone :
      Bool → Map → List Call → List (MessageT × ℤ) → List (MessageT × ℤ) → Server × W → Type 0
  LoopDone terminated g cs requests later s =
      (answers : List MessageT) × (server' : Server) × (world' : W) × (serve_loop (plain exchange)
          time terminated (requests ++ later) s
        ≡ serve_loop (plain exchange) time terminated later (server', world') >>= before answers)
      × ((length answers ≡ length cs) × Serving g next n server')

  serve_loop-cons :
      (terminated : Bool) (bytes : ℕ) (msg : MessageT) (later : List (MessageT × ℤ))
      (s : Server × W) (answer : MessageT) (s' : Server × W)
      → serve_request (plain exchange) time msg s ≡ ok (some answer, s')
      → serve_loop (plain exchange) time terminated ((msg, pos (suc bytes)) ∷ later) s
        ≡ serve_loop (plain exchange) time terminated later s' >>= before (answer ∷ [])
  unfolding serve_loop
  serve_loop-cons terminated bytes msg later s answer s' once = rw (once, is_sent bytes) refl

  before-before :
      (answer : MessageT) (answers : List MessageT) (run : Run ((List MessageT × ℕ) × (Server × W)))
      → (run >>= before answers) >>= before (answer ∷ []) ≡ run >>= before (answer ∷ answers)
  before-before answer answers (ok r) = refl
  before-before answer answers (fault e) = refl

  before-none : (run : Run ((List MessageT × ℕ) × (Server × W))) → run ≡ run >>= before []
  before-none (ok r) = refl
  before-none (fault e) = refl

  pub serve_calls :
      (terminated : Bool) (bytes : ℕ) (f : Map) (cs : List Call)
      → Fits cs
      → (later : List (MessageT × ℤ)) (server : Server) (world : W) → Serving f next n server
      → LoopDone terminated (effects f cs) cs (received bytes cs) later (server, world)
  serve_calls terminated bytes f [] fits later server world s = (
    [],
    server,
    world,
    before-none (serve_loop (plain exchange) time terminated later (server, world)),
    (refl, s),
  )
  serve_calls terminated bytes f (c ∷ cs) fits later server world s =
      let (answer, server', world', once, s') =
        serve_call f c (Fits-first c cs fits) server world s in
      let (answers, server'', world'', rest, (same, s'')) =
        serve_calls terminated bytes (effect f c) cs (Fits-rest c cs fits) later server' world'
          s' in
      (
        answer ∷ answers,
        server'',
        world'',
        serve_loop-cons terminated bytes (message c) (received bytes cs ++ later) (server, world)
              answer (server', world') once
            ∙ ap (λ run. run >>= before (answer ∷ [])) rest
            ∙ before-before answer answers
                (serve_loop (plain exchange) time terminated later (server'', world'')),
        (ap suc same, s''),
      )
