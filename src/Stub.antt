-- ===== src/Stub.antt =====
-- source/client_stub.c and include/client_stub.h: the calls of a remote table. The exchange of one
-- request for its answer, `network_send_receive` of source/network_client.c, is a parameter: it
-- answers with a message, or NULL, and with the state that it leaves of all that lies behind the
-- connection, the flag `connected` among it, or ends in a fault.
pub mod Requests
pub mod Answers
pub mod Entries
use sd_projeto.Base.{
  ℕ, ◌+◌, ℤ, pos, negsuc, minus_one, ◌==◌, Bool, true, false, ◌&&◌, not, List, [], ◌∷◌, Option,
  none, some, is_some, Run, ok, fault, null_pointer, out_of_bounds, ◌>>=◌, ◌>>◌, deref, at, write,
  memcpy, length, replicate, to_int, ltb, Flow, go, return, for_range, if◌then◌else◌,
}
use sd_projeto.CString.{CString}
use sd_projeto.Data.{Bytes, Data}
use sd_projeto.Entry.{Entry}
use sd_projeto.EntryList.{KeyArray}
use sd_projeto.Table.{EntryArray}
use sd_projeto.Stats.{Statistics}
use sd_projeto.Message.{MessageT, EntryT, Binary, message_init}
use sd_projeto.Message.Opcode
use sd_projeto.Message.CType

-- `struct rtable_t`
pub record Rtable : Type 0 where
  pub server_address : CString
  pub server_port : ℤ
  pub sockfd : ℤ

-- An `int` as the `size_t` of a block. A negative one is larger than any block.
unfoldable pub size_of : ℤ → Run ℕ
size_of (pos n) = ok n
size_of (negsuc n) = fault out_of_bounds

-- `malloc` and `memcpy` of a block with its length.
pub pack_data : Data → Run Binary
pack_data d = do
  len ← size_of d.datasize
  src ← deref d.content
  copy ← memcpy src len
  ok (record { len = len; content = some copy })

-- The length is kept in an `int`, which is also the size of the new block.
pub unpack_data : Binary → Run Data
unpack_data b = do
  let datasize = to_int b.len
  room ← size_of datasize
  src ← deref b.content
  copy ← if ltb room b.len then fault out_of_bounds else memcpy src b.len
  ok (record { datasize = datasize; content = some copy })

pub refused : MessageT → Bool
refused res = res.opcode == Opcode.error && res.c_type == CType.nothing

pub put_request : Entry → Run MessageT
put_request entry = do
  key ← deref entry.key
  d ← deref entry.value
  value ← pack_data d
  ok (record message_init {
    opcode = Opcode.put;
    c_type = CType.entry;
    entry = some (record { key = some key; value = value });
  })

pub put_answer : Option MessageT → ℤ
put_answer none = minus_one
put_answer (some res) =
    if res.opcode == Opcode.bad then minus_one else if refused res then minus_one else pos 0

get_request : CString → MessageT
get_request key = record message_init { opcode = Opcode.get; c_type = CType.key; key = some key }

pub get_answer : Option MessageT → Run (Option Data)
get_answer none = ok none
get_answer (some res) =
    if res.opcode == Opcode.bad
    then ok none
    else if refused res
    then ok none
    else if not (is_some res.value.content)
    then ok none
    else do d ← unpack_data res.value; ok (some d)

del_request : CString → MessageT
del_request key = record message_init { opcode = Opcode.del; c_type = CType.key; key = some key }

pub del_answer : Option MessageT → ℤ
del_answer none = minus_one
del_answer (some res) =
    if res.opcode == Opcode.bad
    then minus_one
    else if refused res
    then minus_one
    else if res.c_type == CType.bad
    then minus_one
    else pos 0

request : ℕ → MessageT
request opcode = record message_init { opcode = opcode; c_type = CType.nothing }

pub size_answer : Option MessageT → ℤ
size_answer none = minus_one
size_answer (some res) = if refused res then minus_one else res.result

pub copy_key : Option KeyArray → ℕ → KeyArray → Run (Flow KeyArray (Unit {0}))
copy_key keys i key_arr = do
  from ← deref keys
  place ← at from i
  key ← deref place
  key_arr' ← write key_arr i (some key)
  ok (go key_arr')

pub ended {ℓ} : {A R : Type ℓ} → ℕ → Flow (List (Option A)) R → Run (Option (List (Option A)))
ended n (go arr) = do arr' ← write arr n none; ok (some arr')
ended n (return u) = ok none

pub keys_answer : Option MessageT → Run (Option KeyArray)
keys_answer none = ok none
keys_answer (some res) = if refused res then ok none else do
  key_arr ← for_range res.n_keys 0 (copy_key res.keys) (replicate (res.n_keys + 1) none)
  ended res.n_keys key_arr

copy_entry : Option (List (Option EntryT)) → ℕ → EntryArray → Run (Flow EntryArray (Unit {0}))
copy_entry entries i entry_arr = do
  from ← deref entries
  place ← at from i
  entry ← deref place
  key ← deref entry.key
  value ← unpack_data entry.value
  entry_arr' ← write entry_arr i (some (record { key = some key; value = some value }))
  ok (go entry_arr')

pub table_answer : Option MessageT → Run (Option EntryArray)
table_answer none = ok none
table_answer (some res) = if refused res then ok none else do
  entry_arr ←
      for_range res.n_entries 0 (copy_entry res.entries) (replicate (res.n_entries + 1) none)
  ended res.n_entries entry_arr

stats_answer : Option MessageT → Run (Option Statistics)
stats_answer none = ok none
stats_answer (some res) =
    if refused res then ok none else do stats ← deref res.stats; ok (some stats)

-- The keys before NULL are freed; reading on behind the array is a fault.
pub rtable_free_keys : KeyArray → Run (Unit {0})
rtable_free_keys [] = fault out_of_bounds
rtable_free_keys (none ∷ rest) = ok tt
rtable_free_keys (some key_ptr ∷ rest) = rtable_free_keys rest

-- The entries before NULL, whose values are read to free what they hold.
pub rtable_free_entries : EntryArray → Run (Unit {0})
rtable_free_entries [] = fault out_of_bounds
rtable_free_entries (none ∷ rest) = ok tt
rtable_free_entries (some entry_ptr ∷ rest) = do
  value ← deref entry_ptr.value
  rtable_free_entries rest

module _ {W : Type 0} (exchange : Rtable → MessageT → Run (Option MessageT × W)) (world : W) where
  unfoldable pub rtable_put : Option Rtable → Entry → Run (ℤ × W)
  unfolding put_request put_answer refused pack_data size_of memcpy
  rtable_put none entry = ok (minus_one, world)
  rtable_put (some rtable) entry = do
    msg ← put_request entry
    (res, world') ← exchange rtable msg
    ok (put_answer res, world')

  unfoldable pub rtable_get : Option Rtable → CString → Run (Option Data × W)
  unfolding get_request get_answer refused unpack_data memcpy
  rtable_get none key = ok (none, world)
  rtable_get (some rtable) key = do
    (res, world') ← exchange rtable (get_request key)
    d ← get_answer res
    ok (d, world')

  -- The pointer is not tested before it is read.
  unfoldable pub rtable_del : Option Rtable → CString → Run (ℤ × W)
  unfolding del_request del_answer refused
  rtable_del r key = do
    rtable ← deref r
    (res, world') ← exchange rtable (del_request key)
    ok (del_answer res, world')

  unfoldable pub rtable_size : Option Rtable → Run (ℤ × W)
  unfolding request size_answer refused
  rtable_size none = ok (minus_one, world)
  rtable_size (some rtable) = do
    (res, world') ← exchange rtable (request Opcode.size)
    ok (size_answer res, world')

  unfoldable pub rtable_get_keys : Option Rtable → Run (Option KeyArray × W)
  unfolding request keys_answer copy_key ended refused for_range write at
  rtable_get_keys none = ok (none, world)
  rtable_get_keys (some rtable) = do
    (res, world') ← exchange rtable (request Opcode.getkeys)
    keys ← keys_answer res
    ok (keys, world')

  unfoldable pub rtable_get_table : Option Rtable → Run (Option EntryArray × W)
  unfolding request table_answer copy_entry unpack_data ended refused for_range write at memcpy
  rtable_get_table none = ok (none, world)
  rtable_get_table (some rtable) = do
    (res, world') ← exchange rtable (request Opcode.gettable)
    entries ← table_answer res
    ok (entries, world')

  unfoldable pub rtable_stats : Option Rtable → Run (Option Statistics × W)
  unfolding request stats_answer refused
  rtable_stats none = ok (none, world)
  rtable_stats (some rtable) = do
    (res, world') ← exchange rtable (request Opcode.stats)
    stats ← stats_answer res
    ok (stats, world')
