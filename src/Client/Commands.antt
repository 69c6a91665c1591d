-- ===== src/Client/Commands.antt =====
-- The loop of source/table_client.c: a line that the user types, the call of the client stub it
-- stands for, and what is printed. `head_exchange` and `tail_exchange` carry a message to the two
-- ends of the chain; `linked` tells whether all three flags of the connections are set.
pub mod Typed
pub mod Session
use sd_projeto.Base.{
  zero, suc, endless, uninitialised, ℕ, ℤ, pos, minus_one, ltb_ℤ, ◌==ℤ◌, ◌==◌, Bool, true, false,
  not, List, [], ◌∷◌, Option, none, some, Run, ok, fault, out_of_bounds, ◌>>=◌, deref, length,
  if◌then◌else◌,
}
use sd_projeto.CString.{CString}
use sd_projeto.Data.{Bytes, Data, data_create, data_dup}
use sd_projeto.Entry.{Entry, entry_create}
use sd_projeto.EntryList.{KeyArray}
use sd_projeto.Table.{EntryArray}
use sd_projeto.Stats.{Statistics}
use sd_projeto.Message.{MessageT}
use sd_projeto.Stub.{
  Rtable, rtable_put, rtable_get, rtable_del, rtable_size, rtable_get_keys, rtable_get_table,
  rtable_stats, rtable_free_keys, rtable_free_entries,
}
use sd_projeto.Client.{
  Operation, put, get, del, size, getkeys, gettable, quit, stats, invalid, parse_operation,
}

-- What is printed.
pub data Output : Type 0 where
  usage_put usage_get usage_del invalid_command bye : Output
  get_failed del_failed size_failed keys_failed table_failed stats_failed : Output
  added put_failed : CString → Output
  value : Data → Output
  removed : Output
  table_size : ℤ → Output
  keys : List CString → Output
  entries : List (Option CString × Data) → Output
  statistics : Statistics → Output

-- The bytes before the next delimiter, and those behind it.
pub word : (delimiter : ℕ) → CString → CString
word d [] = []
word d (b ∷ s) = if b == d then [] else b ∷ word d s

pub behind : (delimiter : ℕ) → CString → CString
behind d [] = []
behind d (b ∷ s) = if b == d then s else behind d s

-- `strtok` with one delimiter: the next word, if there is one, and what is kept for the next call.
pub strtok : (delimiter : ℕ) → CString → Option CString × CString
strtok d [] = (none, [])
strtok d (b ∷ s) = if b == d then strtok d s else (some (word d (b ∷ s)), behind d (b ∷ s))

-- `strtok(string, "\n")`, which goes on with what is kept if the string is NULL.
pub strtok_line : Option CString → CString → Option CString
strtok_line (some s) kept = (strtok 10 s).0
strtok_line none kept = (strtok 10 kept).0

-- At most `n` bytes, up to the end of the line; and what follows them.
fgets_loop : (n : ℕ) → CString → CString × CString
fgets_loop zero stdin = ([], stdin)
fgets_loop (suc n) [] = ([], [])
fgets_loop (suc n) (b ∷ stdin) =
    let (line, rest) = fgets_loop n stdin in if b == 10 then (b ∷ [], stdin) else (b ∷ line, rest)

-- `fgets(line, 99, stdin)`. Its result is not tested: at the end of the input nothing is read, and
-- `line` is used as it is.
read_line : CString → Run (CString × CString)
read_line [] = fault uninitialised
read_line (b ∷ stdin) = ok (fgets_loop 98 (b ∷ stdin))

module _ {W : Type 0}
    (head_exchange tail_exchange : W → Rtable → MessageT → Run (Option MessageT × W))
    (rtable_head rtable_tail : Rtable) where
  unfoldable pub put_told : CString → ℤ × W → Run (Output × W)
  put_told key (ret, world) = ok (if ret ==ℤ pos 0 then added key else put_failed key, world)

  pub run_put : Option CString → Option CString → W → Run (Output × W)
  run_put (some key) (some bytes) world = do
    copy ← data_dup (data_create (pos (length bytes)) (some bytes))
    entry ← deref (entry_create (some key) copy)
    r ← rtable_put (head_exchange world) world (some rtable_head) entry
    put_told key r
  run_put _ _ world = ok (usage_put, world)

  pub get_told : Option Data × W → Run (Output × W)
  get_told (none, world) = ok (get_failed, world)
  get_told (some d, world) = ok (value d, world)

  pub run_get : Option CString → W → Run (Output × W)
  run_get none world = ok (usage_get, world)
  run_get (some key) world =
      rtable_get (tail_exchange world) world (some rtable_tail) key >>= get_told

  pub del_told : ℤ × W → Run (Output × W)
  del_told (ret, world) = ok (if ret ==ℤ pos 0 then removed else del_failed, world)

  pub run_del : Option CString → W → Run (Output × W)
  run_del none world = ok (usage_del, world)
  run_del (some key) world =
      rtable_del (head_exchange world) world (some rtable_head) key >>= del_told

  size_told : ℤ × W → Run (Output × W)
  size_told (n, world) = ok (if ltb_ℤ n (pos 0) then size_failed else table_size n, world)

  -- The keys before the NULL.
  until_null : KeyArray → Run (List CString)
  until_null [] = fault out_of_bounds
  until_null (none ∷ rest) = ok []
  until_null (some key ∷ rest) = do printed ← until_null rest; ok (key ∷ printed)

  keys_told : Option KeyArray × W → Run (Output × W)
  keys_told (none, world) = ok (keys_failed, world)
  keys_told (some key_array, world) = do
    printed ← until_null key_array
    freed ← rtable_free_keys key_array
    ok (keys printed, world)

  rows : EntryArray → Run (List (Option CString × Data))
  rows [] = fault out_of_bounds
  rows (none ∷ rest) = ok []
  rows (some entry ∷ rest) = do
    d ← deref entry.value
    printed ← rows rest
    ok ((entry.key, d) ∷ printed)

  table_told : Option EntryArray × W → Run (Output × W)
  table_told (none, world) = ok (table_failed, world)
  table_told (some entry_array, world) = do
    printed ← rows entry_array
    freed ← rtable_free_entries entry_array
    ok (entries printed, world)

  stats_told : Option Statistics × W → Run (Output × W)
  stats_told (none, world) = ok (stats_failed, world)
  stats_told (some s, world) = ok (statistics s, world)

  -- `kept` is what stands behind the word of the operation.
  pub run_operation : Operation → CString → W → Run (Output × W)
  run_operation put kept world =
      let (key, kept') = strtok 32 kept in
      let (data_temp, kept'') = strtok 32 kept' in run_put key (strtok_line data_temp kept'') world
  run_operation get kept world =
      let (key_temp, kept') = strtok 32 kept in run_get (strtok_line key_temp kept') world
  run_operation del kept world =
      let (key_temp, kept') = strtok 32 kept in run_del (strtok_line key_temp kept') world
  run_operation size kept world =
      rtable_size (tail_exchange world) world (some rtable_tail) >>= size_told
  run_operation getkeys kept world =
      rtable_get_keys (tail_exchange world) world (some rtable_tail) >>= keys_told
  run_operation gettable kept world =
      rtable_get_table (tail_exchange world) world (some rtable_tail) >>= table_told
  run_operation stats kept world =
      rtable_stats (tail_exchange world) world (some rtable_tail) >>= stats_told
  run_operation quit kept world = ok (bye, world)
  run_operation invalid kept world = ok (invalid_command, world)

  -- The line that is read, and what is left of the input.
  pub run_line : (stdin : CString) → W → Run ((Output × W) × CString)
  run_line stdin world = do
    (line, rest) ← read_line stdin
    operation ← parse_operation line
    r ← run_operation operation (strtok 32 line).1 world
    ok (r, rest)

  is_quit : Operation → Bool
  is_quit quit = true
  is_quit _ = false

  -- The loop, for all that is typed; what was printed.
  pub run_lines : (rounds : ℕ) → (linked : W → Bool) → (stdin : CString) → W → Run (List Output × W)
  run_lines zero linked stdin world = fault endless
  run_lines (suc rounds) linked stdin world = if not (linked world) then ok ([], world) else do
    (line, rest) ← read_line stdin
    operation ← parse_operation line
    (printed, world') ← run_operation operation (strtok 32 line).1 world
    if is_quit operation
        then ok (printed ∷ [], world')
        else do (more, world'') ← run_lines rounds linked rest world'; ok (printed ∷ more, world'')
