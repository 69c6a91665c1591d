-- ===== src/Stub/Entries.antt =====
-- How the array of entries that an answer carries is copied, and freed.
use mathlib.Core.List.{append_assoc}
use sd_projeto.Base.{
  ℕ, suc, ◌+◌, ◌^◌, ◌%◌, ◌<◌, ◌≡◌, refl, pos, to_unsigned, List, [], ◌∷◌, ◌++◌, map, Option, none,
  some, ok, go, arith, length, replicate, for_range, at-append, write-append, length-append,
  length-map,
}
use sd_projeto.Entry.Order.{entry_of}
use sd_projeto.EntryList.Assoc.{Assoc}
use sd_projeto.Message.{MessageT, EntryT}
use sd_projeto.Message.Opcode
use sd_projeto.Table.{EntryArray}
use sd_projeto.Table.Whole.{entries_of}
use sd_projeto.Stub.{table_answer, copy_entry, ended, refused, rtable_free_entries}
use sd_projeto.Stub.Requests.{sent, sent_all, unpack_data-binary_of}

-- blocks with a length that an `int` holds
abbrev pub IsShort : Assoc → Type 0
IsShort [] = Unit
IsShort ((k, v) ∷ m) = (length v < 2 ^ 31) × IsShort m

copy_entries_loop :
    (m : Assoc) (pre : List (Option EntryT)) (done : EntryArray)
    → IsShort m
    → length pre ≡ length done
    → for_range
        (length m)
        (length done)
        (copy_entry (some (pre ++ sent_all m)))
        (done ++ replicate (suc (length m)) none)
      ≡ ok (go (done ++ entries_of m))
unfolding for_range copy_entry
copy_entries_loop [] pre done short e = refl
copy_entries_loop ((k, v) ∷ m) pre done short e =
    rw (← e, at-append pre (some (sent (k, v))) (sent_all m))
      (rw
        (
          e,
          unpack_data-binary_of v short.0,
          write-append done none (some (entry_of (k, v))) (replicate (suc (length m)) none),
        )
        (rw (length-append, append_assoc, append_assoc, append_assoc) at
          (copy_entries_loop m (pre ++ some (sent (k, v)) ∷ [])
            (done ++ some (entry_of (k, v)) ∷ []) short.1 (rw (length-append, length-append, e)))))

ended-entries_of :
    (m : Assoc) → ended {R = Unit {0}} (length m) (go (entries_of m)) ≡ ok (some (entries_of m))
unfolding ended
ended-entries_of m =
    rw (rw (length-map, length-map) at (write-append (map some (map entry_of m)) none none []))

-- The array of fewer than 2^64 entries that a gettable answer carries is copied whole.
pub table_answer-entries_of :
    (msg : MessageT) (m : Assoc) (c : ℕ)
    → length m < 2 ^ 64
    → IsShort m
    → table_answer (
        some (record msg {
          opcode = Opcode.gettable + 1;
          n_entries = to_unsigned (pos (length m));
          entries = some (sent_all m);
          c_type = c;
        }))
      ≡ ok (some (entries_of m))
unfolding table_answer refused to_unsigned
table_answer-entries_of msg m c h short =
    let low : length m % 2 ^ 64 ≡ length m = ground arith in
    let more : length m + 1 ≡ suc (length m) = omega arith in
    rw (low, more, copy_entries_loop m [] [] short refl, ended-entries_of)

-- Such an array is freed without reading past its end.
pub rtable_free_entries-entries_of : (m : Assoc) → rtable_free_entries (entries_of m) ≡ ok tt
unfolding rtable_free_entries
rtable_free_entries-entries_of [] = refl
rtable_free_entries-entries_of ((k, v) ∷ m) = rtable_free_entries-entries_of m
