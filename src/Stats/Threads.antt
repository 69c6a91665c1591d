-- ===== src/Stats/Threads.antt =====
-- Threads that change one counter of the statistics under its lock, interleaved in any order. Each of
-- the three functions of source/stats.c reads the counter into `current`, and then writes the sum.
use sd_projeto.Base.{
  ℕ, ◌<◌, ◌≡◌, ◌≢◌, ◌∙◌, ◌⊎◌, inl, inr, Bool-cases, refl, sym, ap, ℤ, ◌+ℤ◌, ◌==◌, Option, none,
  some, arith, length, if◌then◌else◌,
}
use sd_projeto.Mutex.Threads.{writing, System, Action, place, step, start_state, Reach, start, next}
use sd_projeto.Mutex.Threads.Others.{step-Stays}
use sd_projeto.Mutex.Threads.Safety.{one_writer}

-- `current` is the variable of each thread, if it is set.
pub record Counting : Type 0 where
  pub system : System
  pub counter : ℤ
  pub current : ℕ → Option ℤ

-- `int current = stats->...`
unfoldable pub load_counter : Counting → ℕ → Counting
load_counter c i = record c { current = λ j. if j == i then some c.counter else c.current j }

-- `stats->... = current + value`
unfoldable pub store_counter : Counting → ℕ → ℤ → ℤ → Counting
store_counter c i current value = record c {
  counter = current +ℤ value;
  current = λ j. if j == i then none else c.current j;
}

-- What `n` threads can reach, with the sum of what the counter was at first and of all that was added.
-- A thread takes steps at the lock while its `current` is not set, and reads the counter while it
-- writes, that is between `enter_write` and `exit_write`.
pub data Counts (n : ℕ) (first : ℤ) : Counting → ℤ → Type 0 where
  begins :
      Counts n first (record { system = start_state n; counter = first; current = λ i. none }) first
  steps :
      {c : Counting} {sum : ℤ}
      → Counts n first c sum
      → (i : ℕ) (a : Action) → i < length c.system.threads
      → c.current i ≡ none
      → Counts n first (record c { system = step c.system i a }) sum
  loads :
      {c : Counting} {sum : ℤ}
      → Counts n first c sum
      → (i : ℕ) → i < length c.system.threads
      → place c.system i ≡ writing
      → Counts n first (load_counter c i) sum
  stores :
      {c : Counting} {sum : ℤ}
      → Counts n first c sum
      → (i : ℕ) (current value : ℤ) → c.current i ≡ some current
      → Counts n first (store_counter c i current value) (sum +ℤ value)

-- A thread with a set `current` writes, and has read what the counter still is.
record Settled (n : ℕ) (c : Counting) (sum : ℤ) : Type 0 where
  reached : Reach n c.system
  counted : c.counter ≡ sum
  threads : (i : ℕ) (v : ℤ) → c.current i ≡ some v → i < length c.system.threads
  writes : (i : ℕ) (v : ℤ) → c.current i ≡ some v → place c.system i ≡ writing
  fresh : (i : ℕ) (v : ℤ) → c.current i ≡ some v → v ≡ c.counter

some-none : {v : ℤ} → some v ≡ none → ⊥
some-none e = cc

some_inj : {v w : ℤ} → some v ≡ some w → v ≡ w
some_inj e = cc

-- A second one does not have a set `current`.
alone :
    {n : ℕ} (c : Counting) (sum : ℤ)
    → Settled n c sum
    → (i j : ℕ) → i < length c.system.threads
    → place c.system i ≡ writing
    → (v : ℤ) → c.current j ≡ some v
    → i ≢ j
    → ⊥
alone c sum s i j lt w v h ne = one_writer s.reached i lt j (s.threads j v h) ne w (s.writes j v h)

-- The places of a function that was changed at `i`.
changed :
    (f : ℕ → Option ℤ) (i : ℕ) (o : Option ℤ) (j : ℕ) (v : ℤ)
    → (if j == i then o else f j) ≡ some v
    → ((j ≡ i) × (o ≡ some v)) ⊎ ((i ≢ j) × (f j ≡ some v))
changed f i o j v h = elim (Bool-cases (j == i)) [
  | inl e ↦ inl (ground arith, ground arith)
  | inr e ↦ inr (ground arith, ground arith)
]

steps-Settled :
    {n : ℕ} (c : Counting) (sum : ℤ)
    → Settled n c sum
    → (i : ℕ) (a : Action) → i < length c.system.threads
    → c.current i ≡ none
    → Settled n (record c { system = step c.system i a }) sum
steps-Settled c sum s i a lt unset =
    let ne = λ (j : ℕ) (v : ℤ) (h : c.current j ≡ some v).
      (λ (e : i ≡ j). some-none (sym h ∙ ap c.current (sym e) ∙ unset)) in
    let stays = λ (j : ℕ) (v : ℤ) (h : c.current j ≡ some v).
      step-Stays c.system i j lt (ne j v h) (s.writes j v h) a in
    record {
      reached = next s.reached i a lt;
      counted = s.counted;
      threads = λ j v h. rw (stays j v h).0 (s.threads j v h);
      writes = λ j v h. (stays j v h).1;
      fresh = s.fresh;
    }

loads-Settled :
    {n : ℕ} (c : Counting) (sum : ℤ)
    → Settled n c sum
    → (i : ℕ) → i < length c.system.threads
    → place c.system i ≡ writing
    → Settled n (load_counter c i) sum
unfolding load_counter
loads-Settled c sum s i lt w = record {
  reached = s.reached;
  counted = s.counted;
  threads = λ j v h. elim (changed c.current i (some c.counter) j v h) [
    | inl (e, _) ↦ rw e lt
    | inr (_, h') ↦ s.threads j v h'
  ];
  writes = λ j v h. elim (changed c.current i (some c.counter) j v h) [
    | inl (e, _) ↦ rw e w
    | inr (_, h') ↦ s.writes j v h'
  ];
  fresh = λ j v h. elim (changed c.current i (some c.counter) j v h) [
    | inl (_, e) ↦ sym (some_inj e)
    | inr (_, h') ↦ s.fresh j v h'
  ];
}

stores-Settled :
    {n : ℕ} (c : Counting) (sum : ℤ)
    → Settled n c sum
    → (i : ℕ) (current value : ℤ) → c.current i ≡ some current
    → Settled n (store_counter c i current value) (sum +ℤ value)
unfolding store_counter
stores-Settled c sum s i current value h =
    let none_left : (j : ℕ) (v : ℤ) → (if j == i then none else c.current j) ≡ some v → ⊥ =
      λ j v h'. elim (changed c.current i none j v h') [
        | inl (_, e) ↦ some-none (sym e)
        | inr (ne, e) ↦ alone c sum s i j (s.threads i current h) (s.writes i current h) v e ne
      ] in
    record {
      reached = s.reached;
      counted = ap (λ m. m +ℤ value) (s.fresh i current h ∙ s.counted);
      threads = λ j v h'. absurd (none_left j v h');
      writes = λ j v h'. absurd (none_left j v h');
      fresh = λ j v h'. absurd (none_left j v h');
    }

Counts-Settled :
    {n : ℕ} {first : ℤ} {c : Counting} {sum : ℤ} → Counts n first c sum → Settled n c sum
Counts-Settled begins = record {
  reached = start;
  counted = refl;
  threads = λ i v h. cc;
  writes = λ i v h. cc;
  fresh = λ i v h. cc;
}
Counts-Settled (steps {c} {sum} r i a lt unset) =
    steps-Settled c sum (Counts-Settled r) i a lt unset
Counts-Settled (loads {c} {sum} r i lt w) = loads-Settled c sum (Counts-Settled r) i lt w
Counts-Settled (stores {c} {sum} r i current value h) =
    stores-Settled c sum (Counts-Settled r) i current value h

-- Whatever state any number of threads reach that take steps at the lock of the statistics and,
-- between enter_write and exit_write, read a counter and write the sum of what they read and a
-- value, the counter is what it was at first with all these values added to it.
pub no_lost_update :
    {n : ℕ} {first : ℤ} {c : Counting} {sum : ℤ} → Counts n first c sum → c.counter ≡ sum
no_lost_update r = (Counts-Settled r).counted
