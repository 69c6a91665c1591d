-- ===== src/Base/Faults.antt =====
-- Runs of C code: a value, or a fault where C leaves the behaviour undefined.
use Prim.Native.Nat.{ℕ, zero, suc, ◌+◌, ◌<◌}
use mathlib.Core.Path.{◌≡◌, refl, ap, ◌∙◌}
use mathlib.Core.List.{List, [], ◌∷◌, ◌++◌, append_assoc, append-nil}
use mathlib.Core.Option.{Option, none, some}
use native.Mathlib.Omega.{arith}
use sd_projeto.Base.Tests.{leb, if◌then◌else◌}
use sd_projeto.Base.Lists.{length, length-append, take, set, get_or}
use sd_projeto.Base.Int.{ℤ, pos, negsuc}

-- `invalid_free`: `free` gets a pointer that is not the start of a block. `uninitialised`: a value is
-- read that nothing has set. `dangling`: a pointer is followed to a block that is not there. `endless`: a
-- loop has not ended within the rounds it was given. `blocked`: the thread waits on a condition that no other thread is there to change.
pub data Fault : Type 0 where
  null_pointer out_of_bounds division_by_zero invalid_free uninitialised dangling endless blocked :
      Fault

pub data Run {ℓ} (A : Type ℓ) : Type ℓ where
  ok : A → Run A
  fault : Fault → Run A

infixl 5 ◌>>=◌ ◌>>◌
abbrev pub ◌>>=◌ {ℓ κ} : {A : Type ℓ} {B : Type κ} → Run A → (A → Run B) → Run B
ok a >>= f = f a
fault e >>= f = fault e

abbrev pub ◌>>◌ {ℓ κ} : {A : Type ℓ} {B : Type κ} → Run A → Run B → Run B
m >> k = m >>= λ _. k

-- `*p`
abbrev pub deref {ℓ} : {A : Type ℓ} → Option A → Run A
deref none = fault null_pointer
deref (some a) = ok a

module _ {ℓ} {A : Type ℓ} where
  -- `xs[i]`
  unfoldable pub at : List A → ℕ → Run A
  at [] i = fault out_of_bounds
  at (x ∷ xs) zero = ok x
  at (x ∷ xs) (suc i) = at xs i

  -- `xs[i]` where `i` is an `int`
  unfoldable pub at_int : List A → ℤ → Run A
  unfolding at
  at_int xs (pos i) = at xs i
  at_int xs (negsuc i) = fault out_of_bounds

  -- `xs[i] = v`
  unfoldable pub write : List A → ℕ → A → Run (List A)
  write [] i v = fault out_of_bounds
  write (x ∷ xs) zero v = ok (v ∷ xs)
  write (x ∷ xs) (suc i) v = do rest ← write xs i v; ok (x ∷ rest)

  -- The first `n` bytes at `src`, as `memcpy` reads them.
  unfoldable pub memcpy : List A → ℕ → Run (List A)
  memcpy src n = if leb n (length src) then ok (take n src) else fault out_of_bounds

  pub at-get_or : (xs : List A) (i : ℕ) (d : A) → i < length xs → at xs i ≡ ok (get_or xs i d)
  unfolding at
  at-get_or [] i d h = absurd (omega arith)
  at-get_or (x ∷ xs) zero d h = refl
  at-get_or (x ∷ xs) (suc i) d h = at-get_or xs i d (omega arith)

  pub write-set : (xs : List A) (i : ℕ) (v : A) → i < length xs → write xs i v ≡ ok (set xs i v)
  unfolding write
  write-set [] i v h = absurd (omega arith)
  write-set (x ∷ xs) zero v h = refl
  write-set (x ∷ xs) (suc i) v h =
      ap (λ r. r >>= λ rest. ok (x ∷ rest)) (write-set xs i v (omega arith))

  pub at-append : (ys : List A) (x : A) (xs : List A) → at (ys ++ x ∷ xs) (length ys) ≡ ok x
  unfolding at
  at-append [] x xs = refl
  at-append (y ∷ ys) x xs = at-append ys x xs

  pub write-append :
      (ys : List A) (x v : A) (xs : List A) → write (ys ++ x ∷ xs) (length ys) v ≡ ok (ys ++ v ∷ xs)
  unfolding write
  write-append [] x v xs = refl
  write-append (y ∷ ys) x v xs = ap (λ r. r >>= λ rest. ok (y ∷ rest)) (write-append ys x v xs)

-- What a round of a loop does: it goes on, or returns from the function.
pub data Flow {ℓ} (S R : Type ℓ) : Type ℓ where
  go : S → Flow S R
  return : R → Flow S R

module _ {ℓ} {S R : Type ℓ} where
  -- for (i = start; i < start + rounds; i++) body
  unfoldable pub for_range : ℕ → ℕ → (ℕ → S → Run (Flow S R)) → S → Run (Flow S R)
  for_range zero i body s = ok (go s)
  for_range (suc n) i body s =
      body i s >>= λ f. elim f [ go s' ↦ for_range n (i + 1) body s' | return r ↦ ok (return r) ]

  module _ {A : Type ℓ} where
    unfoldable pub for_each : List A → (A → S → Run (Flow S R)) → S → Run (Flow S R)
    for_each [] body s = ok (go s)
    for_each (x ∷ xs) body s =
        body x s >>= λ f. elim f [ go s' ↦ for_each xs body s' | return r ↦ ok (return r) ]

module _ {ℓ} {A S R : Type ℓ} (body : A → S → Run (Flow S R)) where
  -- A counted loop that reads `xs[i]` in every round goes through the elements in order.
  pub for_range-at :
      (done xs tail : List A) (s : S)
      → for_range (length xs) (length done) (λ i t. at (done ++ (xs ++ tail)) i >>= λ x. body x t) s
        ≡ for_each xs body s
  unfolding for_range for_each
  for_range-at done [] tail s = refl
  for_range-at done (x ∷ xs) tail s =
      rw (at-append done x (xs ++ tail))
        (after (body x s) (λ s'. for_range-at (done ++ x ∷ []) xs tail s'))
    where
      next : ℕ → List A → S → Run (Flow S R)
      next i ys = for_range (length xs) i (λ j t. at ys j >>= λ y. body y t)

      place :
          (s' : S)
          → next (length done + 1) (done ++ x ∷ (xs ++ tail)) s'
            ≡ next (length (done ++ x ∷ [])) ((done ++ x ∷ []) ++ (xs ++ tail)) s'
      place s' = rw (length-append, append_assoc)

      after :
          (f : Run (Flow S R))
          → ((s' : S)
              → next (length (done ++ x ∷ [])) ((done ++ x ∷ []) ++ (xs ++ tail)) s'
                ≡ for_each xs body s')
          → (f >>= λ g. elim g [
            | go s' ↦ next (length done + 1) (done ++ x ∷ (xs ++ tail)) s'
            | return r ↦ ok (return r)
          ])
            ≡ (f >>= λ g. elim g [ go s' ↦ for_each xs body s' | return r ↦ ok (return r) ])
      after (ok (go s')) ih = place s' ∙ ih s'
      after (ok (return r)) ih = refl
      after (fault e) ih = refl

  pub for_range-rows :
      (xs : List A) (s : S)
      → for_range (length xs) 0 (λ i t. at xs i >>= λ x. body x t) s ≡ for_each xs body s
  for_range-rows xs s = rw append-nil at (for_range-at [] xs [] s)
