-- ===== src/Mutex/Threads/Totals.antt =====
-- How many threads stand in a place: sums of a weight over the threads.
use native.Mathlib.Decide.{dec_lt}
use sd_projeto.Base.{
  ℕ, zero, suc, ◌+◌, ◌≤◌, ◌<◌, ◌≡◌, ◌≢◌, refl, ap, List, [], ◌∷◌, map, arith, length, set, get_or,
  replicate,
}
use sd_projeto.Mutex.Threads.{Place, outside, wake}

module _ (w : Place → ℕ) where
  pub total : List Place → ℕ
  total [] = 0
  total (p ∷ ps) = w p + total ps

  pub total-set :
      (ps : List Place) (i : ℕ) (p : Place)
      → i < length ps
      → total (set ps i p) + w (get_or ps i outside) ≡ total ps + w p
  unfolding total
  total-set [] i p h = absurd (omega arith)
  total-set (q ∷ ps) zero p h = omega arith
  total-set (q ∷ ps) (suc i) p h = omega (arith, total-set ps i p (omega arith))

  pub total-replicate : (n : ℕ) → w outside ≡ 0 → total (replicate n outside) ≡ 0
  unfolding total
  total-replicate zero h = refl
  total-replicate (suc n) h = omega (arith, total-replicate n h)

  -- A weight that a broadcast keeps.
  pub total-wake :
      (ps : List Place) → ((p : Place) → w (wake p) ≡ w p) → total (map wake ps) ≡ total ps
  unfolding total
  total-wake [] h = refl
  total-wake (p ∷ ps) h = omega (arith, h p, total-wake ps h)

  -- A weight that a broadcast clears.
  pub total-wake_zero : (ps : List Place) → ((p : Place) → w (wake p) ≡ 0) → total (map wake ps) ≡ 0
  unfolding total
  total-wake_zero [] h = refl
  total-wake_zero (p ∷ ps) h = omega (arith, h p, total-wake_zero ps h)

  pub le-total : (ps : List Place) (i : ℕ) → i < length ps → w (get_or ps i outside) ≤ total ps
  unfolding total
  le-total [] i h = absurd (omega arith)
  le-total (p ∷ ps) zero h = omega arith
  le-total (p ∷ ps) (suc i) h = omega (arith, le-total ps i (omega arith))

  -- Two threads count twice.
  pub add-le-total :
      (ps : List Place) (i j : ℕ)
      → i < length ps
      → j < length ps
      → i ≢ j
      → w (get_or ps i outside) + w (get_or ps j outside) ≤ total ps
  unfolding total
  add-le-total [] i j h k n = absurd (omega arith)
  add-le-total (p ∷ ps) zero zero h k n = absurd (n refl)
  add-le-total (p ∷ ps) zero (suc j) h k n = omega (arith, le-total ps j (omega arith))
  add-le-total (p ∷ ps) (suc i) zero h k n = omega (arith, le-total ps i (omega arith))
  add-le-total (p ∷ ps) (suc i) (suc j) h k n =
      omega (arith, add-le-total ps i j (omega arith) (omega arith) (λ e. n (ap suc e)))

  -- A positive sum has a thread to show for it.
  pub find_positive :
      (ps : List Place) → 0 < total ps → (i : ℕ) × (i < length ps) × (0 < w (get_or ps i outside))
  unfolding total
  find_positive [] h = absurd (omega arith)
  find_positive (p ∷ ps) h = elim (dec_lt 0 (w p)) [
    | yes here ↦ (0, omega arith, here)
    | no absent ↦ let (i, lt, found) = find_positive ps (omega arith) in (suc i, omega arith, found)
  ]
