-- ===== src/RawPoller/Rounds.antt =====
-- raw_poller.go: how often `run` polls each transaction.
use otelcol_receiver_canopen.Prelude.{
  ℕ, zero, suc, ◌≡◌, refl, ap, Bool, true, false, not, ◌||◌, List, [], ◌∷◌, ◌++◌, if◌then◌else◌,
  Bool-cases, inl, inr,
}
use otelcol_receiver_canopen.Config.Types.{RawTransactionConfig}
use otelcol_receiver_canopen.RawPoller.Schedule.{is_once_only, run_round, polls_of, run}

-- The transactions that come again, in their order.
abbrev pub recurring_of : List RawTransactionConfig → List RawTransactionConfig
recurring_of [] = []
recurring_of (t ∷ ts) = if is_once_only t then recurring_of ts else t ∷ recurring_of ts

abbrev pub has_recurring : List RawTransactionConfig → Bool
has_recurring [] = false
has_recurring (t ∷ ts) = not (is_once_only t) || has_recurring ts

abbrev pub none_completed : List RawTransactionConfig → List Bool
none_completed [] = []
none_completed (t ∷ ts) = false ∷ none_completed ts

abbrev pub once_completed : List RawTransactionConfig → List Bool
once_completed [] = []
once_completed (t ∷ ts) = is_once_only t ∷ once_completed ts

-- `n` times over.
abbrev pub repeated : ℕ → List RawTransactionConfig → List RawTransactionConfig
repeated zero ts = []
repeated (suc n) ts = ts ++ repeated n ts

module _ (waits : ℕ → Bool) (goes_on : (k : ℕ) → waits k ≡ true) where
  first_round :
      (k : ℕ) (ts : List RawTransactionConfig)
      → run_round waits k ts (none_completed ts) ≡ record {
        polled = ts;
        completed = once_completed ts;
        recurring = has_recurring ts;
        stopped = false;
      }
  unfolding run_round
  first_round k [] = refl
  first_round k (t ∷ ts) = elim (Bool-cases (is_once_only t)) [
    | inl p ↦ rw p (rw (first_round (suc k) ts) refl)
    | inr p ↦ rw p (rw (goes_on k) (rw (first_round (suc k) ts) refl))
  ]

  next_round :
      (k : ℕ) (ts : List RawTransactionConfig)
      → run_round waits k ts (once_completed ts) ≡ record {
        polled = recurring_of ts;
        completed = once_completed ts;
        recurring = has_recurring ts;
        stopped = false;
      }
  unfolding run_round
  next_round k [] = refl
  next_round k (t ∷ ts) = elim (Bool-cases (is_once_only t)) [
    | inl p ↦ rw p (rw (next_round k ts) refl)
    | inr p ↦ rw p (rw (goes_on k) (rw (next_round (suc k) ts) refl))
  ]

  later_rounds :
      (n k : ℕ) (ts : List RawTransactionConfig)
      → has_recurring ts ≡ true
      → (run waits n k ts (once_completed ts)).all_polled ≡ repeated n (recurring_of ts)
  unfolding run
  later_rounds zero k ts h = refl
  later_rounds (suc n) k ts h = rw (next_round k ts) (
      rw h (
        ap (λ (xs : List RawTransactionConfig). recurring_of ts ++ xs)
          (later_rounds n (polls_of (recurring_of ts) k) ts h)))

  -- While the context is not cancelled, the first n + 1 rounds of a run with a recurring transaction
  -- poll every transaction once, in order, and after that, n times, the recurring ones.
  pub run_polls :
      (n : ℕ) (ts : List RawTransactionConfig)
      → has_recurring ts ≡ true
      → (run waits (suc n) 0 ts (none_completed ts)).all_polled ≡ ts ++ repeated n (recurring_of ts)
  unfolding run
  run_polls n ts h = rw (first_round 0 ts) (
      rw h
        (ap (λ (xs : List RawTransactionConfig). ts ++ xs) (later_rounds n (polls_of ts 0) ts h)))

  -- While the context is not cancelled, a run with no recurring transaction polls each one once and
  -- returns.
  pub run_returns :
      (n : ℕ) (ts : List RawTransactionConfig)
      → has_recurring ts ≡ false
      → run waits (suc n) 0 ts (none_completed ts) ≡ record { all_polled = ts; returned = true }
  unfolding run
  run_returns n ts h = rw (first_round 0 ts) (rw h refl)
