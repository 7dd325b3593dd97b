-- ===== src/RawPoller/Schedule.antt =====
-- raw_poller.go: `run`, the rounds over the transactions.
use otelcol_receiver_canopen.Prelude.{
  ℕ, zero, suc, Bool, true, false, not, ◌||◌, List, [], ◌∷◌, ◌++◌, if◌then◌else◌,
}
use otelcol_receiver_canopen.Config.Types.{RawTransactionConfig}
use otelcol_receiver_canopen.Config.Sdo.{is_once}
use otelcol_receiver_canopen.Config.Raw.{effective_mode}

-- The transactions that a round polls, in order, `onceCompleted` behind it, whether one of them is
-- recurring, and whether the context was cancelled in a pause.
pub record Round : Type 0 where
  pub polled : List RawTransactionConfig
  pub completed : List Bool
  pub recurring : Bool
  pub stopped : Bool

unfoldable pub is_once_only : RawTransactionConfig → Bool
is_once_only t = is_once (effective_mode t)

abbrev pub no_round : Round
no_round = record { polled = []; completed = []; recurring = false; stopped = false }

abbrev pub skip_completed : Round → Round
skip_completed r = record r { completed = true ∷ r.completed }

abbrev pub poll_once : RawTransactionConfig → Round → Round
poll_once t r = record r { polled = t ∷ r.polled; completed = true ∷ r.completed }

abbrev pub poll_recurring : RawTransactionConfig → Bool → Round → Round
poll_recurring t c r = record r {
  polled = t ∷ r.polled;
  completed = c ∷ r.completed;
  recurring = true;
}

abbrev pub stop_at : RawTransactionConfig → List Bool → Round
stop_at t cs = record { polled = t ∷ []; completed = cs; recurring = true; stopped = true }

-- One round, with a flag for each transaction. `waits k` says whether the pause after poll number k ends before the context does.
unfoldable pub run_round : (ℕ → Bool) → ℕ → List RawTransactionConfig → List Bool → Round
run_round waits k [] cs = no_round
run_round waits k (t ∷ ts) [] = no_round
run_round waits k (t ∷ ts) (c ∷ cs) =
    let skipped = run_round waits k ts cs in
    let rest = run_round waits (suc k) ts cs in
    if is_once_only t
    then (if c then skip_completed skipped else poll_once t rest)
    else if waits k
    then poll_recurring t c rest
    else stop_at t (c ∷ cs)

-- The polls of a run, and whether it has returned.
pub record Run : Type 0 where
  pub all_polled : List RawTransactionConfig
  pub returned : Bool

abbrev pub after_round : Round → Run → Run
after_round r rest =
    if r.stopped || not r.recurring
    then record { all_polled = r.polled; returned = true }
    else record { all_polled = r.polled ++ rest.all_polled; returned = rest.returned }

abbrev pub polls_of : List RawTransactionConfig → ℕ → ℕ
polls_of [] k = k
polls_of (t ∷ ts) k = polls_of ts (suc k)

-- The run goes on as long as there are recurring transactions: `fuel` bounds the rounds that are
-- looked at.
unfoldable pub run : (ℕ → Bool) → ℕ → ℕ → List RawTransactionConfig → List Bool → Run
run waits zero k ts cs = record { all_polled = []; returned = false }
run waits (suc fuel) k ts cs =
    let r = run_round waits k ts cs in
    after_round r (run waits fuel (polls_of r.polled k) ts r.completed)
