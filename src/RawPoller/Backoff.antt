-- ===== src/RawPoller/Backoff.antt =====
-- raw_poller.go: how long `poll` goes on, and the pauses it makes.
use otelcol_receiver_canopen.Prelude.{
  ℕ, zero, suc, ◌+◌, ◌*◌, ◌^◌, ◌≤◌, ◌<◌, ◌≡◌, Bool, true, Option, some, All, arith, inl, inr,
  Bool-cases, min, ◌⊎◌, ◌==◌, nat_eq, nat_beq_iff, sym,
}
use mathlib.Core.Path.{subst}
use otelcol_receiver_canopen.Prelude.Int.{ℤ, pos, negsuc}
use otelcol_receiver_canopen.RawPoller.Retries.{
  Turn, Outcome, Ending, succeeded, gave_up, cancelled, unfinished, retry_loop, one_pass, at_most,
  double,
}

-- The attempts that an ending counts are at most `n`, and the loop did end.
abbrev pub EndsWithin : ℕ → Ending → Type 0
EndsWithin n (succeeded k) = k ≤ n
EndsWithin n (gave_up k) = k ≤ n
EndsWithin n (cancelled k) = k ≤ n
EndsWithin n unfinished = ⊥

one_pass-EndsWithin :
    (n : ℕ) (turn : Turn) (may_retry : Bool) (retries : ℕ) (backoff : ℤ) (rest : Outcome)
    → suc retries ≤ n
    → (may_retry ≡ true → EndsWithin n rest.ending)
    → EndsWithin n (one_pass turn may_retry retries backoff rest).ending
unfolding one_pass
one_pass-EndsWithin n turn may_retry retries backoff rest h k = elim (Bool-cases turn.succeeds) [
  | inl p ↦ rw p h
  | inr p ↦ rw p (elim (Bool-cases turn.is_cancelled) [
    | inl q ↦ rw q h
    | inr q ↦ rw q (elim (Bool-cases may_retry) [
      | inr r ↦ rw r h
      | inl r ↦
          rw r (elim (Bool-cases turn.cancelled_in_pause) [ inl c ↦ rw c h | inr c ↦ rw c (k r) ])
    ])
  ])
]

-- With `n` retries allowed, the loop ends after at most n + 1 attempts, whatever happens to them.
pub retry_loop_ends :
    (turns : ℕ → Turn) (retry : Bool) (n : ℕ) (max_backoff : ℤ) (fuel retries : ℕ) (backoff : ℤ)
    → retries ≤ n
    → suc n ≤ fuel + retries
    → EndsWithin
        (suc n)
        (retry_loop turns retry (some (pos n)) max_backoff fuel retries backoff).ending
unfolding retry_loop
retry_loop_ends turns retry n mb zero retries backoff h k = absurd (omega arith)
retry_loop_ends turns retry n mb (suc fuel) retries backoff h k =
    one_pass-EndsWithin (suc n) (turns retries) _ retries backoff _ (omega arith)
      λ may. retry_loop_ends turns retry n mb fuel (suc retries) _ (ground arith) (omega arith)

-- By attempt number `n` there is one that succeeds, or at whose end the context is cancelled.
abbrev pub Settles : ℕ → (ℕ → Turn) → Type 0
Settles n turns =
    (i : ℕ) × (i ≤ n) × (((turns i).succeeds ≡ true) ⊎ ((turns i).is_cancelled ≡ true))

settled-EndsWithin :
    (n : ℕ) (turn : Turn) (may_retry : Bool) (retries : ℕ) (backoff : ℤ) (rest : Outcome)
    → suc retries ≤ n
    → (turn.succeeds ≡ true) ⊎ (turn.is_cancelled ≡ true)
    → EndsWithin n (one_pass turn may_retry retries backoff rest).ending
unfolding one_pass
settled-EndsWithin n turn may_retry retries backoff rest h (inl p) = rw p h
settled-EndsWithin n turn may_retry retries backoff rest h (inr q) =
    elim (Bool-cases turn.succeeds) [ inl p ↦ rw p h | inr p ↦ rw p (rw q h) ]

-- Whatever the retries, a loop ends with the attempt that succeeds or finds the context cancelled.
pub retry_loop_settles :
    (turns : ℕ → Turn) (retry : Bool) (most : Option ℤ) (max_backoff : ℤ) (n i fuel retries : ℕ)
    (backoff : ℤ)
    → retries + fuel ≡ suc n
    → retries ≤ i
    → i ≤ n
    → ((turns i).succeeds ≡ true) ⊎ ((turns i).is_cancelled ≡ true)
    → EndsWithin (suc n) (retry_loop turns retry most max_backoff fuel retries backoff).ending
unfolding retry_loop
retry_loop_settles turns retry most mb n i zero retries backoff e h k s = absurd (omega arith)
retry_loop_settles turns retry most mb n i (suc fuel) retries backoff e h k s =
    elim (Bool-cases (retries == i)) [
      | inl same ↦ settled-EndsWithin (suc n) (turns retries) _ retries backoff _ (omega arith) (
          subst (λ (j : ℕ). ((turns j).succeeds ≡ true) ⊎ ((turns j).is_cancelled ≡ true))
            (sym ((nat_beq_iff retries i).0 same)) s)
      | inr other ↦
          one_pass-EndsWithin (suc n) (turns retries) _ retries backoff _ (omega arith) λ may.
            retry_loop_settles turns retry most mb n i fuel (suc retries) _ (omega arith)
              (ground arith) k s
    ]

-- A pause of at least `low` and at most `top` nanoseconds.
abbrev pub Between : ℕ → ℕ → ℤ → Type 0
Between low top (pos d) = (low ≤ d) × (d ≤ top)
Between low top (negsuc d) = ⊥

one_pass-All :
    (P : ℤ → Type 0) (turn : Turn) (may_retry : Bool) (retries : ℕ) (backoff : ℤ) (rest : Outcome)
    → P backoff
    → All P rest.pauses
    → All P (one_pass turn may_retry retries backoff rest).pauses
unfolding one_pass
one_pass-All P turn may_retry retries backoff rest h k = ground arith

next_pause :
    (b top : ℕ)
    → b ≤ top
    → top < 2 ^ 62
    → at_most (pos top) (double (pos b)) ≡ pos (min (2 * b) top)
next_pause b top h k = ground arith

-- The pauses grow from the first one and stop at the largest.
pub retry_loop-Between :
    (turns : ℕ → Turn) (retry : Bool) (max_retries : Option ℤ) (top fuel retries low b : ℕ)
    → low ≤ b
    → b ≤ top
    → top < 2 ^ 62
    → All
        (Between low top)
        (retry_loop turns retry max_retries (pos top) fuel retries (pos b)).pauses
unfolding retry_loop
retry_loop-Between turns retry m top zero retries low b h k l = tt
retry_loop-Between turns retry m top (suc fuel) retries low b h k l =
    one_pass-All (Between low top) (turns retries) _ retries (pos b) _ (h, k)
      (rw (next_pause b top k l) (
        retry_loop-Between turns retry m top fuel (suc retries) low (min (2 * b) top) (omega arith)
          (omega arith) l))
