-- ===== src/RawPoller/Claims.antt =====
-- raw_poller.go and config.go: which transaction a frame can answer.
use otelcol_receiver_canopen.Prelude.{
  ℕ, suc, ◌+◌, ◌≤◌, ◌≡◌, refl, String, Bool, true, false, not, ◌&&◌, ◌||◌, List, [], ◌∷◌, ◌++◌,
  if◌then◌else◌, ◌==◌, nat_eq, get_elem?, arith,
}
use otelcol_receiver_canopen.Prelude.Int.{ℤ}
use otelcol_receiver_canopen.Transport.{Frame}
use otelcol_receiver_canopen.Sniffer.Fields.{Ran, done, crashed}
use otelcol_receiver_canopen.Config.Checked.{pass, require, each, overlapping_match}
use otelcol_receiver_canopen.Config.Types.{RawMatchByte, RawTransactionConfig, RawConfig}
use otelcol_receiver_canopen.Config.Sdo.{int_eq}
use otelcol_receiver_canopen.Config.Raw.{
  conflict, conflicts_with, raw_matches_can_overlap, responses_overlap, validate_transactions,
  validate_raw, request_key,
}
use otelcol_receiver_canopen.RawPoller.Attempts.{response_byte, also, raw_transaction_matches}

abbrev pub is_met : Ran Bool → Bool
is_met (done b) = b
is_met crashed = false

-- A frame is a response to a transaction: the test of `handleFrame`.
abbrev pub is_answer : Frame → RawTransactionConfig → Bool
is_answer f t =
    not (f.extended || not (f.id == t.response.cob_id))
    && is_met (raw_transaction_matches t.response.match f.payload)

-- How many transactions a frame is a response to.
abbrev pub claimants : Frame → List RawTransactionConfig → ℕ
claimants f [] = 0
claimants f (t ∷ ts) = if is_answer f t then suc (claimants f ts) else claimants f ts

int_eq-eq : (a b : ℤ) → int_eq a b ≡ true → a ≡ b
int_eq-eq a b h = ground arith

is_met-also : (a b : Ran Bool) → is_met (also a b) ≡ (is_met a && is_met b)
is_met-also a b = ground arith

conflict-response_byte :
    (l r : RawMatchByte) (payload : List ℕ)
    → conflict l r ≡ true
    → is_met (response_byte l payload) ≡ true
    → is_met (response_byte r payload) ≡ false
conflict-response_byte l r payload h k =
    ground (arith, int_eq-eq l.byte_offset r.byte_offset, get_elem? payload)

conflicts_with-matches :
    (l : RawMatchByte) (right : List RawMatchByte) (payload : List ℕ)
    → conflicts_with l right ≡ true
    → is_met (response_byte l payload) ≡ true
    → is_met (raw_transaction_matches right payload) ≡ false
unfolding raw_transaction_matches
conflicts_with-matches l [] payload h k = absurd (ground arith)
conflicts_with-matches l (r ∷ rs) payload h k = ground (
  arith,
  is_met-also (response_byte r payload) (raw_transaction_matches rs payload),
  conflict-response_byte l r payload,
  conflicts_with-matches l rs payload,
)

-- Two lists of conditions that cannot overlap are not met together.
matches_disjoint :
    (left right : List RawMatchByte) (payload : List ℕ)
    → raw_matches_can_overlap left right ≡ false
    → is_met (raw_transaction_matches left payload) ≡ true
    → is_met (raw_transaction_matches right payload) ≡ false
unfolding raw_transaction_matches raw_matches_can_overlap
matches_disjoint [] right payload h k = absurd (ground arith)
matches_disjoint (l ∷ ls) right payload h k = ground (
  arith,
  is_met-also (response_byte l payload) (raw_transaction_matches ls payload),
  conflicts_with-matches l right payload,
  matches_disjoint ls right payload,
)

overlap_checks :
    (t : RawTransactionConfig) (f : Frame) (previous : List RawTransactionConfig)
    → each
        (λ (p : RawTransactionConfig). require (not (responses_overlap p t)) overlapping_match)
        previous
      ≡ pass
    → is_answer f t ≡ true
    → claimants f previous ≡ 0
overlap_checks t f [] h k = refl
overlap_checks t f (p ∷ ps) h k =
    ground
      (arith, matches_disjoint p.response.match t.response.match f.payload, overlap_checks t f ps)

claimants-append :
    (f : Frame) (xs ys : List RawTransactionConfig)
    → claimants f (xs ++ ys) ≡ claimants f xs + claimants f ys
claimants-append f [] ys = omega arith
claimants-append f (x ∷ xs) ys = ground (arith, claimants-append f xs ys)

validate_transactions-claimants :
    (f : Frame) (names requests : List String) (previous ts : List RawTransactionConfig)
    → validate_transactions names requests previous ts ≡ pass
    → claimants f previous ≤ 1
    → claimants f previous + claimants f ts ≤ 1
unfolding validate_transactions
validate_transactions-claimants f names requests previous [] h k = omega arith
validate_transactions-claimants f names requests previous (t ∷ ts) h k = ground (
  arith,
  overlap_checks t f previous,
  claimants-append f previous (t ∷ []),
  validate_transactions-claimants f (t.name ∷ names) (request_key t ∷ requests) (previous ++ t ∷ [])
      ts,
)

-- In an accepted configuration a frame is a response to at most one transaction.
pub one_claimant :
    (r : RawConfig) (f : Frame) → validate_raw r ≡ pass → claimants f r.transactions ≤ 1
unfolding validate_raw
one_claimant r f h = ground (arith, validate_transactions-claimants f [] [] [] r.transactions)
