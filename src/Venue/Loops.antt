-- ===== src/Venue/Loops.antt =====
-- `_execute_with_resubmit`, `_confirm` and `_fetch_transaction` of src/tiller/execution/venue.py. The replies of the
-- network and the time since the start are arguments, one for each turn of a loop.
use agent_trading.Base.{
  ℕ, zero, suc, ◌+◌, ◌≤◌, ◌<◌, ◌≡◌, ◌≢◌, Bool, true, false, Option, String, arith, if◌then◌else◌,
  ◌||◌, ltb,
}
use agent_trading.Venue.Realised.{ChainTx}

-- A call of `execute`: an `httpx.HTTPError`, a `JupiterError`, which the loop does not catch, or its
-- status and signature.
pub data Reply : Type 0 where
  transport_error jupiter_error : Reply
  answered : Bool → Option String → Reply

-- How the loop ends, with the number of calls that it made.
pub data Executed : Type 0 where
  executed : Bool → Option String → ℕ → Executed
  exec_uncertain exec_raised : ℕ → Executed
  exec_out_of_fuel : Executed

module _ (reply : ℕ → Reply) (elapsed : ℕ → ℕ) (resubmits window : ℕ) where
  unfoldable pub execute_from : ℕ → ℕ → Executed
  execute_from zero attempt = exec_out_of_fuel
  execute_from (suc fuel) attempt =
      let again = execute_from fuel (attempt + 1) in
      elim (reply attempt) [
        | answered ok signature ↦ executed ok signature (attempt + 1)
        | jupiter_error ↦ exec_raised (attempt + 1)
        | transport_error ↦
            if ltb resubmits (attempt + 1) || ltb window (elapsed attempt)
            then exec_uncertain (attempt + 1)
            else again
      ]

  -- One call more than the resubmits is enough.
  unfoldable pub execute_with_resubmit : Executed
  execute_with_resubmit = execute_from (resubmits + 1) 0

  -- Within the calls allowed.
  abbrev pub Bounded : Executed → Type 0
  Bounded (executed ok signature n) = n ≤ resubmits + 1
  Bounded (exec_uncertain n) = n ≤ resubmits + 1
  Bounded (exec_raised n) = n ≤ resubmits + 1
  Bounded exec_out_of_fuel = ⊥

  execute_from-Bounded :
      (fuel attempt : ℕ)
      → attempt + fuel ≡ resubmits + 1
      → 0 < fuel
      → Bounded (execute_from fuel attempt)
  unfolding execute_from
  execute_from-Bounded zero attempt h p = absurd (omega arith)
  execute_from-Bounded (suc zero) attempt h p = ground arith
  execute_from-Bounded (suc (suc fuel)) attempt h p =
      ground (arith, execute_from-Bounded (suc fuel) (attempt + 1) (omega arith) (omega arith))

  -- The loop ends, and sends the same bytes at most once more than the resubmits that are set.
  pub execute_with_resubmit-Bounded : Bounded execute_with_resubmit
  unfolding execute_with_resubmit
  execute_with_resubmit-Bounded = execute_from-Bounded (resubmits + 1) 0 (omega arith) (omega arith)

-- A call of `get_signature_statuses`: no status yet, an error on chain, an exception, or whether it is
-- confirmed.
pub data Status : Type 0 where
  unseen chain_error status_error : Status
  seen : Bool → Status

pub data Confirmed : Type 0 where
  confirmed confirm_failed confirm_uncertain confirm_raised confirm_out_of_fuel : Confirmed

module _ (status : ℕ → Status) (elapsed : ℕ → ℕ) (timeout : ℕ) where
  abbrev waiting : ℕ → Confirmed → Confirmed
  waiting turn again = if ltb timeout (elapsed turn) then confirm_uncertain else again

  unfoldable pub confirm_from : ℕ → ℕ → Confirmed
  confirm_from zero turn = confirm_out_of_fuel
  confirm_from (suc fuel) turn =
      let again = confirm_from fuel (turn + 1) in
      elim (status turn) [
        | unseen ↦ waiting turn again
        | chain_error ↦ confirm_failed
        | status_error ↦ confirm_raised
        | seen true ↦ confirmed
        | seen false ↦ waiting turn again
      ]

  confirm_from_ends :
      (fuel turn : ℕ)
      → 0 < fuel
      → ((k : ℕ) → turn + fuel ≤ k + 1 → timeout < elapsed k)
      → confirm_from fuel turn ≢ confirm_out_of_fuel
  unfolding confirm_from
  confirm_from_ends zero turn p late = absurd (omega arith)
  confirm_from_ends (suc zero) turn p late = ground (arith, late turn (omega arith))
  confirm_from_ends (suc (suc fuel)) turn p late =
      ground
        (arith, confirm_from_ends (suc fuel) (turn + 1) (omega arith) (λ k h. late k (omega arith)))

  unfoldable pub confirm : ℕ → Confirmed
  confirm fuel = confirm_from fuel 0

  -- Where the clock is past the timeout from turn `n` on, `n + 1` turns are enough.
  pub confirm_ends :
      (n : ℕ) → ((k : ℕ) → n ≤ k → timeout < elapsed k) → confirm (n + 1) ≢ confirm_out_of_fuel
  unfolding confirm
  confirm_ends n late = confirm_from_ends (n + 1) 0 (omega arith) (λ k h. late k (omega arith))

-- A call of `get_transaction`: nothing yet, an exception, or the transaction.
pub data Fetch : Type 0 where
  not_there fetch_error : Fetch
  found : ChainTx → Fetch

pub data Fetched : Type 0 where
  fetched : ChainTx → Fetched
  fetch_uncertain fetch_raised fetch_out_of_fuel : Fetched

module _ (fetch : ℕ → Fetch) (elapsed : ℕ → ℕ) (timeout : ℕ) where
  unfoldable pub fetch_from : ℕ → ℕ → Fetched
  fetch_from zero turn = fetch_out_of_fuel
  fetch_from (suc fuel) turn =
      let again = fetch_from fuel (turn + 1) in
      elim (fetch turn) [
        | not_there ↦ if ltb timeout (elapsed turn) then fetch_uncertain else again
        | fetch_error ↦ fetch_raised
        | found tx ↦ fetched tx
      ]

  fetch_from_ends :
      (fuel turn : ℕ)
      → 0 < fuel
      → ((k : ℕ) → turn + fuel ≤ k + 1 → timeout < elapsed k)
      → fetch_from fuel turn ≢ fetch_out_of_fuel
  unfolding fetch_from
  fetch_from_ends zero turn p late = absurd (omega arith)
  fetch_from_ends (suc zero) turn p late = ground (arith, late turn (omega arith))
  fetch_from_ends (suc (suc fuel)) turn p late =
      ground
        (arith, fetch_from_ends (suc fuel) (turn + 1) (omega arith) (λ k h. late k (omega arith)))

  unfoldable pub fetch_transaction : ℕ → Fetched
  fetch_transaction fuel = fetch_from fuel 0

  -- Where the clock is past the timeout from turn `n` on, `n + 1` turns are enough.
  pub fetch_transaction_ends :
      (n : ℕ)
      → ((k : ℕ) → n ≤ k → timeout < elapsed k)
      → fetch_transaction (n + 1) ≢ fetch_out_of_fuel
  unfolding fetch_transaction
  fetch_transaction_ends n late =
      fetch_from_ends (n + 1) 0 (omega arith) (λ k h. late k (omega arith))
