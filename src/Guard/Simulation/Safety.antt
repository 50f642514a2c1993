-- ===== src/Guard/Simulation/Safety.antt =====
-- What a passed simulation shows, in one statement.
use agent_trading.Base.{false, ◌≡◌, ◌≢◌, inl, inr, none, some, List, String, arith, ℕ, All}
use agent_trading.Models.{sol_mint}
use agent_trading.Guard.Simulation.{
  SimAccount, SimResult, SimExpectations, check_simulation, check_wallet, check_rounds, last_entry,
}
use agent_trading.Guard.Simulation.Keeps.{IsKept, check_rounds-IsKept}
use agent_trading.Guard.Simulation.Pays.{
  IsSolvent, AnyPaid, check_wallet-IsSolvent, check_rounds-AnyPaid,
}

module _ (pubkey_b58 : List ℕ → String) (sim : SimResult) (expect : SimExpectations) where
  check_simulation_parts :
      check_simulation pubkey_b58 sim expect ≡ none
      → (check_wallet pubkey_b58 sim expect
            (last_entry expect.wallet sim.accounts_requested sim.accounts)
          ≡ none)
        × (check_rounds pubkey_b58 sim expect sim.accounts_requested false ≡ none)
  unfolding check_simulation
  check_simulation_parts h = ground arith

  -- If the simulation passes, then it did not fail; the wallet is in the snapshot, is a system
  -- account still, and its lamports fell by no more than the allowance and, where SOL is bought,
  -- rose by the minimum less the fee allowance; every requested token account that we owned, of
  -- a mint other than SOL, is still there with its mint, is ours, has no delegate and no foreign
  -- close authority, is not frozen, lost at most the input amount if it is of the input mint, rose
  -- by the minimum output if it is of the output mint, and otherwise did not fall; and where the
  -- output is not SOL, a requested account of its mint rose by the minimum.
  pub check_simulation_sound :
      check_simulation pubkey_b58 sim expect ≡ none
      → (sim.failed ≡ false)
        × ((w : SimAccount) × (last_entry expect.wallet sim.accounts_requested sim.accounts
              ≡ some (some w))
            × IsSolvent expect w)
        × All (IsKept pubkey_b58 sim expect) sim.accounts_requested
        × (expect.output_mint ≢ sol_mint → AnyPaid pubkey_b58 sim expect sim.accounts_requested)
  check_simulation_sound h =
      let (wallet, rounds) = check_simulation_parts h in
      (
        (unfold check_simulation in ground arith),
        check_wallet-IsSolvent pubkey_b58 sim expect _ wallet,
        check_rounds-IsKept pubkey_b58 sim expect sim.accounts_requested false rounds,
        λ s.
            elim (check_rounds-AnyPaid pubkey_b58 sim expect sim.accounts_requested false rounds
              s) [ inl e ↦ absurd (cc) | inr paid ↦ paid ],
      )
