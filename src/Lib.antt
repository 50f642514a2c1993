-- ===== src/Lib.antt =====
-- tiller, an autonomous trading agent on Solana: on each tick it reads the account, asks its
-- strategies for target weights, nets them into a plan of swaps, checks and sizes each entry, and has
-- a venue quote, simulate, sign and send it. This library models the parts that decide what is bought,
-- sold and signed. Paths are those of the repository.
--
-- Parts and files
--   Base, Decimal: shared names, integers, dicts; Python's Decimal as the operations `DecimalOps`, with
--     the order laws of correctly rounded arithmetic as `DecimalLaws` and one instance, `scaled`.
--   Models: src/tiller/models.py, the wire types that several parts read.
--   Guard: src/tiller/execution/guard.py. Layout and Layout/Tlv parse account bytes
--     (parse_token_account_bytes, parse_mint_bytes, _parse_tlv), Mint is check_mint, Quote is
--     check_quote, Transaction is check_transaction, Simulation is check_simulation.
--   Venue: src/tiller/execution/venue.py. Swap is LiveSolanaVenue.swap as a list of effects and an end,
--     Loops its loops _execute_with_resubmit, _confirm and _fetch_transaction, Realised realised_fill_from_tx. The swap
--     calls the checks of Guard; what the network answers is the record `Network`. Paper is
--     PaperVenue.swap and FixtureVenue.swap, which write their fill to the book of Ledger.
--   Config: src/tiller/config.py, l0_violations and effective_allocation.
--   State: src/tiller/state.py, the hot state; State/Lock is InstanceLock, each call a read of the lock
--     file and then a step that may write or unlink it.
--   Account: src/tiller/risk/account.py, balances, drawdowns and deposit-adjusted peaks.
--   Allocator: src/tiller/portfolio/allocator.py. Netting is net_targets, Plan is plan, and the file
--     itself has the exits and the trailing stop.
--   Risk: src/tiller/risk/engine.py. Directive is parse_directive, Limits effective_limits, Canary
--     advance_canary, Brakes brake_state and must_flatten, Entry check_entry, Sizing size_order.
--   Ledger: src/tiller/ledger.py, each table as a list of rows in the order of their ids. Positions is
--     _position_add and _position_sub, Fills _record_fill, Orders record_order and finalize_order,
--     Days the transfers, equity and day_stats, Tables the blocklist, posts and leader trades.
--   Reconcile: src/tiller/risk/reconcile.py. Pending is finalize_pending, which finalizes the orders of
--     Ledger by the fills of Venue/Realised; Compare and Propose are the steps of reconcile.
--   Poster: src/tiller/familiars/poster.py, PostQueue over the posts of Ledger/Tables; Enqueue has what
--     puts posts into it.
--   Copy: src/tiller/copy. Cluster is cluster, Exits and Leaders the rules of leaders.py, Consensus and
--     Strategy those of strategy.py, which give targets to Allocator/Netting.
--   Tokens: evaluate_token_gate of src/tiller/data/tokens.py, whose result the venue's swap asks for.
--   Engine: plan_tick of src/tiller/engine.py, which decides on the intents of Allocator/Plan by
--     Risk/Entry, the gate's results and Risk/Sizing.
--   Tests: concrete inputs.
--
-- Bounds and fuel
--   The TLV parser has one step of fuel for each byte, since an entry takes at least four. The loop of
--   execute has one turn more than the resubmits, after which it gives up. The loops that confirm
--   and that fetch the transaction wait for a clock: their turns are an argument, and enough once the
--   clock is past the timeout.
--   The search for a root in a cluster has the index as fuel, since a parent is below its child.
--   Instants are counts of microseconds; Python's ints are the integers of Base/Int.
--
-- Not modelled
--   Texts of reasons and events, which are constructors or left out; exceptions of the clients before a
--   swap is recorded, which end the call without a row; the loading of files and of the
--   environment; the HTTP and RPC clients, the signer and the token service, whose answers are
--   arguments; floats, which are a type with its tests; of the ledger the raw snapshots and the tax
--   export; of the copy trading the eligibility, replay and scores of leaders, the shadow book and the
--   feeds; the strategies and indicators, the candles, the backtest, and the engine loop beyond
--   its planner.
pub mod Base
pub mod Guard
pub mod Decimal
pub mod Models
pub mod Ledger
pub mod Reconcile
pub mod Poster
pub mod Copy
pub mod Tokens
pub mod Engine
mod Tests
pub mod Config
pub mod State
pub mod Account
pub mod Allocator
pub mod Risk
pub mod Venue
