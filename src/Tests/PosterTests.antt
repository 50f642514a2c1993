-- ===== src/Tests/PosterTests.antt =====
-- A queue of one trade post, over flushes that the board answers with a limit, a doubt and silence.
use agent_trading.Base.{ℕ, ◌+◌, ◌≤◌, ◌≡◌, refl, true, false, none, some, List, [], ◌∷◌}
use agent_trading.Base.Int.{ℤ}
use agent_trading.Models.{TradeContext}
use agent_trading.Ledger.Tables.{trade, queued, PostRow, post, is_open}
use agent_trading.Poster.{Narrator, Board, Queue, PostStatus, rate_limited, unclear}
use agent_trading.Poster.Flush.{sends}
use agent_trading.Poster.Ends.{flushes, turns, flushes_settle}

abbrev narrator : Narrator (TradeContext ℤ)
narrator = record {
  compose = λ _. none;
  render = λ c. c.rule;
  is_valid = λ text c. true;
  with_safe_symbol = λ c. c;
}

abbrev board_at : ℕ → PostStatus → Board
board_at now status = record {
  now = now;
  reply = λ _. some (record { status = status; retry_after = none });
  agent = λ _. some [];
  uniform = λ _. 0;
}

abbrev sold_post : PostRow
sold_post = record {
  signature = "s1";
  kind = trade;
  text = "sold";
  mint = none;
  state = queued;
  attempts = 0;
  not_before = none;
  updated_ts = 0;
}

abbrev one_post : Queue (TradeContext ℤ)
one_post = record { rows = sold_post ∷ []; contexts = []; sent = [] }

abbrev first_boards : List Board
first_boards = board_at 100000000 rate_limited ∷ board_at 200000000 unclear ∷ []

abbrev later_boards : List Board
later_boards = board_at 1000000000 unclear ∷ []

one_found : post "s1" one_post.rows ≡ some sold_post
unfolding post
one_found = refl

flushes_settle_example :
    let q' = flushes narrator first_boards one_post in
    (row : PostRow) × (post "s1" q'.rows ≡ some row)
    × (sends "s1" q'.sent ≤ sends "s1" one_post.sent + 6)
    × (turns narrator "s1" first_boards one_post ≤ 7)
    × (turns narrator "s1" first_boards one_post ≡ 7 → is_open row.state ≡ false)
    × (is_open row.state ≡ false
        → (post "s1" (flushes narrator later_boards q').rows ≡ some row)
          × (sends "s1" (flushes narrator later_boards q').sent ≡ sends "s1" q'.sent))
flushes_settle_example =
    flushes_settle narrator "s1" first_boards later_boards one_post sold_post (tt, tt) one_found
      refl refl
