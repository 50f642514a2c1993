-- ===== src/Poster/Enqueue.antt =====
-- What puts posts into the queue of src/tiller/familiars/poster.py: trades, callouts and the daily note. The
-- text of the note, and the part of a callout's key that is drawn, are arguments.
use agent_trading.Base.{
  ℕ, ◌+◌, ◌*◌, ◌/◌, Bool, true, false, Option, none, some, List, [], ◌∷◌, String, if◌then◌else◌,
  ◌||◌, leb, zero, suc,
}
use agent_trading.Base.Dict.{insert}
use agent_trading.Models.{Fill, Side, buy, sell, TradeContext}
use agent_trading.Ledger.Days.{day_length}
use agent_trading.Ledger.Tables.{
  PostKind, note, callout, trade, PostState, queued, posted, uncertain, failed, PostRow,
  post_upsert, post, posts_since,
}
use agent_trading.Poster.{Narrator, Board, Queue, PostOutcome, flush, post_text_max}

abbrev queued_row : String → PostKind → String → Option String → ℕ → ℕ → PostRow
queued_row key kind text mint not_before now = record {
  signature = key;
  kind = kind;
  text = text;
  mint = mint;
  state = queued;
  attempts = 0;
  not_before = some not_before;
  updated_ts = now;
}

-- `utc_day_start`
abbrev pub utc_day_start : ℕ → ℕ
utc_day_start now = now / day_length * day_length

abbrev is_failed : PostState → Bool
is_failed failed = true
is_failed queued = false
is_failed posted = false
is_failed uncertain = false

unfoldable pub count_live : List PostRow → ℕ
count_live [] = 0
count_live (p ∷ ps) = (if is_failed p.state then 0 else 1) + count_live ps

unfoldable pub callouts_today : ℕ → List PostRow → ℕ
callouts_today now rows = count_live (posts_since (utc_day_start now) (some callout) rows)

-- `text[:n]`
unfoldable pub truncate : ℕ → String → String
truncate zero s = String.[]
truncate (suc n) String.[] = String.[]
truncate (suc n) (String.◌∷◌ c s) = String.◌∷◌ c (truncate n s)

module _ {N : Type 0} (n : Narrator (TradeContext N)) where
  -- The context that the text is valid for, where the symbol has to give way.
  abbrev checked_context : TradeContext N → TradeContext N
  checked_context ctx = if n.is_valid (n.render ctx) ctx then ctx else n.with_safe_symbol ctx

  abbrev bought_or_sold : Side → Fill N → String
  bought_or_sold buy f = f.out_mint
  bought_or_sold sell f = f.in_mint

  abbrev queue_trade :
      ℕ → ℕ → Fill N → TradeContext N → String → Queue (TradeContext N) → Queue (TradeContext N)
  queue_trade delay now f ctx signature q =
      let used = checked_context ctx in
      record q {
        rows =
            post_upsert
              (queued_row signature trade (n.render used) (some (bought_or_sold used.side f))
                (f.ts + delay) now)
              q.rows;
        contexts = insert signature used q.contexts;
      }

  unfoldable pub enqueue_trade :
      ℕ → ℕ → Fill N → TradeContext N → Queue (TradeContext N) → Queue (TradeContext N)
  enqueue_trade delay now f ctx q = if f.paper || ctx.paper then q else elim f.signature [
    | none ↦ q
    | some s ↦ elim (post s q.rows) [ some _ ↦ q | none ↦ queue_trade delay now f ctx s q ]
  ]

  -- Whether it was queued, and the queue; `blank` tells a text without a visible character.
  unfoldable pub enqueue_callout :
      ℕ
      → ℕ
      → Bool
      → String
      → String
      → Option String
      → Queue (TradeContext N)
      → Bool × Queue (TradeContext N)
  enqueue_callout cap now blank key text mint q =
      if leb cap (callouts_today now q.rows) || blank then (false, q) else (
        true,
        record q {
          rows =
              post_upsert (queued_row key callout (truncate post_text_max text) mint now now)
                q.rows;
        },
      )

  -- Once a day by its key, and a flush.
  unfoldable pub daily_note :
      String → String → Board → Queue (TradeContext N) → List PostOutcome × Queue (TradeContext N)
  daily_note key text b q = flush n b (elim (post key q.rows) [
    | some _ ↦ q
    | none ↦ record q { rows = post_upsert (queued_row key note text none b.now b.now) q.rows }
  ])
