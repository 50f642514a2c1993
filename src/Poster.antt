-- ===== src/Poster.antt =====
-- `PostQueue` of src/tiller/familiars/poster.py: the queue of posts for the board. The board, the narrator
-- and the random draws are arguments; events are left out, and the calls of `client.post` are logged.
pub mod Keyed
pub mod Flush
pub mod Steps
pub mod Ends
pub mod Enqueue
use agent_trading.Base.{
  ℕ, ◌+◌, ◌-◌, ◌*◌, ◌^◌, ◌/◌, Bool, true, false, Option, none, some, List, [], ◌∷◌, ◌++◌, String,
  if◌then◌else◌, not, ◌&&◌, ◌||◌, leb, ltb, any, length,
}
use text.Mathlib.Text.{starts_with}
use agent_trading.Base.Text.{str_eq, append}
use agent_trading.Base.Dict.{Dict, lookup, insert}
use agent_trading.Models.{Fill, Side, buy, sell}
use agent_trading.Ledger.Tables.{
  PostKind, note, callout, trade, PostState, queued, posted, uncertain, failed, PostRow,
  post_upsert, post, posts_pending,
}

-- `MAX_RATE_LIMIT_ATTEMPTS` and `MAX_UNCERTAIN_SENDS`
abbrev pub max_rate_limit_attempts : ℕ
max_rate_limit_attempts = 6

abbrev pub max_uncertain_sends : ℕ
max_uncertain_sends = 2

-- `UNCERTAIN_RECHECK_S`, in microseconds as all instants are.
abbrev pub uncertain_recheck : ℕ
uncertain_recheck = 60000000

abbrev pub backoff_base : ℕ
backoff_base = 30000000

abbrev pub backoff_max : ℕ
backoff_max = 900000000

-- `POST_TEXT_MAX`
abbrev pub post_text_max : ℕ
post_text_max = 500

-- `PostStatus`
pub data PostStatus : Type 0 where
  ok rate_limited unclear rejected : PostStatus

pub record PostResult : Type 0 where
  pub status : PostStatus
  pub retry_after : Option ℕ

-- The arguments of a call of `client.post`, with the key of the row that it is for.
pub record SentPost : Type 0 where
  pub key : String
  pub kind : PostKind
  pub text : String
  pub mint : Option String
  pub signature : Option String

-- `Outcome`
pub data OutcomeKind : Type 0 where
  was_posted deferred was_uncertain was_failed verified : OutcomeKind

pub record PostOutcome : Type 0 where
  pub signature : String
  pub kind : PostKind
  pub outcome : OutcomeKind

-- The narrator, for contexts of type `C`; `compose` is `none` on an exception.
pub record Narrator (C : Type 0) : Type 0 where
  pub compose : C → Option String
  pub render : C → String
  pub is_valid : String → C → Bool
  pub with_safe_symbol : C → C

-- What the world answers during a flush. `none` is an exception of `client.post`, and of `client.agent` an
-- exception or an agent that is not there.
pub record Board : Type 0 where
  pub now : ℕ
  pub reply : SentPost → Option PostResult
  pub agent : String → Option (List (Dict String))
  -- `rng.uniform(0, b)`
  pub uniform : ℕ → ℕ

pub record Queue (C : Type 0) : Type 0 where
  pub rows : List PostRow
  pub contexts : Dict C
  pub sent : List SentPost

-- `is_synthetic_key`
abbrev pub is_synthetic_key : String → Bool
is_synthetic_key s = starts_with s "note:" || starts_with s "callout:"

abbrev has_field : String → String → Dict String → Bool
has_field signature k p = elim (lookup k p) [ none ↦ false | some v ↦ str_eq v signature ]

-- `verify_posted`
unfoldable pub verify_posted : Option (List (Dict String)) → String → Bool
verify_posted none signature = false
verify_posted (some posts) signature =
    any
      (λ p.
        any (λ k. has_field signature k p)
          ("signature" ∷ "txSignature" ∷ "tx" ∷ "swapSignature" ∷ []))
      posts

abbrev at_most : ℕ → ℕ → ℕ
at_most a b = if ltb b a then b else a

-- `_rate_limit_delay`
unfoldable pub rate_limit_delay : (ℕ → ℕ) → ℕ → Option ℕ → ℕ
rate_limit_delay uniform attempts (some r) = r + uniform 5000000
rate_limit_delay uniform attempts none =
    let base = at_most backoff_max (backoff_base * 2 ^ (attempts - 1)) in base + uniform (base / 2)

abbrev pub signature_for : PostRow → Option String
signature_for p = if is_synthetic_key p.signature then none else some p.signature

-- The row that an upsert of a post writes.
abbrev pub row_with : PostRow → String → PostState → ℕ → Option ℕ → ℕ → PostRow
row_with p text state attempts not_before now = record {
  signature = p.signature;
  kind = p.kind;
  text = text;
  mint = p.mint;
  state = state;
  attempts = attempts;
  not_before = not_before;
  updated_ts = now;
}

-- What a turn makes of a post: its row, the outcome, and the calls of `client.post`.
pub record Turn : Type 0 where
  pub row : PostRow
  pub outcome : OutcomeKind
  pub calls : List SentPost

-- The branches on the answer to a send.
abbrev pub answered_row : Board → PostRow → String → Option PostResult → PostRow × OutcomeKind
answered_row b p text none = (row_with p text failed (p.attempts + 1) none b.now, was_failed)
answered_row b p text (some r) =
    let attempts = p.attempts + 1 in
    elim r.status [
      | ok ↦ (row_with p text posted attempts none b.now, was_posted)
      | rate_limited ↦
          if leb max_rate_limit_attempts attempts
          then (row_with p text failed attempts none b.now, was_failed)
          else (
            row_with p text queued attempts
                (some (b.now + rate_limit_delay b.uniform attempts r.retry_after)) b.now,
            deferred,
          )
      | unclear ↦ (
        row_with p text uncertain attempts (some (b.now + uncertain_recheck)) b.now,
        was_uncertain,
      )
      | rejected ↦ (row_with p text failed attempts none b.now, was_failed)
    ]

module _ {C : Type 0} (n : Narrator C) where
  -- `_text_for`
  unfoldable pub text_for : Dict C → PostRow → String
  text_for contexts p = elim (lookup p.signature contexts) [
    | none ↦ p.text
    | some ctx ↦ elim (n.compose ctx) [
      | none ↦ p.text
      | some text ↦ if n.is_valid text ctx then text else p.text
    ]
  ]

  -- `_send`
  unfoldable pub send : Board → Dict C → PostRow → Turn
  send b contexts p =
      let text = text_for contexts p in
      let call : SentPost = record {
        key = p.signature;
        kind = p.kind;
        text = text;
        mint = p.mint;
        signature = signature_for p;
      } in
      let (row, outcome) = answered_row b p text (b.reply call) in
      record { row = row; outcome = outcome; calls = call ∷ [] }

  abbrev closed_turn : Board → PostRow → PostState → OutcomeKind → Turn
  closed_turn b p state outcome = record {
    row = row_with p p.text state p.attempts none b.now;
    outcome = outcome;
    calls = [];
  }

  abbrev recheck : Board → Dict C → PostRow → Turn
  recheck b contexts p =
      if is_synthetic_key p.signature
      then closed_turn b p failed was_failed
      else (if verify_posted (b.agent p.signature) p.signature
          then closed_turn b p posted verified
          else (if leb max_uncertain_sends p.attempts
              then closed_turn b p failed was_failed
              else send b contexts p))

  -- The body of the loop of `flush`, by the state of the post.
  abbrev turn_in : PostState → Board → Dict C → PostRow → Turn
  turn_in uncertain b contexts p = recheck b contexts p
  turn_in queued b contexts p = send b contexts p
  turn_in posted b contexts p = send b contexts p
  turn_in failed b contexts p = send b contexts p

  unfoldable pub turn : Board → Dict C → PostRow → Turn
  turn b contexts p = turn_in p.state b contexts p

  -- `self._contexts.pop(signature, None)`
  unfoldable pub pop : String → Dict C → Dict C
  pop k [] = []
  pop k ((j, c) ∷ d) = if str_eq j k then pop k d else (j, c) ∷ pop k d

  abbrev popped : PostRow → Dict C → Dict C
  popped row contexts = elim row.state [
    | posted ↦ pop row.signature contexts
    | queued ↦ contexts
    | uncertain ↦ contexts
    | failed ↦ contexts
  ]

  abbrev pub after_turn : Turn → Queue C → Queue C
  after_turn t q = record {
    rows = post_upsert t.row q.rows;
    contexts = popped t.row q.contexts;
    sent = q.sent ++ t.calls;
  }

  unfoldable pub flush_posts : Board → List PostRow → Queue C → List PostOutcome × Queue C
  flush_posts b [] q = ([], q)
  flush_posts b (p ∷ ps) q =
      let t = turn b q.contexts p in
      let (outcomes, last) = flush_posts b ps (after_turn t q) in
      (record { signature = p.signature; kind = p.kind; outcome = t.outcome } ∷ outcomes, last)

  unfoldable pub flush : Board → Queue C → List PostOutcome × Queue C
  flush b q = flush_posts b (posts_pending b.now q.rows) q
