-- ===== src/Poster/Ends.antt =====
-- Over any flushes a post takes few turns, is sent few times, and ends.
use agent_trading.Base.{
  ℕ, ◌+◌, ◌-◌, ◌≤◌, ◌≡◌, refl, ap, ◌∙◌, true, false, Option, none, some, List, [], ◌∷◌, String,
  arith, if◌then◌else◌, Bool-cases, inl, inr,
}
use agent_trading.Ledger.Tables.{queued, PostRow, post, is_open}
use agent_trading.Poster.Keyed.{IsKeyed, is_taken, post-signature}
use agent_trading.Poster.Flush.{sends, flush-IsKeyed, flush_takes, flush_leaves}
use agent_trading.Poster.{Narrator, Board, Queue, turn, flush}
use agent_trading.Poster.Steps.{IsBounded, turn-Step}

module _ {C : Type 0} (n : Narrator C) where
  -- The flushes, and the number of them that take up a post.
  unfoldable pub flushes : List Board → Queue C → Queue C
  flushes [] q = q
  flushes (b ∷ bs) q = flushes bs (flush n b q).1

  flushes-IsKeyed : (bs : List Board) (q : Queue C) → IsKeyed q.rows → IsKeyed (flushes bs q).rows
  unfolding flushes
  flushes-IsKeyed [] q h = h
  flushes-IsKeyed (b ∷ bs) q h = flushes-IsKeyed bs (flush n b q).1 (flush-IsKeyed n b q h)

  abbrev takes : Board → Option PostRow → ℕ
  takes b none = 0
  takes b (some p) = if is_taken b.now p then 1 else 0

  unfoldable pub turns : String → List Board → Queue C → ℕ
  turns k [] q = 0
  turns k (b ∷ bs) q = takes b (post k q.rows) + turns k bs (flush n b q).1

  -- The post after some flushes.
  record Ended (k : String) (p : PostRow) (start : ℕ) (q' : Queue C) (taken : ℕ) : Type 0 where
    row : PostRow
    there : post k q'.rows ≡ some row
    bounded : IsBounded row
    counted : sends k q'.sent + p.attempts ≡ start + row.attempts
    open_turns : is_open row.state ≡ true → row.attempts ≡ p.attempts + taken
    stays : is_open p.state ≡ false → row ≡ p
    all_turns : taken ≤ (if is_open p.state then 7 - p.attempts else 0)

  flushes-Ended :
      (k : String) (bs : List Board) (q : Queue C) (p : PostRow)
      → IsKeyed q.rows
      → post k q.rows ≡ some p
      → IsBounded p
      → Ended k p (sends k q.sent) (flushes bs q) (turns k bs q)
  unfolding flushes turns
  flushes-Ended k [] q p keyed e h = record {
    row = p;
    there = e;
    bounded = h;
    counted = refl;
    open_turns = λ _. omega arith;
    stays = λ _. refl;
    all_turns = omega arith;
  }
  flushes-Ended k (b ∷ bs) q p keyed e h = elim (Bool-cases (is_taken b.now p)) [
    | inr left ↦
        let (same, quiet) = flush_leaves n b k q p keyed e left in
        let rest = flushes-Ended k bs (flush n b q).1 p (flush-IsKeyed n b q keyed) same h in
        record {
          row = rest.row;
          there = rest.there;
          bounded = rest.bounded;
          counted = ground (arith, rest.counted, quiet);
          open_turns = λ o. ground (arith, rest.open_turns o, e, left);
          stays = rest.stays;
          all_turns = ground (arith, rest.all_turns, e, left);
        }
    | inl taken ↦
        let t = flush_takes n b k q p keyed e taken in
        let step =
          turn-Step n b t.contexts k p (post-signature k q.rows p e) (ground (arith, taken)) h in
        let rest =
          flushes-Ended k bs (flush n b q).1 (turn n b t.contexts p).row (flush-IsKeyed n b q keyed)
            t.row step.bounded in
        record {
          row = rest.row;
          there = rest.there;
          bounded = rest.bounded;
          counted = ground (arith, rest.counted, t.sent, step.counted);
          open_turns =
              λ o. ground (arith, rest.open_turns o, rest.stays, step.advanced, e, taken, o);
          stays = λ closed. absurd (ground (arith, closed, taken));
          all_turns = ground (arith, rest.all_turns, step.advanced, e, taken, h);
        }
  ]

-- A queued post that was not sent yet, in a table without a repeated key: over any flushes, whatever the
-- board, the narrator and the clock answer, its row stays, at most six of its calls of `client.post`
-- are made, and at most seven flushes take it up; if seven do, it is neither queued nor uncertain; and
-- once it is posted or failed, no later flushes change its row or send it.
pub flushes_settle :
    {C : Type 0} (n : Narrator C) (k : String) (bs later : List Board) (q : Queue C) (p : PostRow)
    → IsKeyed q.rows
    → post k q.rows ≡ some p
    → p.state ≡ queued
    → p.attempts ≡ 0
    → let q' = flushes n bs q in
      (row : PostRow) × (post k q'.rows ≡ some row)
      × (sends k q'.sent ≤ sends k q.sent + 6)
      × (turns n k bs q ≤ 7)
      × (turns n k bs q ≡ 7 → is_open row.state ≡ false)
      × (is_open row.state ≡ false
          → (post k (flushes n later q').rows ≡ some row)
            × (sends k (flushes n later q').sent ≡ sends k q'.sent))
flushes_settle n k bs later q p keyed e fresh none_sent =
    let run = flushes-Ended n k bs q p keyed e (ground (arith, fresh, none_sent)) in
    let after =
      flushes-Ended n k later (flushes n bs q) run.row (flushes-IsKeyed n bs q keyed) run.there
        run.bounded in
    (
      run.row,
      run.there,
      ground (arith, run.counted, run.bounded, none_sent),
      ground (arith, run.all_turns, fresh, none_sent),
      (λ all. elim (Bool-cases (is_open run.row.state)) [
        | inr closed ↦ closed
        | inl still ↦ absurd (ground (arith, run.open_turns still, run.bounded, all, none_sent))
      ]),
      (λ closed. (
        after.there ∙ ap some (after.stays closed),
        ground (arith, after.counted, after.stays closed),
      )),
    )
