-- ===== src/Poster/Flush.antt =====
-- What a flush does to one post.
use agent_trading.Base.{
  ℕ, ◌+◌, ◌≡◌, refl, ◌∙◌, true, false, Option, some, List, [], ◌∷◌, ◌++◌, String, arith,
  if◌then◌else◌, All, Bool-cases, inl, inr, subst,
}
use agent_trading.Base.Text.{str_eq, str_eq_iff}
use agent_trading.Base.Dict.{Dict}
use agent_trading.Ledger.Tables.{PostRow, post, posts_pending}
use agent_trading.Poster.Keyed.{
  OtherKey, IsKeyed, Without, is_taken, post-Without, post-post_upsert, post_upsert-IsKeyed,
  posts_pending-IsKeyed, posts_pending-post,
}
use agent_trading.Poster.{
  Narrator, Board, Queue, SentPost, PostResult, answered_row, send, turn, after_turn, flush_posts,
  flush,
}

-- The calls of `client.post` for a row.
abbrev pub sends : String → List SentPost → ℕ
sends k [] = 0
sends k (s ∷ ss) = (if str_eq s.key k then 1 else 0) + sends k ss

sends-append : (k : String) (xs ys : List SentPost) → sends k (xs ++ ys) ≡ sends k xs + sends k ys
sends-append k [] ys = omega arith
sends-append k (x ∷ xs) ys = ground (arith, sends-append k xs ys)

answered_row-signature :
    (b : Board) (p : PostRow) (text : String) (r : Option PostResult)
    → (answered_row b p text r).0.signature ≡ p.signature
answered_row-signature b p text r = ground arith

module _ {C : Type 0} (n : Narrator C) where
  turn-signature :
      (b : Board) (contexts : Dict C) (p : PostRow)
      → (turn n b contexts p).row.signature ≡ p.signature
  unfolding turn send
  turn-signature b contexts p = ground (arith, answered_row-signature b p)

  -- A turn's calls are for its own row.
  turn-sends_other :
      (b : Board) (contexts : Dict C) (p : PostRow) (k : String)
      → str_eq p.signature k ≡ false
      → sends k (turn n b contexts p).calls ≡ 0
  unfolding turn send
  turn-sends_other b contexts p k h = ground (arith, h)

  -- The rows before and after, for a key that the loop does not take up.
  flush_posts-other :
      (b : Board) (k : String) (ps : List PostRow) (q : Queue C)
      → Without k ps
      → (post k (flush_posts n b ps q).1.rows ≡ post k q.rows)
        × (sends k (flush_posts n b ps q).1.sent ≡ sends k q.sent)
  unfolding flush_posts
  flush_posts-other b k [] q h = (refl, refl)
  flush_posts-other b k (p ∷ ps) q h =
      let t = turn n b q.contexts p in
      let rest = flush_posts-other b k ps (after_turn n t q) h.1 in
      (
        rest.0
            ∙ post-post_upsert k t.row q.rows
            ∙ ground (arith, turn-signature b q.contexts p, h.0),
        rest.1
            ∙ sends-append k q.sent t.calls
            ∙ ground (arith, turn-sends_other b q.contexts p k h.0),
      )

  flush_posts-IsKeyed :
      (b : Board) (ps : List PostRow) (q : Queue C)
      → IsKeyed q.rows
      → IsKeyed (flush_posts n b ps q).1.rows
  unfolding flush_posts
  flush_posts-IsKeyed b [] q h = h
  flush_posts-IsKeyed b (p ∷ ps) q h =
      flush_posts-IsKeyed b ps _ (post_upsert-IsKeyed (turn n b q.contexts p).row q.rows h)

  own_Without :
      (k : String) (r : PostRow) (ps : List PostRow)
      → str_eq r.signature k ≡ true
      → All (OtherKey r) ps
      → Without k ps
  own_Without k r [] e h = tt
  own_Without k r (p ∷ ps) e h = (
    ground (
      arith,
      e,
      h.0,
      str_eq_iff r.signature k,
      str_eq_iff r.signature p.signature,
      str_eq_iff p.signature k,
    ),
    own_Without k r ps e h.1,
  )

  -- One turn of a post, with the contexts that were there then.
  pub record Taken (b : Board) (k : String) (p : PostRow) (q q' : Queue C) : Type 0 where
    pub contexts : Dict C
    pub row : post k q'.rows ≡ some (turn n b contexts p).row
    pub sent : sends k q'.sent ≡ sends k q.sent + sends k (turn n b contexts p).calls

  flush_posts-own :
      (b : Board) (k : String) (ps : List PostRow) (q : Queue C) (p : PostRow)
      → IsKeyed ps
      → post k ps ≡ some p
      → Taken b k p q (flush_posts n b ps q).1
  unfolding flush_posts post
  flush_posts-own b k [] q p h e = cc
  flush_posts-own b k (r ∷ ps) q p h e = elim (Bool-cases (str_eq r.signature k)) [
    | inr other ↦
        let t = turn n b q.contexts r in
        let rest = flush_posts-own b k ps (after_turn n t q) p h.1 (ground (arith, e, other)) in
        record {
          contexts = rest.contexts;
          row = rest.row;
          sent =
              rest.sent
              ∙ ground
                  (arith, sends-append k q.sent t.calls, turn-sends_other b q.contexts r k other);
        }
    | inl own ↦
        let t = turn n b q.contexts r in
        let rest = flush_posts-other b k ps (after_turn n t q) (own_Without k r ps own h.0) in
        let same : r ≡ p = ground (arith, e, own) in
        subst (λ s. Taken b k s q (flush_posts n b ps (after_turn n t q)).1) same
          (record {
            contexts = q.contexts;
            row =
                rest.0
                ∙ post-post_upsert k t.row q.rows
                ∙ ground (arith, turn-signature b q.contexts r, own);
            sent = rest.1 ∙ sends-append k q.sent t.calls;
          })
  ]

  pub flush-IsKeyed : (b : Board) (q : Queue C) → IsKeyed q.rows → IsKeyed (flush n b q).1.rows
  unfolding flush
  flush-IsKeyed b q h = flush_posts-IsKeyed b (posts_pending b.now q.rows) q h

  -- A post that is open and due takes one turn, and any other none.
  pub flush_takes :
      (b : Board) (k : String) (q : Queue C) (p : PostRow)
      → IsKeyed q.rows
      → post k q.rows ≡ some p
      → is_taken b.now p ≡ true
      → Taken b k p q (flush n b q).1
  unfolding flush
  flush_takes b k q p h e taken =
      flush_posts-own b k (posts_pending b.now q.rows) q p (posts_pending-IsKeyed b.now q.rows h)
        (posts_pending-post k b.now q.rows p h e ∙ ground (arith, taken))

  pub flush_leaves :
      (b : Board) (k : String) (q : Queue C) (p : PostRow)
      → IsKeyed q.rows
      → post k q.rows ≡ some p
      → is_taken b.now p ≡ false
      → (post k (flush n b q).1.rows ≡ some p) × (sends k (flush n b q).1.sent ≡ sends k q.sent)
  unfolding flush
  flush_leaves b k q p h e left =
      let pending = posts_pending b.now q.rows in
      let gone = posts_pending-post k b.now q.rows p h e ∙ ground (arith, left) in
      let rest = flush_posts-other b k pending q (post-Without k pending gone) in
      (rest.0 ∙ e, rest.1)
