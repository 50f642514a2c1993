-- ===== src/Poster/Steps.antt =====
-- One turn of an open post: its sends are counted, and it ends or is sent.
use agent_trading.Base.{
  ◌+◌, ◌≡◌, refl, ◌∙◌, true, false, Option, List, String, arith, leb, Bool-cases, inl, inr,
}
use agent_trading.Base.Text.{str_eq_iff}
use agent_trading.Base.Dict.{Dict}
use agent_trading.Ledger.Tables.{PostState, queued, posted, uncertain, failed, PostRow, is_open}
use agent_trading.Poster.Flush.{sends}
use agent_trading.Poster.{
  Narrator, Board, SentPost, PostResult, answered_row, closed_turn, is_synthetic_key, OutcomeKind,
  was_failed, verified, send, recheck, turn, turn_in, verify_posted, max_uncertain_sends,
}

-- The sends of a row so far, by its state.
abbrev pub IsBounded : PostRow → Type 0
IsBounded p =
    leb p.attempts (elim p.state [ queued ↦ 5 | uncertain ↦ 6 | posted ↦ 6 | failed ↦ 6 ]) ≡ true

-- A turn of an open post: it counts its sends, and ends the post or sends it.
pub record Step (k : String) (p r : PostRow) (calls : List SentPost) : Type 0 where
  pub bounded : IsBounded r
  pub counted : r.attempts ≡ p.attempts + sends k calls
  pub advanced : is_open r.state ≡ true → r.attempts ≡ p.attempts + 1

answered_row-IsBounded :
    (b : Board) (p : PostRow) (text : String) (r : Option PostResult)
    → leb p.attempts 5 ≡ true
    → IsBounded (answered_row b p text r).0
answered_row-IsBounded b p text r h = ground (arith, h)

answered_row-attempts :
    (b : Board) (p : PostRow) (text : String) (r : Option PostResult)
    → (answered_row b p text r).0.attempts ≡ p.attempts + 1
answered_row-attempts b p text r = ground arith

module _ {C : Type 0} (n : Narrator C) where
  send-Step :
      (b : Board) (contexts : Dict C) (k : String) (p : PostRow)
      → p.signature ≡ k
      → leb p.attempts 5 ≡ true
      → Step k p (send n b contexts p).row (send n b contexts p).calls
  unfolding send
  send-Step b contexts k p e h = record {
    bounded = answered_row-IsBounded b p _ _ h;
    counted = answered_row-attempts b p _ _ ∙ ground (arith, e, str_eq_iff p.signature k);
    advanced = λ _. answered_row-attempts b p _ _;
  }

  closed_turn-Step :
      (b : Board) (k : String) (p : PostRow) (s : PostState) (o : OutcomeKind)
      → is_open s ≡ false
      → leb p.attempts 6 ≡ true
      → Step k p (closed_turn n b p s o).row (closed_turn n b p s o).calls
  closed_turn-Step b k p s o final h = record {
    bounded = ground (arith, final, h);
    counted = omega arith;
    advanced = λ e. absurd (ground (arith, e, final));
  }

  recheck-Step :
      (b : Board) (contexts : Dict C) (k : String) (p : PostRow)
      → p.signature ≡ k
      → leb p.attempts 6 ≡ true
      → Step k p (recheck n b contexts p).row (recheck n b contexts p).calls
  recheck-Step b contexts k p e h = elim (Bool-cases (is_synthetic_key p.signature)) [
    | inl synthetic ↦ rw (synthetic, recheck) (closed_turn-Step b k p failed was_failed refl h)
    | inr traded ↦ elim (Bool-cases (verify_posted (b.agent p.signature) p.signature)) [
      | inl there ↦ rw (traded, there, recheck) (closed_turn-Step b k p posted verified refl h)
      | inr absent ↦ elim (Bool-cases (leb max_uncertain_sends p.attempts)) [
        | inl twice ↦
            rw (traded, absent, twice, recheck) (closed_turn-Step b k p failed was_failed refl h)
        | inr once ↦
            rw (traded, absent, once, recheck) (send-Step b contexts k p e (ground (arith, once)))
      ]
    ]
  ]

  turn_in-Step :
      (b : Board) (contexts : Dict C) (k : String) (p : PostRow) (s : PostState)
      → p.state ≡ s
      → p.signature ≡ k
      → is_open s ≡ true
      → IsBounded p
      → Step k p (turn_in n s b contexts p).row (turn_in n s b contexts p).calls
  turn_in-Step b contexts k p queued at e o h = send-Step b contexts k p e (ground (arith, at, h))
  turn_in-Step b contexts k p uncertain at e o h =
      recheck-Step b contexts k p e (ground (arith, at, h))
  turn_in-Step b contexts k p posted at e o h = absurd (ground (arith, o))
  turn_in-Step b contexts k p failed at e o h = absurd (ground (arith, o))

  pub turn-Step :
      (b : Board) (contexts : Dict C) (k : String) (p : PostRow)
      → p.signature ≡ k
      → is_open p.state ≡ true
      → IsBounded p
      → Step k p (turn n b contexts p).row (turn n b contexts p).calls
  unfolding turn
  turn-Step b contexts k p e o h = turn_in-Step b contexts k p p.state refl e o h
