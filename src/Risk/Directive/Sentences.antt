-- ===== src/Risk/Directive/Sentences.antt =====
-- Which instructions order a liquidation or a pause.
use agent_trading.Base.{
  ℕ, false, ◌≡◌, ◌↔◌, ◌⊎◌, refl, ap, ◌∙◌, sym, subst, inl, inr, Option, none, some, List, [], ◌∷◌,
  ◌++◌, String, arith, All, Bool, true, if◌then◌else◌, ◌==◌, ◌&&◌,
}
use mathlib.Core.List.{append-nil, append_assoc}
use agent_trading.Risk.Directive.Opens.{Opens, opens_with_iff}
use agent_trading.Risk.Directive.Splits.{IsSplit, sentences-IsSplit}
use agent_trading.Risk.Directive.{
  opens_with, lowered, lstrip, first_phrase, Directive, pause, liquidate, codes, is_mark,
  blank_ahead, split_from, sentences, sentence_directive, strongest, prefer, parse_directive,
}

-- A sentence that opens with a phrase of liquidation, and one that opens with a phrase of a pause.
abbrev pub Liquidates : List ℕ → Type 0
Liquidates s = Opens (codes "liquidate") s ⊎ Opens (codes "sell all") s

abbrev pub Pauses : List ℕ → Type 0
Pauses s = Opens (codes "stop trading") s ⊎ Opens (codes "pause") s

-- Some sentence does.
abbrev pub Some : (List ℕ → Type 0) → List (List ℕ) → Type 0
Some P [] = ⊥
Some P (s ∷ r) = P s ⊎ Some P r

Opens-liquidate :
    (s : List ℕ)
    → (opens_with (codes "liquidate") (lowered (lstrip s)) ≡ true) ↔ Opens (codes "liquidate") s
Opens-liquidate s = opens_with_iff _ _ s (omega arith) (omega arith) (ground arith)

Opens-sell_all :
    (s : List ℕ)
    → (opens_with (codes "sell all") (lowered (lstrip s)) ≡ true) ↔ Opens (codes "sell all") s
Opens-sell_all s = opens_with_iff _ _ s (omega arith) (omega arith) (ground arith)

Opens-stop_trading :
    (s : List ℕ)
    → (opens_with (codes "stop trading") (lowered (lstrip s)) ≡ true)
      ↔ Opens (codes "stop trading") s
Opens-stop_trading s = opens_with_iff _ _ s (omega arith) (omega arith) (ground arith)

Opens-pause :
    (s : List ℕ)
    → (opens_with (codes "pause") (lowered (lstrip s)) ≡ true) ↔ Opens (codes "pause") s
Opens-pause s = opens_with_iff _ _ s (omega arith) (omega arith) (ground arith)

-- The first phrase that is open, of four.
abbrev choice : Bool → Bool → Bool → Bool → Option Directive
choice a b c d =
    if a
    then some liquidate
    else (if b
        then some liquidate
        else (if c then some pause else (if d then some pause else none)))

sentence_choice :
    (s : List ℕ)
    → sentence_directive s
      ≡ choice
          (opens_with (codes "liquidate") (lowered (lstrip s)))
          (opens_with (codes "sell all") (lowered (lstrip s)))
          (opens_with (codes "stop trading") (lowered (lstrip s)))
          (opens_with (codes "pause") (lowered (lstrip s)))
unfolding sentence_directive first_phrase
sentence_choice s = refl

choice-liquidate : (a b c d : Bool) → (choice a b c d ≡ some liquidate) ↔ ((a ≡ true) ⊎ (b ≡ true))
choice-liquidate a b c d = ground arith

choice-none :
    (a b c d : Bool)
    → (choice a b c d ≡ none) ↔ (¬ ((a ≡ true) ⊎ (b ≡ true)) × ¬ ((c ≡ true) ⊎ (d ≡ true)))
choice-none a b c d = ground arith

sentence-Liquidates : (s : List ℕ) → (sentence_directive s ≡ some liquidate) ↔ Liquidates s
sentence-Liquidates s =
    let (f, g) = choice-liquidate _ _ _ _ in
    (
      (λ h. elim (f (sym (sentence_choice s) ∙ h)) [
        | inl e ↦ inl ((Opens-liquidate s).0 e)
        | inr e ↦ inr ((Opens-sell_all s).0 e)
      ]),
      (λ k.
          sentence_choice s
          ∙ g (elim k [
            | inl o ↦ inl ((Opens-liquidate s).1 o)
            | inr o ↦ inr ((Opens-sell_all s).1 o)
          ])),
    )

sentence-none : (s : List ℕ) → (sentence_directive s ≡ none) ↔ (¬ Liquidates s × ¬ Pauses s)
sentence-none s =
    let (f, g) = choice-none _ _ _ _ in
    (
      (λ h.
          let (a, b) = f (sym (sentence_choice s) ∙ h) in
          (
            (λ k. a (elim k [
              | inl o ↦ inl ((Opens-liquidate s).1 o)
              | inr o ↦ inr ((Opens-sell_all s).1 o)
            ])),
            (λ k. b (elim k [
              | inl o ↦ inl ((Opens-stop_trading s).1 o)
              | inr o ↦ inr ((Opens-pause s).1 o)
            ])),
          )),
      (λ k.
          sentence_choice s
          ∙ g (
            (λ h. k.0 (elim h [
              | inl o ↦ inl ((Opens-liquidate s).0 o)
              | inr o ↦ inr ((Opens-sell_all s).0 o)
            ])),
            (λ h. k.1 (elim h [
              | inl o ↦ inl ((Opens-stop_trading s).0 o)
              | inr o ↦ inr ((Opens-pause s).0 o)
            ])),
          )),
    )

prefer-liquidate :
    (x y : Option Directive)
    → (prefer x y ≡ some liquidate) ↔ ((x ≡ some liquidate) ⊎ (y ≡ some liquidate))
prefer-liquidate x y = ground arith

prefer-both_none : (x y : Option Directive) → (prefer x y ≡ none) ↔ ((x ≡ none) × (y ≡ none))
prefer-both_none x y = ground arith

strongest-liquidate : (ss : List (List ℕ)) → (strongest ss ≡ some liquidate) ↔ Some Liquidates ss
unfolding strongest
strongest-liquidate [] = ((λ h. cc), (λ h. absurd h))
strongest-liquidate (s ∷ r) =
    let (f, g) = prefer-liquidate (sentence_directive s) (strongest r) in
    let (m, n) = sentence-Liquidates s in
    let (p, q) = strongest-liquidate r in
    (
      (λ h. elim (f h) [ inl e ↦ inl (m e) | inr e ↦ inr (p e) ]),
      (λ k. g (elim k [ inl o ↦ inl (n o) | inr o ↦ inr (q o) ])),
    )

strongest-none :
    (ss : List (List ℕ)) → (strongest ss ≡ none) ↔ All (λ s. ¬ Liquidates s × ¬ Pauses s) ss
unfolding strongest
strongest-none [] = ((λ h. tt), (λ h. refl))
strongest-none (s ∷ r) =
    let (f, g) = prefer-both_none (sentence_directive s) (strongest r) in
    let (m, n) = sentence-none s in
    let (p, q) = strongest-none r in
    ((λ h. let (a, b) = f h in (m a, p b)), (λ k. g (n k.0, q k.1)))

-- A text has sentences, the pieces between its breaks, which are the marks and the line breaks before a
-- blank line, such that it orders a liquidation exactly when one of them opens with "liquidate" or "sell
-- all", whatever the others say, and nothing exactly when none of them opens with one of these or with
-- "stop trading" or "pause"; white space before the phrase and its case do not count, and no letter
-- may follow it.
pub parse_directive_iff :
    (text : String)
    → (s : List ℕ) × (rest : List (List ℕ)) × IsSplit (codes text) s rest
      × ((parse_directive (some text) ≡ some liquidate) ↔ Some Liquidates (s ∷ rest))
      × ((parse_directive (some text) ≡ none) ↔ All (λ s. ¬ Liquidates s × ¬ Pauses s) (s ∷ rest))
unfolding parse_directive
parse_directive_iff text =
    let (s, rest, cut, ok) = sentences-IsSplit (codes text) in
    (
      s,
      rest,
      ok,
      subst (λ ss. (strongest ss ≡ some liquidate) ↔ Some Liquidates (s ∷ rest)) (sym cut)
          (strongest-liquidate (s ∷ rest)),
      subst (λ ss. (strongest ss ≡ none) ↔ All (λ s. ¬ Liquidates s × ¬ Pauses s) (s ∷ rest))
          (sym cut) (strongest-none (s ∷ rest)),
    )

-- A text without a mark or a blank line.
abbrev pub IsOneSentence : List ℕ → Type 0
IsOneSentence [] = Unit
IsOneSentence (c ∷ cs) =
    (is_mark c ≡ false) × ((c == 10 && blank_ahead cs) ≡ false) × IsOneSentence cs

split_from-one :
    (piece text : List ℕ) → IsOneSentence text → split_from piece text ≡ (piece ++ text) ∷ []
unfolding split_from
split_from-one piece [] h = rw append-nil
split_from-one piece (c ∷ cs) h =
    rw (h.0, h.1)
      (split_from-one (piece ++ c ∷ []) cs h.2 ∙ ap (λ t. t ∷ []) (append_assoc piece (c ∷ []) cs))

prefer-none : (d : Option Directive) → prefer d none ≡ d
prefer-none none = refl
prefer-none (some pause) = refl
prefer-none (some liquidate) = refl

-- In a text without a mark or a blank line only the head counts: a phrase further in, also at the
-- start of a wrapped line, gives no directive.
pub one_sentence_head :
    (text : String)
    → IsOneSentence (codes text)
    → parse_directive (some text) ≡ sentence_directive (codes text)
unfolding parse_directive sentences strongest
one_sentence_head text h =
    rw (split_from-one [] (codes text) h) (prefer-none (sentence_directive (codes text)))
