-- ===== src/Risk/Directive/Splits.antt =====
-- The sentences of `_SENTENCE_SPLIT` of src/tiller/risk/engine.py: where a text is cut.
use agent_trading.Base.{
  ℕ, Bool, true, ◌≡◌, ◌⊎◌, ◌↔◌, inl, inr, refl, ap, ◌∙◌, sym, subst, List, [], ◌∷◌, ◌++◌, arith,
  All, ◌==◌, ==_iff, ◌&&◌, ◌||◌, Bool-cases,
}
use mathlib.Core.List.{append-nil, append_assoc}
use agent_trading.Risk.Directive.{is_mark, is_space, blank_ahead, split_from, sentences}

-- White space and then a line break.
abbrev pub IsBlankAhead : List ℕ → Type 0
IsBlankAhead t = (ws : List ℕ) × (r : List ℕ) × (t ≡ ws ++ 10 ∷ r) × All (λ c. is_space c ≡ true) ws

-- A character, and what follows it, that end a sentence: a mark, or the line break before a blank line.
abbrev pub IsBreak : ℕ → List ℕ → Type 0
IsBreak c t = ((c ≡ b'.') ⊎ (c ≡ b'!') ⊎ (c ≡ b'?') ⊎ (c ≡ b';')) ⊎ ((c ≡ 10) × IsBlankAhead t)

-- No break in a piece, with what follows it.
abbrev pub IsUnbroken : List ℕ → List ℕ → Type 0
IsUnbroken [] after = Unit
IsUnbroken (c ∷ s) after = ¬ IsBreak c (s ++ after) × IsUnbroken s after

-- The pieces of a text between its breaks.
abbrev pub IsSplit : List ℕ → List ℕ → List (List ℕ) → Type 0
IsSplit text s [] = (text ≡ s) × IsUnbroken s []
IsSplit text s (next ∷ rest) =
    (c : ℕ) × (t : List ℕ) × (text ≡ s ++ c ∷ t)
    × IsBreak c t
    × IsUnbroken s (c ∷ t)
    × IsSplit t next rest

not_blank : ¬ IsBlankAhead []
not_blank ([], r, e, h) = cc e
not_blank (w ∷ ws, r, e, h) = cc e

IsBlankAhead-head :
    (c : ℕ) (t : List ℕ) → IsBlankAhead (c ∷ t) → (c ≡ 10) ⊎ ((is_space c ≡ true) × IsBlankAhead t)
IsBlankAhead-head c t ([], r, e, h) = inl (cc e)
IsBlankAhead-head c t (w ∷ ws, r, e, h) =
    let same : w ≡ c = cc e in inr (subst (λ x. is_space x ≡ true) same h.0, (ws, r, cc e, h.1))

IsBlankAhead-step : (c : ℕ) (t : List ℕ) → is_space c ≡ true → IsBlankAhead t → IsBlankAhead (c ∷ t)
IsBlankAhead-step c t w (ws, r, e, h) = (c ∷ ws, r, ap (λ x. c ∷ x) e, (w, h))

or_and : (a b c : Bool) → ((a || (b && c)) ≡ true) ↔ ((a ≡ true) ⊎ ((b ≡ true) × (c ≡ true)))
or_and a b c = ground arith

blank_ahead_iff : (t : List ℕ) → (blank_ahead t ≡ true) ↔ IsBlankAhead t
blank_ahead_iff [] = ((λ h. cc), (λ k. absurd (not_blank k)))
blank_ahead_iff (c ∷ t) =
    let (f, g) = blank_ahead_iff t in
    let (p, q) = or_and (c == 10) (is_space c) (blank_ahead t) in
    (
      (λ h. elim (p h) [
        | inl e ↦ ([], t, ap (λ x. x ∷ t) ((==_iff c 10).0 e), tt)
        | inr (w, b) ↦ IsBlankAhead-step c t w (f b)
      ]),
      (λ k. q (elim (IsBlankAhead-head c t k) [
        | inl e ↦ inl ((==_iff c 10).1 e)
        | inr (w, b) ↦ inr (w, g b)
      ])),
    )

is_mark_iff : (c : ℕ) → (is_mark c ≡ true) ↔ ((c ≡ b'.') ⊎ (c ≡ b'!') ⊎ (c ≡ b'?') ⊎ (c ≡ b';'))
is_mark_iff c = ground arith

IsBreak-iff :
    (c : ℕ) (t : List ℕ) → ((is_mark c || (c == 10 && blank_ahead t)) ≡ true) ↔ IsBreak c t
IsBreak-iff c t =
    let (f, g) = blank_ahead_iff t in
    let (m, n) = is_mark_iff c in
    let (p, q) = or_and (is_mark c) (c == 10) (blank_ahead t) in
    (
      (λ h. elim (p h) [ inl k ↦ inl (m k) | inr (e, b) ↦ inr ((==_iff c 10).0 e, f b) ]),
      (λ k. q (elim k [ inl l ↦ inl (n l) | inr (e, b) ↦ inr ((==_iff c 10).1 e, g b) ])),
    )

IsSplit-step :
    (c : ℕ) (t s : List ℕ) (rest : List (List ℕ))
    → ¬ IsBreak c t
    → IsSplit t s rest
    → IsSplit (c ∷ t) (c ∷ s) rest
IsSplit-step c t s [] n (e, u) =
    (ap (λ x. c ∷ x) e, ((λ b. n (subst (IsBreak c) (append-nil s ∙ sym e) b)), u))
IsSplit-step c t s (next ∷ rest) n (d, t2, e, b, u, more) =
    (d, t2, ap (λ x. c ∷ x) e, b, ((λ k. n (subst (IsBreak c) (sym e) k)), u), more)

-- `split_from` with a piece that is begun.
split_from-IsSplit :
    (piece text : List ℕ)
    → (s : List ℕ) × (rest : List (List ℕ)) × (split_from piece text ≡ (piece ++ s) ∷ rest)
      × IsSplit text s rest
unfolding split_from
split_from-IsSplit piece [] = ([], [], ap (λ x. x ∷ []) (sym (append-nil piece)), (refl, tt))
split_from-IsSplit piece (c ∷ t) = elim (Bool-cases (is_mark c || (c == 10 && blank_ahead t))) [
  | inl e ↦
      let (s, rest, ran, ok) = split_from-IsSplit [] t in
      (
        [],
        s ∷ rest,
        rw e (
            ap (λ x. x ∷ split_from [] t) (sym (append-nil piece))
            ∙ ap (λ x. (piece ++ []) ∷ x) ran),
        (c, t, refl, (IsBreak-iff c t).0 e, tt, ok),
      )
  | inr e ↦
      let (s, rest, ran, ok) = split_from-IsSplit (piece ++ c ∷ []) t in
      (
        c ∷ s,
        rest,
        rw e (ran ∙ ap (λ x. x ∷ rest) (append_assoc piece (c ∷ []) s)),
        IsSplit-step c t s rest (λ b. cc ((IsBreak-iff c t).1 b, e)) ok,
      )
]

-- `sentences` cuts a text at its breaks.
pub sentences-IsSplit :
    (text : List ℕ)
    → (s : List ℕ) × (rest : List (List ℕ)) × (sentences text ≡ s ∷ rest) × IsSplit text s rest
unfolding sentences
sentences-IsSplit text = split_from-IsSplit [] text
