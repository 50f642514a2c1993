-- ===== src/Risk/Directive/Opens.antt =====
-- When a sentence opens with a phrase, for `parse_directive` of src/tiller/risk/engine.py.
use agent_trading.Base.{
  ℕ, ◌+◌, ◌≤◌, ◌<◌, true, false, ◌≡◌, ◌⊎◌, ◌↔◌, inl, inr, refl, ap, ◌∙◌, sym, subst, List, [], ◌∷◌,
  ◌++◌, arith, All, Bool, leb, ◌==◌, ◌&&◌, ◌||◌, Bool-cases, length,
}
use agent_trading.Risk.Directive.{is_space, lstrip, lowered, after_phrase, opens_with, ends_word}

-- The lower case of a character is the ASCII character `p`; 0x212a is the Kelvin sign.
abbrev pub IsCaseOf : ℕ → ℕ → Type 0
IsCaseOf p c = (c ≡ p) ⊎ ((b'A' ≤ c) × (c ≤ b'Z') × (c + 32 ≡ p)) ⊎ ((c ≡ 0x212a) × (p ≡ b'k'))

-- A text reads a phrase, and then a rest.
abbrev pub Reads : List ℕ → List ℕ → List ℕ → Type 0
Reads [] t r = t ≡ r
Reads (p ∷ ps) [] r = ⊥
Reads (p ∷ ps) (c ∷ t) r = IsCaseOf p c × Reads ps t r

-- A character whose lower case begins with an ASCII letter; 0x130 is the capital I with a dot.
abbrev pub IsLetter : ℕ → Type 0
IsLetter c = ((b'A' ≤ c) × (c ≤ b'Z')) ⊎ ((b'a' ≤ c) × (c ≤ b'z')) ⊎ (c ≡ 0x212a) ⊎ (c ≡ 0x130)

abbrev pub EndsWord : List ℕ → Type 0
EndsWord [] = Unit
EndsWord (c ∷ r) = ¬ IsLetter c

-- White space, the phrase in any case, and then no letter.
unfoldable pub Opens : List ℕ → List ℕ → Type 0
Opens phrase s =
    (ws : List ℕ) × (t : List ℕ) × (r : List ℕ) × (s ≡ ws ++ t)
    × All (λ c. is_space c ≡ true) ws
    × Reads phrase t r
    × EndsWord r

-- A phrase of lower-case ASCII that does not end in "i".
abbrev pub IsPhrase : List ℕ → Type 0
IsPhrase [] = Unit
IsPhrase (p ∷ ps) = (p < 128) × (b'Z' < p ⊎ p < b'A') × (p ≡ b'i' → 0 < length ps) × IsPhrase ps

abbrev is_case_of : ℕ → ℕ → Bool
is_case_of p c = c == p || (leb b'A' c && leb c b'Z' && (c + 32) == p) || (c == 0x212a && p == b'k')

is_case_of_iff : (p c : ℕ) → (is_case_of p c ≡ true) ↔ IsCaseOf p c
is_case_of_iff p c = ground arith

opens_with-lowered :
    (p : ℕ) (ps : List ℕ) (c : ℕ) (t : List ℕ)
    → IsPhrase (p ∷ ps)
    → opens_with (p ∷ ps) (lowered (c ∷ t)) ≡ (is_case_of p c && opens_with ps (lowered t))
unfolding lowered after_phrase
opens_with-lowered p [] c t h = ground arith
opens_with-lowered p (q ∷ qs) c t h = ground arith

ends_word_iff : (t : List ℕ) → (ends_word (lowered t) ≡ true) ↔ EndsWord t
unfolding lowered
ends_word_iff [] = (λ _. tt, λ _. refl)
ends_word_iff (c ∷ t) = ground arith

Reads-iff :
    (ps t : List ℕ)
    → IsPhrase ps
    → (opens_with ps (lowered t) ≡ true) ↔ ((r : List ℕ) × Reads ps t r × EndsWord r)
unfolding after_phrase lowered
Reads-iff [] t h =
    let (f, g) = ends_word_iff t in ((λ x. (t, refl, f x)), (λ k. g (subst EndsWord (sym k.1) k.2)))
Reads-iff (p ∷ ps) [] h = ((λ x. cc), (λ k. absurd k.1))
Reads-iff (p ∷ ps) (c ∷ t) h =
    let e = opens_with-lowered p ps c t h in
    let (f, g) = Reads-iff ps t h.3 in
    let (m, n) = is_case_of_iff p c in
    (
      (λ x.
          let both : (is_case_of p c && opens_with ps (lowered t)) ≡ true = sym e ∙ x in
          let (r, a, b) = f (ground (arith, both)) in (r, (m (ground (arith, both)), a), b)),
      (λ k.
          let first = n k.1.0 in let rest = g (k.0, k.1.1, k.2) in e ∙ ground (arith, first, rest)),
    )

lstrip-spaces : (ws t : List ℕ) → All (λ c. is_space c ≡ true) ws → lstrip (ws ++ t) ≡ lstrip t
unfolding lstrip
lstrip-spaces [] t h = refl
lstrip-spaces (w ∷ ws) t h = rw (h.0) (lstrip-spaces ws t h.1)

lstrip-parts : (s : List ℕ) → (ws : List ℕ) × (s ≡ ws ++ lstrip s) × All (λ c. is_space c ≡ true) ws
unfolding lstrip
lstrip-parts [] = ([], refl, tt)
lstrip-parts (c ∷ s) = elim (Bool-cases (is_space c)) [
  | inl e ↦
      let (ws, split, spaces) = lstrip-parts s in
      (c ∷ ws, rw e (ap (λ x. c ∷ x) split), (e, spaces))
  | inr e ↦ ([], rw e refl, tt)
]

letter_no_space : (p c : ℕ) → b'a' ≤ p → p ≤ b'z' → IsCaseOf p c → is_space c ≡ false
letter_no_space p c low high h = ground arith

lstrip-letter : (p : ℕ) (ps t r : List ℕ) → b'a' ≤ p → p ≤ b'z' → Reads (p ∷ ps) t r → lstrip t ≡ t
unfolding lstrip
lstrip-letter p ps [] r low high h = absurd h
lstrip-letter p ps (c ∷ t) r low high h = rw (letter_no_space p c low high h.0) refl

-- The test of `parse_directive`, for a phrase that begins with a letter.
pub opens_with_iff :
    (p : ℕ) (ps s : List ℕ)
    → b'a' ≤ p
    → p ≤ b'z'
    → IsPhrase (p ∷ ps)
    → (opens_with (p ∷ ps) (lowered (lstrip s)) ≡ true) ↔ Opens (p ∷ ps) s
unfolding Opens
opens_with_iff p ps s low high h = (
  (λ x.
      let (r, a, b) = (Reads-iff (p ∷ ps) (lstrip s) h).0 x in
      let (ws, split, spaces) = lstrip-parts s in (ws, lstrip s, r, split, spaces, a, b)),
  (λ k.
      let (ws, t, r, split, spaces, a, b) = k in
      let bare : lstrip s ≡ t =
        ap lstrip split ∙ lstrip-spaces ws t spaces ∙ lstrip-letter p ps t r low high a in
      subst (λ x. opens_with (p ∷ ps) (lowered x) ≡ true) (sym bare)
        ((Reads-iff (p ∷ ps) t h).1 (r, a, b))),
)
