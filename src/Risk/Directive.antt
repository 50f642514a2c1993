-- ===== src/Risk/Directive.antt =====
-- `parse_directive` of src/tiller/risk/engine.py, over the code points of an instruction. White space
-- is that of Unicode, and so is the lower case, as far as the tests of phrases can see it.
pub mod Splits
pub mod Opens
pub mod Sentences
use agent_trading.Base.{
  ℕ, ◌+◌, Bool, true, false, Option, none, some, List, [], ◌∷◌, ◌++◌, String, if◌then◌else◌, not,
  ◌&&◌, ◌||◌, leb, ◌==◌,
}
use Prim.Native.Char.{code}

pub data Directive : Type 0 where
  pause liquidate : Directive

-- The code points of a text.
abbrev pub codes : String → List ℕ
codes String.[] = []
codes (String.◌∷◌ c s) = code c ∷ codes s

-- `\s` and what `strip` removes.
abbrev pub is_space : ℕ → Bool
is_space c =
    (leb 9 c && leb c 13)
    || (leb 28 c && leb c 32)
    || c == 0x85
    || c == 0xa0
    || c == 0x1680
    || (leb 0x2000 c && leb c 0x200a)
    || c == 0x2028
    || c == 0x2029
    || c == 0x202f
    || c == 0x205f
    || c == 0x3000

-- `[.!?;]`
abbrev pub is_mark : ℕ → Bool
is_mark c = c == b'.' || c == b'!' || c == b'?' || c == b';'

abbrev pub is_lower : ℕ → Bool
is_lower c = leb b'a' c && leb c b'z'

-- The lower case of a character: of those that are no ASCII letters only the Kelvin sign and the capital
-- I with a dot have an ASCII letter in it. The others, which the tests do not tell apart, are left.
abbrev pub lower : ℕ → List ℕ
lower c =
    if leb b'A' c && leb c b'Z'
    then (c + 32) ∷ []
    else (if c == 0x212a then b'k' ∷ [] else (if c == 0x130 then b'i' ∷ 0x307 ∷ [] else c ∷ []))

-- Another line break follows, after white space only: the break before it ends a sentence.
abbrev pub blank_ahead : List ℕ → Bool
blank_ahead [] = false
blank_ahead (c ∷ cs) = c == 10 || (is_space c && blank_ahead cs)

-- `_SENTENCE_SPLIT.split`, with a cut at each mark and at the breaks of a blank line. Where the
-- pattern takes a run of these as one, the model has further pieces of white space only, which
-- the caller skips.
unfoldable pub split_from : List ℕ → List ℕ → List (List ℕ)
split_from piece [] = piece ∷ []
split_from piece (c ∷ cs) =
    let cut = split_from [] cs in
    let on = split_from (piece ++ c ∷ []) cs in
    if is_mark c || (c == 10 && blank_ahead cs) then piece ∷ cut else on

unfoldable pub sentences : List ℕ → List (List ℕ)
sentences text = split_from [] text

unfoldable pub lstrip : List ℕ → List ℕ
lstrip [] = []
lstrip (c ∷ cs) = if is_space c then lstrip cs else c ∷ cs

-- `.lower()`; white space at the end does not matter to a test of the head.
unfoldable pub lowered : List ℕ → List ℕ
lowered [] = []
lowered (c ∷ cs) = lower c ++ lowered cs

-- What follows a phrase at the head of a sentence.
unfoldable pub after_phrase : List ℕ → List ℕ → Option (List ℕ)
after_phrase [] text = some text
after_phrase (p ∷ ps) [] = none
after_phrase (p ∷ ps) (c ∷ cs) = if p == c then after_phrase ps cs else none

abbrev pub ends_word : List ℕ → Bool
ends_word [] = true
ends_word (c ∷ _) = not (is_lower c)

-- `head.startswith(phrase) and not re.match(rf"^{phrase}[a-z]", head)`
abbrev pub opens_with : List ℕ → List ℕ → Bool
opens_with phrase head = elim (after_phrase phrase head) [ none ↦ false | some r ↦ ends_word r ]

-- `DIRECTIVE_PHRASES`
abbrev pub directive_phrases : List (List ℕ × Directive)
directive_phrases =
    (codes "liquidate", liquidate)
    ∷ (codes "sell all", liquidate)
    ∷ (codes "stop trading", pause)
    ∷ (codes "pause", pause)
    ∷ []

unfoldable pub first_phrase : List ℕ → List (List ℕ × Directive) → Option Directive
first_phrase head [] = none
first_phrase head ((phrase, d) ∷ r) = if opens_with phrase head then some d else first_phrase head r

unfoldable pub sentence_directive : List ℕ → Option Directive
sentence_directive s = first_phrase (lowered (lstrip s)) directive_phrases

-- The set `found`, as two flags, and the preference for `liquidate`.
abbrev pub prefer : Option Directive → Option Directive → Option Directive
prefer (some liquidate) d = some liquidate
prefer (some pause) (some liquidate) = some liquidate
prefer (some pause) (some pause) = some pause
prefer (some pause) none = some pause
prefer none d = d

unfoldable pub strongest : List (List ℕ) → Option Directive
strongest [] = none
strongest (s ∷ r) = prefer (sentence_directive s) (strongest r)

unfoldable pub parse_directive : Option String → Option Directive
parse_directive none = none
parse_directive (some text) = strongest (sentences (codes text))
