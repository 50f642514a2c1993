-- ===== src/Ledger/Fills/Refines.antt =====
-- The positions table implements one number for each mint.
use agent_trading.Base.{
  ◌≡◌, refl, sym, ap, ◌∙◌, Bool, true, false, Option, none, some, List, [], ◌∷◌, ◌++◌, String,
  arith, if◌then◌else◌, ◌||◌, All, Bool-cases, inl, inr, if_intro,
}
use mathlib.Core.Path.{fun_ext}
use agent_trading.Base.Int.{ℤ, pos, ◌+ℤ◌, ◌-ℤ◌, ltb_ℤ, min_ℤ, ◌≤ℤ◌}
use agent_trading.Base.Text.{str_in, str_eq_iff}
use agent_trading.Decimal.{DecimalOps}
use agent_trading.Models.{Fill, Position}
use agent_trading.Ledger.Positions.{position_add, position_sub}
use agent_trading.Ledger.Positions.Rows.{IsBook, total, part}
use agent_trading.Ledger.Positions.Reduce.{position_add-total, position_add-IsBook}
use agent_trading.Ledger.Positions.Sale.{position_sub-total, position_sub-IsBook}
use agent_trading.Ledger.Fills.{
  Book, is_stable, has_signature, is_recorded, is_duplicate, bought, sold, record_fill,
  record_fills,
}

-- The abstract ledger: the signatures that it has seen, and what is held of each mint.
pub record Holdings : Type 0 where
  pub seen : List String
  pub held : String → ℤ

abbrev pub seen_with : Option String → List String → List String
seen_with none seen = seen
seen_with (some s) seen = s ∷ seen

abbrev pub is_seen : Option String → List String → Bool
is_seen none seen = false
is_seen (some s) seen = str_in s seen

-- A purchase adds its amount, and a sale takes its amount or all that is held.
abbrev pub hold_more : String → ℤ → (String → ℤ) → String → ℤ
hold_more mint base held k = if is_stable mint then held k else held k +ℤ part mint k base

abbrev pub hold_less : String → ℤ → (String → ℤ) → String → ℤ
hold_less mint base held k =
    if is_stable mint then held k else held k -ℤ part mint k (min_ℤ base (held mint))

seen_with-in :
    (s : String) (signature : Option String) (seen : List String)
    → str_in s (seen_with signature seen) ≡ (has_signature s signature || str_in s seen)
seen_with-in s none seen = refl
seen_with-in s (some t) seen = ground (arith, str_eq_iff s t, str_eq_iff t s)

module _ {N : Type 0} where
  abbrev pub hold_fill : Fill N → Holdings → Holdings
  hold_fill f h = if is_seen f.signature h.seen then h else record {
    seen = seen_with f.signature h.seen;
    held = hold_less f.in_mint f.in_base (hold_more f.out_mint f.out_base h.held);
  }

  unfoldable pub hold_fills : List (Fill N) → Holdings → Holdings
  hold_fills [] h = h
  hold_fills (f ∷ fs) h = hold_fills fs (hold_fill f h)

  -- The amounts that a swap shows: something came in, nothing negative went out.
  pub record IsSwap (f : Fill N) : Type 0 where
    pub gained : ltb_ℤ (pos 0) f.out_base ≡ true
    pub paid : pos 0 ≤ℤ f.in_base

  -- A book that stands for holdings.
  pub record Represents (b : Book N) (h : Holdings) : Type 0 where
    pub is_book : IsBook b.rows
    pub same_seen : (s : String) → is_recorded s b.fills ≡ str_in s h.seen
    pub same_held : (k : String) → total k b.rows ≡ h.held k

  is_recorded-append :
      (s : String) (f : Fill N) (fs : List (Fill N))
      → is_recorded s (fs ++ f ∷ []) ≡ (has_signature s f.signature || is_recorded s fs)
  unfolding is_recorded
  is_recorded-append s f [] = ground arith
  is_recorded-append s f (g ∷ gs) = ground (arith, is_recorded-append s f gs)

module _ (D : DecimalOps) where
  open D use {Num}

  bought-total :
      (k : String) (f : Fill Num) (rows : List (Position Num))
      → IsBook rows
      → total k (bought D f rows) ≡ hold_more f.out_mint f.out_base (λ j. total j rows) k
  bought-total k f rows b = elim (Bool-cases (is_stable f.out_mint)) [
    | inl e ↦ rw e
    | inr e ↦ rw e (position_add-total D k f.out_mint f.strategy f.out_base f.usd_in f.ts rows b)
  ]

  bought-IsBook :
      (f : Fill Num) (rows : List (Position Num))
      → IsSwap f
      → IsBook rows
      → IsBook (bought D f rows)
  bought-IsBook f rows w b =
      if_intro IsBook (is_stable f.out_mint) rows
        (position_add D f.out_mint f.strategy f.out_base f.usd_in f.ts rows) (λ e. b)
        (λ e. position_add-IsBook D f.out_mint f.strategy f.out_base f.usd_in f.ts rows w.gained b)

  sold-total :
      (k : String) (f : Fill Num) (rows : List (Position Num))
      → IsSwap f
      → IsBook rows
      → total k (sold D f rows) ≡ hold_less f.in_mint f.in_base (λ j. total j rows) k
  sold-total k f rows w b = elim (Bool-cases (is_stable f.in_mint)) [
    | inl e ↦ rw e
    | inr e ↦ rw e (position_sub-total D k f.in_mint f.strategy f.in_base rows w.paid b)
  ]

  sold-IsBook : (f : Fill Num) (rows : List (Position Num)) → IsBook rows → IsBook (sold D f rows)
  sold-IsBook f rows b =
      if_intro IsBook (is_stable f.in_mint) rows
        (position_sub D f.in_mint f.strategy f.in_base rows) (λ e. b)
        (λ e. position_sub-IsBook D f.in_mint f.strategy f.in_base rows b)

  record_fill-Represents :
      (f : Fill Num) (b : Book Num) (h : Holdings)
      → IsSwap f
      → Represents b h
      → Represents (record_fill D f b) (hold_fill f h)
  unfolding record_fill
  record_fill-Represents f b h w r = elim (Bool-cases (is_duplicate f.signature b.fills)) [
    | inl e ↦ rw (e, known f.signature e) r
    | inr e ↦
        rw (e, fresh f.signature e)
          (record {
            is_book = sold-IsBook f (bought D f b.rows) (bought-IsBook f b.rows w r.is_book);
            same_seen = λ s.
                is_recorded-append s f b.fills
                ∙ ap (λ x. has_signature s f.signature || x) (r.same_seen s)
                ∙ sym (seen_with-in s f.signature h.seen);
            same_held = λ k. held k;
          })
  ]
    where
      known :
          (signature : Option String)
          → is_duplicate signature b.fills ≡ true
          → is_seen signature h.seen ≡ true
      known none e = cc
      known (some s) e = sym (r.same_seen s) ∙ e

      fresh :
          (signature : Option String)
          → is_duplicate signature b.fills ≡ false
          → is_seen signature h.seen ≡ false
      fresh none e = refl
      fresh (some s) e = sym (r.same_seen s) ∙ e

      held :
          (k : String)
          → total k (sold D f (bought D f b.rows))
            ≡ hold_less f.in_mint f.in_base (hold_more f.out_mint f.out_base h.held) k
      held k =
          let rows = bought D f b.rows in
          let more = λ (j : String).
            bought-total j f b.rows r.is_book
            ∙ ap (λ t. if is_stable f.out_mint then t else t +ℤ part f.out_mint j f.out_base)
                (r.same_held j) in
          sold-total k f rows w (bought-IsBook f b.rows w r.is_book)
          ∙ ap (λ t. hold_less f.in_mint f.in_base t k) (fun_ext more)

  -- Recording any swaps in order, repeated ones included, keeps the positions a book of what is held: for
  -- each mint the rows of all strategies hold together what the abstract ledger holds, where a
  -- purchase adds its amount, a sale takes the lesser of its amount and all that is held, USDC is not
  -- kept, and a signature that was seen changes nothing.
  pub record_fills-Represents :
      (fs : List (Fill Num)) (b : Book Num) (h : Holdings)
      → All IsSwap fs
      → Represents b h
      → Represents (record_fills D fs b) (hold_fills fs h)
  unfolding record_fills hold_fills
  record_fills-Represents [] b h w r = r
  record_fills-Represents (f ∷ fs) b h w r =
      record_fills-Represents fs (record_fill D f b) (hold_fill f h) w.1
        (record_fill-Represents f b h w.0 r)
