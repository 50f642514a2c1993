-- ===== src/Poster/Keyed.antt =====
-- The posts table by its key: lookups after an upsert, and of the rows that are due.
use agent_trading.Base.{
  ℕ, ◌≡◌, refl, ◌∙◌, Bool, true, false, none, some, List, [], ◌∷◌, String, arith, if◌then◌else◌,
  ◌&&◌, All, Bool-cases, inl, inr,
}
use agent_trading.Base.Text.{str_eq, str_eq_iff}
use agent_trading.Base.Sort.{insert_by, sort_by, Pairwise, Pairwise-sort_by, All-sort_by}
use agent_trading.Ledger.Tables.{
  PostRow, post_upsert, post, is_open, is_due, due_posts, updated_before, posts_pending,
}

abbrev pub OtherKey : PostRow → PostRow → Type 0
OtherKey p q = str_eq p.signature q.signature ≡ false

OtherKey-sym : (p q : PostRow) → OtherKey p q → OtherKey q p
OtherKey-sym p q h =
    ground (arith, str_eq_iff p.signature q.signature, str_eq_iff q.signature p.signature)

-- No key twice.
abbrev pub IsKeyed : List PostRow → Type 0
IsKeyed rows = Pairwise OtherKey rows

abbrev pub Without : String → List PostRow → Type 0
Without k rows = All (λ p. str_eq p.signature k ≡ false) rows

-- What a flush takes up.
abbrev pub is_taken : ℕ → PostRow → Bool
is_taken now p = is_open p.state && is_due p.not_before now

pub post-signature :
    (k : String) (rows : List PostRow) (p : PostRow) → post k rows ≡ some p → p.signature ≡ k
unfolding post
post-signature k [] p h = cc
post-signature k (q ∷ qs) p h = ground (arith, post-signature k qs p, str_eq_iff q.signature k)

pub post-Without : (k : String) (rows : List PostRow) → post k rows ≡ none → Without k rows
unfolding post
post-Without k [] h = tt
post-Without k (q ∷ qs) h = ground (arith, post-Without k qs)

pub post-post_upsert :
    (k : String) (p : PostRow) (rows : List PostRow)
    → post k (post_upsert p rows) ≡ (if str_eq p.signature k then some p else post k rows)
unfolding post post_upsert
post-post_upsert k p [] = refl
post-post_upsert k p (q ∷ qs) = ground (
  arith,
  post-post_upsert k p qs,
  str_eq_iff q.signature p.signature,
  str_eq_iff q.signature k,
  str_eq_iff p.signature k,
)

All-post_upsert :
    (P : PostRow → Type 0) (p : PostRow) (rows : List PostRow)
    → P p
    → All P rows
    → All P (post_upsert p rows)
unfolding post_upsert
All-post_upsert P p [] h k = (h, tt)
All-post_upsert P p (q ∷ qs) h k = elim (Bool-cases (str_eq q.signature p.signature)) [
  | inl e ↦ rw (e, post_upsert) (h, k.1)
  | inr e ↦ rw (e, post_upsert) (k.0, All-post_upsert P p qs h k.1)
]

same_key :
    (p q : PostRow) (rows : List PostRow)
    → str_eq q.signature p.signature ≡ true
    → All (OtherKey q) rows
    → All (OtherKey p) rows
same_key p q [] e h = tt
same_key p q (r ∷ rs) e h =
    (ground (arith, e, h.0, str_eq_iff q.signature p.signature), same_key p q rs e h.1)

pub post_upsert-IsKeyed :
    (p : PostRow) (rows : List PostRow) → IsKeyed rows → IsKeyed (post_upsert p rows)
unfolding post_upsert
post_upsert-IsKeyed p [] h = (tt, tt)
post_upsert-IsKeyed p (q ∷ qs) h = elim (Bool-cases (str_eq q.signature p.signature)) [
  | inl e ↦ rw (e, post_upsert) (same_key p q qs e h.0, h.1)
  | inr e ↦
      rw (e, post_upsert) (All-post_upsert (OtherKey q) p qs e h.0, post_upsert-IsKeyed p qs h.1)
]

-- The rows that are due.
due_posts-All :
    (P : PostRow → Type 0) (now : ℕ) (rows : List PostRow) → All P rows → All P (due_posts now rows)
unfolding due_posts
due_posts-All P now [] h = tt
due_posts-All P now (q ∷ qs) h = elim (Bool-cases (is_taken now q)) [
  | inl e ↦ rw (e, due_posts) (h.0, due_posts-All P now qs h.1)
  | inr e ↦ rw (e, due_posts) (due_posts-All P now qs h.1)
]

due_posts-IsKeyed : (now : ℕ) (rows : List PostRow) → IsKeyed rows → IsKeyed (due_posts now rows)
unfolding due_posts
due_posts-IsKeyed now [] h = tt
due_posts-IsKeyed now (q ∷ qs) h = elim (Bool-cases (is_taken now q)) [
  | inl e ↦ rw (e, due_posts) (due_posts-All (OtherKey q) now qs h.0, due_posts-IsKeyed now qs h.1)
  | inr e ↦ rw (e, due_posts) (due_posts-IsKeyed now qs h.1)
]

Without-post : (k : String) (rows : List PostRow) → Without k rows → post k rows ≡ none
unfolding post
Without-post k [] h = refl
Without-post k (q ∷ qs) h = ground (arith, Without-post k qs h.1, h.0)

other_Without :
    (k : String) (q : PostRow) (rows : List PostRow)
    → str_eq q.signature k ≡ true
    → All (OtherKey q) rows
    → Without k rows
other_Without k q [] e h = tt
other_Without k q (r ∷ rs) e h = (
  ground (
    arith,
    e,
    h.0,
    str_eq_iff q.signature k,
    str_eq_iff q.signature r.signature,
    str_eq_iff r.signature k,
  ),
  other_Without k q rs e h.1,
)

due_posts-post :
    (k : String) (now : ℕ) (rows : List PostRow) (p : PostRow)
    → IsKeyed rows
    → post k rows ≡ some p
    → post k (due_posts now rows) ≡ (if is_taken now p then some p else none)
unfolding post due_posts
due_posts-post k now [] p h e = cc
due_posts-post k now (q ∷ qs) p h e = elim (Bool-cases (str_eq q.signature k)) [
  | inl same ↦ ground (
    arith,
    e,
    same,
    Without-post k (due_posts now qs)
        (due_posts-All (λ r. str_eq r.signature k ≡ false) now qs (other_Without k q qs same h.0)),
  )
  | inr other ↦ ground (arith, e, other, due_posts-post k now qs p h.1)
]

-- A sort keeps lookups of a keyed list.
insert_by-post :
    (k : String) (p : PostRow) (rows : List PostRow)
    → All (OtherKey p) rows
    → post k (insert_by updated_before p rows) ≡ post k (p ∷ rows)
unfolding post insert_by
insert_by-post k p [] h = refl
insert_by-post k p (q ∷ qs) h = ground (
  arith,
  insert_by-post k p qs h.1,
  h.0,
  str_eq_iff p.signature q.signature,
  str_eq_iff q.signature k,
  str_eq_iff p.signature k,
)

sort_by-post :
    (k : String) (rows : List PostRow)
    → IsKeyed rows
    → post k (sort_by updated_before rows) ≡ post k rows
unfolding post sort_by
sort_by-post k [] h = refl
sort_by-post k (q ∷ qs) h =
    insert_by-post k q (sort_by updated_before qs) (All-sort_by updated_before (OtherKey q) qs h.0)
    ∙ ground (arith, sort_by-post k qs h.1)

pub posts_pending-IsKeyed :
    (now : ℕ) (rows : List PostRow) → IsKeyed rows → IsKeyed (posts_pending now rows)
unfolding posts_pending
posts_pending-IsKeyed now rows h =
    Pairwise-sort_by OtherKey updated_before OtherKey-sym (due_posts now rows)
      (due_posts-IsKeyed now rows h)

pub posts_pending-post :
    (k : String) (now : ℕ) (rows : List PostRow) (p : PostRow)
    → IsKeyed rows
    → post k rows ≡ some p
    → post k (posts_pending now rows) ≡ (if is_taken now p then some p else none)
unfolding posts_pending
posts_pending-post k now rows p h e =
    sort_by-post k (due_posts now rows) (due_posts-IsKeyed now rows h)
    ∙ due_posts-post k now rows p h e
