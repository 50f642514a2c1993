-- ===== src/Ledger/Tables.antt =====
-- The blocklist, the posts and the leader trades of src/tiller/ledger.py: upserts by key, and what their
-- queries select. A set is a list of its texts.
use agent_trading.Base.{
  ℕ, ◌+◌, Bool, true, false, Option, none, some, List, [], ◌∷◌, String, if◌then◌else◌, ◌&&◌, ◌||◌,
  leb, ltb,
}
use agent_trading.Base.Text.{str_eq, str_in}
use agent_trading.Base.Sort.{sort_by}
use agent_trading.Base.Sets.{str_le}
use agent_trading.Base.Dict.{Dict, insert}
use agent_trading.Models.{Side}

-- The blocklist, without the reasons.
unfoldable pub blocklist_add : String → ℕ → Dict ℕ → Dict ℕ
blocklist_add mint until d = insert mint until d

unfoldable pub blocklist_active : ℕ → Dict ℕ → List String
blocklist_active now [] = []
blocklist_active now ((mint, until) ∷ d) =
    if ltb now until then mint ∷ blocklist_active now d else blocklist_active now d

pub data PostKind : Type 0 where
  note callout trade : PostKind

pub data PostState : Type 0 where
  queued posted uncertain failed : PostState

-- `PendingPost`, with the time of its last update.
pub record PostRow : Type 0 where
  pub signature : String
  pub kind : PostKind
  pub text : String
  pub mint : Option String
  pub state : PostState
  pub attempts : ℕ
  pub not_before : Option ℕ
  pub updated_ts : ℕ

unfoldable pub post_upsert : PostRow → List PostRow → List PostRow
post_upsert p [] = p ∷ []
post_upsert p (q ∷ qs) = if str_eq q.signature p.signature then p ∷ qs else q ∷ post_upsert p qs

unfoldable pub post : String → List PostRow → Option PostRow
post signature [] = none
post signature (q ∷ qs) = if str_eq q.signature signature then some q else post signature qs

abbrev pub is_open : PostState → Bool
is_open queued = true
is_open uncertain = true
is_open posted = false
is_open failed = false

abbrev pub is_due : Option ℕ → ℕ → Bool
is_due none now = true
is_due (some t) now = leb t now

-- `ORDER BY updated_ts, signature`
abbrev pub updated_before : PostRow → PostRow → Bool
updated_before p q =
    ltb p.updated_ts q.updated_ts
    || (leb p.updated_ts q.updated_ts && str_le p.signature q.signature)

unfoldable pub due_posts : ℕ → List PostRow → List PostRow
due_posts now [] = []
due_posts now (p ∷ ps) =
    if is_open p.state && is_due p.not_before now then p ∷ due_posts now ps else due_posts now ps

unfoldable pub posts_pending : ℕ → List PostRow → List PostRow
posts_pending now rows = sort_by updated_before (due_posts now rows)

abbrev pub is_kind : PostKind → PostKind → Bool
is_kind note note = true
is_kind callout callout = true
is_kind trade trade = true
is_kind _ _ = false

abbrev of_kind : Option PostKind → PostKind → Bool
of_kind none k = true
of_kind (some j) k = is_kind j k

unfoldable pub since_posts : ℕ → Option PostKind → List PostRow → List PostRow
since_posts since kind [] = []
since_posts since kind (p ∷ ps) =
    if leb since p.updated_ts && of_kind kind p.kind
    then p ∷ since_posts since kind ps
    else since_posts since kind ps

unfoldable pub posts_since : ℕ → Option PostKind → List PostRow → List PostRow
posts_since since kind rows =
    sort_by (λ (p : PostRow) (q : PostRow). leb p.updated_ts q.updated_ts)
      (since_posts since kind rows)

-- `LeaderTrade`
pub record LeaderTrade (N : Type 0) : Type 0 where
  pub key : String
  pub wallet : String
  pub signature : String
  pub ts : ℕ
  pub detected_at : ℕ
  pub side : Side
  pub mint : String
  pub usd_value : N
  pub amount : N
  pub price_usd : Option N
  pub source : String
  pub chain_verified : Bool

abbrev of_keys : String → Option (List String) → Bool
of_keys k none = true
of_keys k (some []) = true
of_keys k (some (j ∷ js)) = str_in k (j ∷ js)

module _ {N : Type 0} where
  -- One `INSERT OR IGNORE`, with the verification of a trade that is there.
  unfoldable pub upsert_leader_trade :
      LeaderTrade N → List (LeaderTrade N) → ℕ × List (LeaderTrade N)
  upsert_leader_trade t [] = (1, t ∷ [])
  upsert_leader_trade t (u ∷ us) =
      let (n, rest) = upsert_leader_trade t us in
      if str_eq u.signature t.signature
      then (0, record u { chain_verified = u.chain_verified || t.chain_verified } ∷ us)
      else (n, u ∷ rest)

  -- The number of trades that are new, and the table.
  unfoldable pub upsert_leader_trades :
      List (LeaderTrade N) → List (LeaderTrade N) → ℕ × List (LeaderTrade N)
  upsert_leader_trades [] rows = (0, rows)
  upsert_leader_trades (t ∷ ts) rows =
      let (n, next) = upsert_leader_trade t rows in
      let (m, last) = upsert_leader_trades ts next in (n + m, last)

  -- `ORDER BY ts, signature`
  abbrev pub traded_before : LeaderTrade N → LeaderTrade N → Bool
  traded_before a b = ltb a.ts b.ts || (leb a.ts b.ts && str_le a.signature b.signature)

  unfoldable pub trades_since :
      ℕ → Option (List String) → List (LeaderTrade N) → List (LeaderTrade N)
  trades_since since keys [] = []
  trades_since since keys (t ∷ ts) =
      if leb since t.ts && of_keys t.key keys
      then t ∷ trades_since since keys ts
      else trades_since since keys ts

  unfoldable pub leader_trades :
      ℕ → Option (List String) → List (LeaderTrade N) → List (LeaderTrade N)
  leader_trades since keys rows = sort_by traded_before (trades_since since keys rows)
