-- ===== src/Copy.antt =====
-- The types of src/tiller/copy/models.py, and the parts of src/tiller/copy as children.
pub mod Cluster
pub mod Exits
pub mod Consensus
pub mod Strategy
pub mod Leaders
use agent_trading.Base.{ℕ, Option, String, Bool, List}

-- `LeaderScore`; `F` stands for floats.
pub record LeaderScore (N F : Type 0) : Type 0 where
  pub key : String
  pub wallet : String
  pub qualified : Bool
  pub reasons : List String
  pub score : F
  pub cluster_id : ℕ
  pub replay_pf : Option F
  pub replay_expectancy_pct : Option N
  pub n_replayed : ℕ
