-- ===== src/Models.antt =====
-- The constants and wire types of src/tiller/models.py that several parts share. `ts` values are
-- instants in microseconds; USD amounts are of a type `N` of decimals (see Decimal.antt).
use agent_trading.Base.{ℕ, Option, String, Bool}
use agent_trading.Base.Int.{ℤ}

abbrev pub sol_mint : String
sol_mint = "So11111111111111111111111111111111111111112"

abbrev pub usdc_mint : String
usdc_mint = "EPjFWdd5AufqSSqeM2qN1xzybapC8G4wEGGkZwyTDt1v"

abbrev pub system_program : String
system_program = "11111111111111111111111111111111"

abbrev pub token_program : String
token_program = "TokenkegQfeZyiNwAJbNbGKPFXCWuBvf9Ss623VQ5DA"

abbrev pub token_2022_program : String
token_2022_program = "TokenzQdBNbLqP5VEhdkAS6EPFLC1PHnBqCXEpPxuEb"

-- `Literal["normal", "emergency"]`
pub data Mode : Type 0 where
  normal emergency : Mode

-- `Literal["buy", "sell"]`
pub data Side : Type 0 where
  buy sell : Side

pub record SwapRequest : Type 0 where
  pub input_mint : String
  pub output_mint : String
  pub amount_base : ℕ
  pub strategy : String
  pub mode : Mode

-- `Order`, without the transaction text and the raw payload.
pub record Order (N : Type 0) : Type 0 where
  pub in_amount : ℤ
  pub out_amount : ℤ
  pub price_impact_pct : N
  pub fee_bps : ℤ
  pub router : String

pub record TokenAccount : Type 0 where
  pub pubkey : String
  pub mint : String
  pub amount_base : ℕ
  pub owner : String

-- A realised or paper swap, with the fair values of both legs.
pub record Fill (N : Type 0) : Type 0 where
  pub signature : Option String
  pub in_mint : String
  pub out_mint : String
  pub in_base : ℤ
  pub out_base : ℤ
  pub usd_in : N
  pub usd_out : N
  pub fee_usd : N
  pub ts : ℕ
  pub paper : Bool
  pub strategy : String
  pub quote_out_base : ℤ
  pub round_trip_probe_pct : Option N
  pub mode : Mode

pub record ExitRule (N : Type 0) : Type 0 where
  pub stop_price : Option N
  pub trail_pct : Option N
  pub trail_from_gain_pct : Option N
  pub time_stop_at : Option ℕ
  pub ema_exit : Bool

pub record Position (N : Type 0) : Type 0 where
  pub mint : String
  pub amount_base : ℤ
  pub cost_usd : N
  pub opened_at : ℕ
  pub strategy : String
  pub exit : Option (ExitRule N)

-- The owner's caps; `readable = false` when the source could not be read.
pub record OwnerLimits (N : Type 0) : Type 0 where
  pub max_position_usd : Option N
  pub daily_limit_usd : Option N
  pub instructions : Option String
  pub readable : Bool

pub record DayStats (N : Type 0) : Type 0 where
  pub start_equity : N
  pub buys_usd : N
  pub swaps : ℕ
  pub entries : ℕ
  pub start_net_deposits : N

-- `TradeContext`, without the regime and the label of the brakes.
pub record TradeContext (N : Type 0) : Type 0 where
  pub strategy : String
  pub rule : String
  pub side : Side
  pub symbol : String
  pub mint : String
  pub notional_usd : N
  pub price_usd : N
  pub stop_price : Option N
  pub paper : Bool
  pub signature : Option String
