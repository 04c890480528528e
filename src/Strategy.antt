-- ===== src/Strategy.antt =====
-- NativeMarketMaker (cpp/include/mm/strategy_native.hpp): its state and its handlers. Signed 64-bit
-- arithmetic is unbounded here, and counters wrap as written.
pub mod Quoting
pub mod Orders
pub mod Limits
mod Tests
use market_maker_proto.Prelude.{
  ℕ, ◌+◌, ◌%◌, ◌^◌, Bool, true, false, not, ◌||◌, ◌&&◌, ◌==◌, inc_u64, if◌then◌else◌,
}
use market_maker_proto.Prelude.Int.{ℤ, pos, leb_ℤ, ltb_ℤ, eqb_ℤ, ◌+ℤ◌, ◌-ℤ◌, ◌*ℤ◌, quot_ℤ, neg_ℤ}
use market_maker_proto.Shm.Messages.{
  ShmTopOfBook, ShmNewOrder, ShmCancelOrder, ShmOrderAck, ShmOrderFill, ShmOrderReject,
  new_order_tag, cancel_order_tag, no_new_order, no_cancel_order,
}

pub record StrategyConfig : Type 0 where
  pub order_size : ℤ
  pub max_position : ℤ
  pub half_spread : ℤ
  pub stale_timeout_ns : ℤ

abbrev pub default_config : StrategyConfig
default_config = record {
  order_size = pos 10;
  max_position = pos 100;
  half_spread = pos 10;
  stale_timeout_ns = pos 5000000000;
}

pub record StrategyDecision : Type 0 where
  pub has_bid_cancel : Bool
  pub has_ask_cancel : Bool
  pub has_bid_order : Bool
  pub has_ask_order : Bool
  pub cancel_bid : ShmCancelOrder
  pub cancel_ask : ShmCancelOrder
  pub new_bid : ShmNewOrder
  pub new_ask : ShmNewOrder

abbrev pub no_decision : StrategyDecision
no_decision = record {
  has_bid_cancel = false;
  has_ask_cancel = false;
  has_bid_order = false;
  has_ask_order = false;
  cancel_bid = no_cancel_order;
  cancel_ask = no_cancel_order;
  new_bid = no_new_order;
  new_ask = no_new_order;
}

pub record NativeMarketMaker : Type 0 where
  pub config : StrategyConfig
  pub next_cl_id : ℕ
  pub seq : ℕ
  pub position : ℤ
  pub realized_pnl : ℤ
  pub active_bid_cl_id : ℕ
  pub active_ask_cl_id : ℕ
  pub active_bid_px : ℤ
  pub active_ask_px : ℤ
  pub last_md_seq : ℕ
  pub last_tob_ns : ℤ
  pub fill_count : ℕ
  pub ack_count : ℕ
  pub reject_count : ℕ

unfoldable pub native_market_maker : StrategyConfig → NativeMarketMaker
native_market_maker config = record {
  config = config;
  next_cl_id = 1;
  seq = 1;
  position = pos 0;
  realized_pnl = pos 0;
  active_bid_cl_id = 0;
  active_ask_cl_id = 0;
  active_bid_px = pos 0;
  active_ask_px = pos 0;
  last_md_seq = 0;
  last_tob_ns = pos 0;
  fill_count = 0;
  ack_count = 0;
  reject_count = 0;
}

abbrev pub Step : Type 0
Step = NativeMarketMaker × StrategyDecision

abbrev pub inc_u32 : ℕ → ℕ
inc_u32 n = (n + 1) % 2 ^ 32

abbrev pub cancel_message : NativeMarketMaker → ℕ → ShmCancelOrder
cancel_message m cl_id = record {
  tag = cancel_order_tag;
  seq = m.seq;
  epoch = 0;
  cl_id = cl_id;
  send_ts_ns = m.last_tob_ns;
}

-- The body that pulls the working bid, in its five places, and the one that pulls the ask.
unfoldable pub pull_bid : Step → Step
pull_bid (m, d) = (
  record m { seq = inc_u32 m.seq; active_bid_cl_id = 0 },
  record d { has_bid_cancel = true; cancel_bid = cancel_message m m.active_bid_cl_id },
)

unfoldable pub pull_ask : Step → Step
pull_ask (m, d) = (
  record m { seq = inc_u32 m.seq; active_ask_cl_id = 0 },
  record d { has_ask_cancel = true; cancel_ask = cancel_message m m.active_ask_cl_id },
)

abbrev pub order_message : NativeMarketMaker → ℕ → ℕ → ℤ → ShmNewOrder
order_message m side md_seq px = record {
  tag = new_order_tag;
  side = side;
  post_only = 1;
  seq = m.seq;
  epoch = 0;
  md_seq = md_seq;
  cl_id = m.next_cl_id;
  px = px;
  qty = m.config.order_size;
  send_ts_ns = m.last_tob_ns;
}

unfoldable pub post_bid : ℕ → ℤ → Step → Step
post_bid md_seq px (m, d) = (
  record m {
    next_cl_id = inc_u64 m.next_cl_id;
    seq = inc_u32 m.seq;
    active_bid_cl_id = m.next_cl_id;
    active_bid_px = px;
  },
  record d { has_bid_order = true; new_bid = order_message m 1 md_seq px },
)

unfoldable pub post_ask : ℕ → ℤ → Step → Step
post_ask md_seq px (m, d) = (
  record m {
    next_cl_id = inc_u64 m.next_cl_id;
    seq = inc_u32 m.seq;
    active_ask_cl_id = m.next_cl_id;
    active_ask_px = px;
  },
  record d { has_ask_order = true; new_ask = order_message m 2 md_seq px },
)

-- One side's block of `on_tob` and `on_depth`: the guard, the target and the sequence number.
unfoldable pub manage_bid : Bool → ℕ → ℤ → Step → Step
manage_bid quoting md_seq px s =
    let working = not (s.0.active_bid_cl_id == 0) in
    let pulled = if working && not (eqb_ℤ s.0.active_bid_px px) then pull_bid s else s in
    if quoting
    then if pulled.0.active_bid_cl_id == 0 then post_bid md_seq px pulled else pulled
    else if working
    then pull_bid s
    else s

unfoldable pub manage_ask : Bool → ℕ → ℤ → Step → Step
manage_ask quoting md_seq px s =
    let working = not (s.0.active_ask_cl_id == 0) in
    let pulled = if working && not (eqb_ℤ s.0.active_ask_px px) then pull_ask s else s in
    if quoting
    then if pulled.0.active_ask_cl_id == 0 then post_ask md_seq px pulled else pulled
    else if working
    then pull_ask s
    else s

unfoldable pub cancel_all : NativeMarketMaker → Step
cancel_all m =
    let start : Step = (m, no_decision) in
    let s = if m.active_bid_cl_id == 0 then start else pull_bid start in
    if s.0.active_ask_cl_id == 0 then s else pull_ask s

unfoldable pub is_invalid : ShmTopOfBook → Bool
is_invalid tob = leb_ℤ tob.bid_px (pos 0) || leb_ℤ tob.ask_px (pos 0) || leb_ℤ tob.ask_px tob.bid_px

unfoldable pub mid_px : ShmTopOfBook → ℤ
mid_px tob = quot_ℤ (tob.bid_px +ℤ tob.ask_px) (pos 2)

unfoldable pub position_skew : NativeMarketMaker → ℤ
position_skew m = quot_ℤ (m.position *ℤ pos 2) (pos 10)

unfoldable pub target_bid_px : NativeMarketMaker → ShmTopOfBook → ℤ
target_bid_px m tob = mid_px tob -ℤ m.config.half_spread -ℤ position_skew m

unfoldable pub target_ask_px : NativeMarketMaker → ShmTopOfBook → ℤ
target_ask_px m tob = mid_px tob +ℤ m.config.half_spread -ℤ position_skew m

unfoldable pub quotes_bid : NativeMarketMaker → ℤ → ℤ → Bool
quotes_bid m target ask_px = ltb_ℤ m.position m.config.max_position && ltb_ℤ target ask_px

unfoldable pub quotes_ask : NativeMarketMaker → ℤ → ℤ → Bool
quotes_ask m target bid_px = ltb_ℤ (neg_ℤ m.config.max_position) m.position && ltb_ℤ bid_px target

-- Both sides in turn, the bid first.
unfoldable pub manage : NativeMarketMaker → ℕ → ℤ → ℤ → ℤ → ℤ → Step
manage m md_seq bid_px ask_px target_bid target_ask =
    manage_ask (quotes_ask m target_ask bid_px) md_seq target_ask
      (manage_bid (quotes_bid m target_bid ask_px) md_seq target_bid (m, no_decision))

abbrev pub seen : NativeMarketMaker → ℕ → ℤ → NativeMarketMaker
seen m md_seq ns = record m { last_tob_ns = ns; last_md_seq = md_seq }

unfoldable pub on_tob : NativeMarketMaker → ShmTopOfBook → ℤ → Step
on_tob m tob now_ns =
    let m' = seen m tob.md_seq (if ltb_ℤ (pos 0) now_ns then now_ns else tob.venue_ns) in
    if is_invalid tob
    then cancel_all m'
    else manage m' tob.md_seq tob.bid_px tob.ask_px (target_bid_px m' tob) (target_ask_px m' tob)

-- What `on_depth` computes of a BookDepth4 in floating point: the test of its best prices, their
-- integer parts, and the rounded targets of SimdPricingEngine::compute.
pub record PricedDepth : Type 0 where
  pub invalid : Bool
  pub bid_px : ℤ
  pub ask_px : ℤ
  pub target_bid : ℤ
  pub target_ask : ℤ

-- `clock_ns` is the reading of the steady clock.
unfoldable pub on_depth : NativeMarketMaker → PricedDepth → ℕ → ℤ → ℤ → Step
on_depth m depth md_seq now_ns clock_ns =
    let m' = seen m md_seq (if ltb_ℤ (pos 0) now_ns then now_ns else clock_ns) in
    if depth.invalid
    then cancel_all m'
    else manage m' md_seq depth.bid_px depth.ask_px depth.target_bid depth.target_ask

unfoldable pub on_ack : NativeMarketMaker → ShmOrderAck → NativeMarketMaker
on_ack m ack = record m { ack_count = inc_u64 m.ack_count }

unfoldable pub on_fill : NativeMarketMaker → ShmOrderFill → NativeMarketMaker
on_fill m fill =
    let m' = record m { fill_count = inc_u64 m.fill_count } in
    let value = fill.fill_px *ℤ fill.fill_qty in
    if fill.cl_id == m.active_bid_cl_id
    then record m' {
      position = m.position +ℤ fill.fill_qty;
      realized_pnl = m.realized_pnl -ℤ value;
      active_bid_cl_id = 0;
    }
    else if fill.cl_id == m.active_ask_cl_id
    then record m' {
      position = m.position -ℤ fill.fill_qty;
      realized_pnl = m.realized_pnl +ℤ value;
      active_ask_cl_id = 0;
    }
    else m'

unfoldable pub on_reject : NativeMarketMaker → ShmOrderReject → NativeMarketMaker
on_reject m reject =
    let m' = record m { reject_count = inc_u64 m.reject_count } in
    if reject.cl_id == m.active_bid_cl_id
    then record m' { active_bid_cl_id = 0 }
    else if reject.cl_id == m.active_ask_cl_id
    then record m' { active_ask_cl_id = 0 }
    else m'

unfoldable pub is_stale : NativeMarketMaker → ℤ → Bool
is_stale m now_ns =
    ltb_ℤ m.last_tob_ns now_ns && ltb_ℤ m.config.stale_timeout_ns (now_ns -ℤ m.last_tob_ns)
