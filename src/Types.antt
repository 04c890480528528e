-- ===== src/Types.antt =====
-- cpp/include/mm/types.hpp: the instrument, the sides, the reject codes and their wire spellings,
-- and the validation of an order in raw wire units. std::int64_t is ℤ, a string its bytes; Ticks is
-- the integer that it wraps. Proofs: Types/Validation.
pub mod Validation
use market_maker_proto.Prelude.{
  ℕ, Bool, true, false, ◌&&◌, ◌||◌, not, Option, none, some, if◌then◌else◌,
}
use market_maker_proto.Prelude.Int.{ℤ, pos, ltb_ℤ, leb_ℤ, eqb_ℤ, rem_ℤ}
use market_maker_proto.Prelude.Text.{Bytes, bytes, bytes_eq}

-- `v`: the price divided by the tick size.
pub record Ticks : Type 0 where
  pub v : ℤ

pub data Side : Type 0 where
  bid ask : Side

pub record Instrument : Type 0 where
  pub symbol : Bytes
  pub tick_size : ℤ
  pub lot_size : ℤ
  pub min_price : ℤ
  pub max_price : ℤ
  pub max_order_qty : ℤ
  pub max_live_orders : ℤ

pub data RejectCode : Type 0 where
  unsupported_version unknown_type malformed msg_too_large unknown_symbol bad_side : RejectCode
  tick_size lot_size qty_limit price_range dup_cl_ord_id post_only_cross : RejectCode
  max_live_orders unknown_cl_ord_id already_terminal stale_epoch : RejectCode

unfoldable pub to_string : RejectCode → Bytes
to_string unsupported_version = bytes "UNSUPPORTED_VERSION"
to_string unknown_type = bytes "UNKNOWN_TYPE"
to_string malformed = bytes "MALFORMED"
to_string msg_too_large = bytes "MSG_TOO_LARGE"
to_string unknown_symbol = bytes "UNKNOWN_SYMBOL"
to_string bad_side = bytes "BAD_SIDE"
to_string tick_size = bytes "TICK_SIZE"
to_string lot_size = bytes "LOT_SIZE"
to_string qty_limit = bytes "QTY_LIMIT"
to_string price_range = bytes "PRICE_RANGE"
to_string dup_cl_ord_id = bytes "DUP_CLORDID"
to_string post_only_cross = bytes "POST_ONLY_CROSS"
to_string max_live_orders = bytes "MAX_LIVE_ORDERS"
to_string unknown_cl_ord_id = bytes "UNKNOWN_CLORDID"
to_string already_terminal = bytes "ALREADY_TERMINAL"
to_string stale_epoch = bytes "STALE_EPOCH"

-- The if-chain of the source, in its order.
unfoldable pub validate_order : Instrument → Bytes → Bytes → ℤ → ℤ → Option RejectCode
validate_order inst symbol side px qty =
    if not (bytes_eq symbol inst.symbol)
    then some unknown_symbol
    else if not (bytes_eq side (bytes "B")) && not (bytes_eq side (bytes "S"))
    then some bad_side
    else if leb_ℤ inst.tick_size (pos 0) || not (eqb_ℤ (rem_ℤ px inst.tick_size) (pos 0))
    then some tick_size
    else if leb_ℤ inst.lot_size (pos 0) || not (eqb_ℤ (rem_ℤ qty inst.lot_size) (pos 0))
    then some lot_size
    else if leb_ℤ qty (pos 0) || ltb_ℤ inst.max_order_qty qty
    then some qty_limit
    else if ltb_ℤ px inst.min_price || ltb_ℤ inst.max_price px
    then some price_range
    else none
