-- ===== src/Engine/Entry.antt =====
-- OrderEngine::on_new and OrderEngine::on_cancel with their helpers (cpp/src/engine.cpp). A call
-- returns the new engine and the reports; allocation does not fail.
pub mod Answers
use market_maker_proto.Prelude.{
  ℕ, ◌≡◌, Bool, true, false, not, ◌||◌, ◌&&◌, ◌==◌, leb, inc_u64, if◌then◌else◌, Option, none, some,
  List, [], ◌∷◌,
}
use market_maker_proto.Prelude.Int.{ℤ, pos, leb_ℤ, ltb_ℤ, quot_ℤ, ◌*ℤ◌, to_u64}
use market_maker_proto.Prelude.Text.{Bytes, bytes, bytes_eq}
use market_maker_proto.Types.{
  Ticks, Side, bid, ask, Instrument, RejectCode, unknown_symbol, bad_side, tick_size, lot_size,
  qty_limit, price_range, dup_cl_ord_id, post_only_cross, max_live_orders, unknown_cl_ord_id,
  already_terminal, to_string, validate_order,
}
use market_maker_proto.Protocol.{
  NewOrder, CancelOrder, OrderAck, CancelAck, Reject, OutMsg, order_ack, cancel_ack, reject,
}
use market_maker_proto.Engine.Keys.{OrderKey}
use market_maker_proto.Engine.Containers.{
  lower_bound, points_at, find, emplace, update_at, idx_insert, idx_erase,
}
use market_maker_proto.Engine.State.{
  OrdState, live, cancelled, rejected, Order, Book, OrderEngine, is_live, live_index,
  with_live_index, live_count, count_entry,
}

unfoldable pub side_from_wire : Bytes → Option Side
side_from_wire side =
    if bytes_eq side (bytes "B")
    then some bid
    else if bytes_eq side (bytes "S")
    then some ask
    else none

unfoldable pub to_ticks : Instrument → ℤ → Ticks
to_ticks inst raw_px = record { v = quot_ℤ raw_px inst.tick_size }

unfoldable pub to_raw_px : Instrument → Ticks → ℤ
to_raw_px inst px = px.v *ℤ inst.tick_size

unfoldable pub make_reject : Bytes → RejectCode → Bytes → OutMsg
make_reject cl_id code reason =
    reject
      (record { v = 1; seq = 0; epoch = 0; cl_id = cl_id; code = to_string code; reason = reason })

unfoldable pub validation_reason : RejectCode → NewOrder → Bytes
validation_reason unknown_symbol order = bytes "unknown symbol"
validation_reason bad_side order = bytes "side must be \"B\" or \"S\""
validation_reason tick_size order = bytes "px is not a multiple of tick_size"
validation_reason lot_size order = bytes "qty is not a multiple of lot_size"
validation_reason qty_limit order =
    if leb_ℤ order.qty (pos 0)
    then bytes "qty must be positive"
    else bytes "qty exceeds max_order_qty"
validation_reason price_range order = bytes "px outside [min_price, max_price]"
validation_reason code order = to_string code

abbrev pub tombstone : Order
tombstone = record {
  eng_id = 0;
  side = bid;
  px = record { v = pos 0 };
  leaves = pos 0;
  st = rejected;
}

-- The lambda `reject` of on_new: the report, the tombstone and the counted entry.
unfoldable pub reject_new :
    OrderEngine → ℕ → NewOrder → RejectCode → Bytes → OrderEngine × List OutMsg
reject_new e session order code reason = (
  record e {
    orders = emplace (session, order.cl_id) tombstone e.orders;
    entries_by_session = count_entry e.entries_by_session session;
  },
  make_reject order.cl_id code reason ∷ [],
)

-- The post-only entry test; a side with qty <= 0 or px <= 0 is absent.
unfoldable pub crosses : Side → Book → ℤ → Bool
crosses bid book px =
    ltb_ℤ (pos 0) book.ask_qty && ltb_ℤ (pos 0) book.ask_px && leb_ℤ book.ask_px px
crosses ask book px =
    ltb_ℤ (pos 0) book.bid_qty && ltb_ℤ (pos 0) book.bid_px && leb_ℤ px book.bid_px

unfoldable pub accepted_order : OrderEngine → Side → NewOrder → Order
accepted_order e side order = record {
  eng_id = e.next_eng_id;
  side = side;
  px = to_ticks e.inst order.px;
  leaves = order.qty;
  st = live;
}

unfoldable pub accept : OrderEngine → ℕ → NewOrder → Side → OrderEngine × List OutMsg
accept e session order side =
    let key : OrderKey = (session, order.cl_id) in
    let ack : OrderAck = record {
      v = 1;
      seq = 0;
      epoch = 0;
      cl_id = order.cl_id;
      eng_id = e.next_eng_id;
      status = bytes "live";
      svc_ns = pos 0;
    } in
    (
      with_live_index side (idx_insert key (live_index side e)) (record e {
        orders = emplace key (accepted_order e side order) e.orders;
        entries_by_session = count_entry e.entries_by_session session;
        next_eng_id = inc_u64 e.next_eng_id;
      }),
      order_ack ack ∷ [],
    )

-- From check 4 on. `none` of the parsed side is the failed assertion, which answers nothing.
unfoldable pub enter : OrderEngine → ℕ → NewOrder → Option Side → OrderEngine × List OutMsg
enter e session order none = (e, [])
enter e session order (some side) =
    if order.post_only && crosses side e.book order.px
    then reject_new e session order post_only_cross (bytes "post-only order would cross the book")
    else accept e session order side

unfoldable pub on_new : OrderEngine → ℕ → NewOrder → OrderEngine × List OutMsg
on_new e session order =
    let key : OrderKey = (session, order.cl_id) in
    if points_at key (lower_bound key e.orders)
    then (
      e,
      make_reject order.cl_id dup_cl_ord_id (bytes "cl_id already used on this session") ∷ [],
    )
    else elim (validate_order e.inst order.symbol order.side order.px order.qty) [
      | some code ↦ reject_new e session order code (validation_reason code order)
      | none ↦
          if leb (to_u64 e.inst.max_live_orders) (live_count e session)
          then reject_new e session order max_live_orders
              (bytes "session already holds max_live_orders live orders")
          else enter e session order (side_from_wire order.side)
    ]

abbrev pub cancel : Order → Order
cancel o = record o { st = cancelled }

unfoldable pub cancel_found : OrderEngine → ℕ → CancelOrder → Order → OrderEngine × List OutMsg
cancel_found e session c ord =
    let key : OrderKey = (session, c.cl_id) in
    let ack : CancelAck = record {
      v = 1;
      seq = 0;
      epoch = 0;
      cl_id = c.cl_id;
      eng_id = ord.eng_id;
      status = bytes "cancelled";
    } in
    if not (is_live ord.st)
    then (e, make_reject c.cl_id already_terminal (bytes "order is already terminal") ∷ [])
    else (
      with_live_index ord.side (idx_erase key (live_index ord.side e))
          (record e { orders = update_at key cancel e.orders }),
      cancel_ack ack ∷ [],
    )

unfoldable pub on_cancel : OrderEngine → ℕ → CancelOrder → OrderEngine × List OutMsg
on_cancel e session c = elim (find (session, c.cl_id) e.orders) [
  | none ↦ (e, make_reject c.cl_id unknown_cl_ord_id (bytes "unknown cl_id on this session") ∷ [])
  | some ord ↦ cancel_found e session c ord
]
