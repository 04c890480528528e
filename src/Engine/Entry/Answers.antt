-- ===== src/Engine/Entry/Answers.antt =====
-- The branches of on_new and on_cancel (cpp/src/engine.cpp) as rules: what each branch has
-- established when it is taken.
use market_maker_proto.Prelude.{
  ℕ, ◌<◌, ◌≡◌, refl, true, false, ◌&&◌, inl, inr, arith, leb, Bool-cases, Option-cases, none, some,
  List, [], ◌∷◌,
}
use market_maker_proto.Prelude.Int.{to_u64}
use market_maker_proto.Prelude.Text.{Bytes, bytes, bytes_eq}
use market_maker_proto.Types.{
  Side, bid, ask, RejectCode, dup_cl_ord_id, unknown_cl_ord_id, already_terminal, max_live_orders,
  post_only_cross, validate_order,
}
use market_maker_proto.Types.Validation.{IsValidOrder, validate_order-IsValidOrder}
use market_maker_proto.Protocol.{NewOrder, CancelOrder, OutMsg}
use market_maker_proto.Engine.Keys.{IsSorted}
use market_maker_proto.Engine.Containers.{keys, find, lower_bound, points_at}
use market_maker_proto.Engine.State.{Order, OrderEngine, is_live, live_count}
use market_maker_proto.Engine.Live.{points_at-lower_bound}
use market_maker_proto.Engine.Entry.{
  side_from_wire, make_reject, reject_new, validation_reason, crosses, accept, enter, on_new,
  cancel_found, on_cancel,
}

abbrev pub Valid : OrderEngine → NewOrder → Type 0
Valid e order = IsValidOrder e.inst order.symbol order.side order.px order.qty

-- The wire spelling of a side.
abbrev pub wire : Side → Bytes
wire bid = bytes "B"
wire ask = bytes "S"

pub side_from_wire-wire : (x : Bytes) (side : Side) → x ≡ wire side → side_from_wire x ≡ some side
unfolding side_from_wire bytes_eq
side_from_wire-wire x bid h = rw h refl
side_from_wire-wire x ask h = rw h refl

pub spelled_side :
    (e : OrderEngine) (order : NewOrder) → Valid e order → (side : Side) × (order.side ≡ wire side)
spelled_side e order v = elim v.side_known [ inl b ↦ (bid, b) | inr s ↦ (ask, s) ]

-- Everything that holds where on_new accepts.
pub record Accepts (e : OrderEngine) (session : ℕ) (order : NewOrder) (side : Side) : Type 0 where
  pub valid : Valid e order
  pub spelled : order.side ≡ wire side
  pub room : live_count e session < to_u64 e.inst.max_live_orders
  pub passive : (order.post_only && crosses side e.book order.px) ≡ false

module _ (e : OrderEngine) (session : ℕ) (order : NewOrder) (P : OrderEngine × List OutMsg → Type 0)
    (rejected : (code : RejectCode) (reason : Bytes) → P (reject_new e session order code reason))
    (accepted : (side : Side)
      → Accepts e session order side
      → P (accept e session order side)) where
  enter_cases :
      (side : Side)
      → Valid e order
      → order.side ≡ wire side
      → live_count e session < to_u64 e.inst.max_live_orders
      → P (enter e session order (some side))
  unfolding enter
  enter_cases side v w r = elim (Bool-cases (order.post_only && crosses side e.book order.px)) [
    | inl c ↦
        rw (c, enter) (rejected post_only_cross (bytes "post-only order would cross the book"))
    | inr c ↦
        rw (c, enter) (accepted side (record { valid = v; spelled = w; room = r; passive = c }))
  ]

  -- A fresh cl_id is rejected or accepted; the parsed side is never missing.
  pub fresh_cases :
      IsSorted (keys e.orders)
      → find (session, order.cl_id) e.orders ≡ none
      → points_at (session, order.cl_id) (lower_bound (session, order.cl_id) e.orders) ≡ false
      → P (on_new e session order)
  unfolding on_new
  fresh_cases s f p =
      elim (Option-cases (validate_order e.inst order.symbol order.side order.px order.qty)) [
        | inr (code, h) ↦ rw (p, h, on_new) (rejected code (validation_reason code order))
        | inl h ↦
            let v : Valid e order =
              validate_order-IsValidOrder e.inst order.symbol order.side order.px order.qty h in
            elim (Bool-cases (leb (to_u64 e.inst.max_live_orders) (live_count e session))) [
              | inl full ↦
                  rw (p, h, full, on_new)
                    (rejected max_live_orders
                      (bytes "session already holds max_live_orders live orders"))
              | inr room ↦
                  let (side, w) = spelled_side e order v in
                  rw (p, h, room, side_from_wire-wire order.side side w, on_new)
                    (enter_cases side v w (ground arith))
            ]
      ]

-- on_new has three outcomes: the duplicate, a reject with its tombstone, an accept.
pub on_new_cases :
    (e : OrderEngine) (session : ℕ) (order : NewOrder) (P : OrderEngine × List OutMsg → Type 0)
    → IsSorted (keys e.orders)
    → (points_at (session, order.cl_id) (lower_bound (session, order.cl_id) e.orders) ≡ true
        → P (
          e,
          make_reject order.cl_id dup_cl_ord_id (bytes "cl_id already used on this session") ∷ [],
        ))
    → (find (session, order.cl_id) e.orders ≡ none
        → (code : RejectCode) (reason : Bytes) → P (reject_new e session order code reason))
    → (find (session, order.cl_id) e.orders ≡ none
        → (side : Side) → Accepts e session order side
        → P (accept e session order side))
    → P (on_new e session order)
unfolding on_new
on_new_cases e session order P s dup rejected accepted =
    elim (Bool-cases
      (points_at (session, order.cl_id) (lower_bound (session, order.cl_id) e.orders))) [
        | inl p ↦ rw (p, on_new) (dup p)
        | inr p ↦
            let f = points_at-lower_bound (session, order.cl_id) e.orders s p in
            fresh_cases e session order P (rejected f) (accepted f) s f p
      ]

-- on_cancel has three outcomes: an unknown cl_id, a terminal order, a cancelled one.
pub on_cancel_cases :
    (e : OrderEngine) (session : ℕ) (c : CancelOrder) (P : OrderEngine × List OutMsg → Type 0)
    → ((code : RejectCode) (reason : Bytes) → P (e, make_reject c.cl_id code reason ∷ []))
    → ((ord : Order)
        → find (session, c.cl_id) e.orders ≡ some ord
        → is_live ord.st ≡ true
        → P (cancel_found e session c ord))
    → P (on_cancel e session c)
unfolding on_cancel cancel_found
on_cancel_cases e session c P rejected found =
    elim (Option-cases (find (session, c.cl_id) e.orders)) [
      | inl f ↦
          rw (f, on_cancel) (rejected unknown_cl_ord_id (bytes "unknown cl_id on this session"))
      | inr (ord, f) ↦ elim (Bool-cases (is_live ord.st)) [
        | inl l ↦ rw (f, on_cancel) (found ord f l)
        | inr t ↦
            rw (f, on_cancel, t, cancel_found)
              (rejected already_terminal (bytes "order is already terminal"))
      ]
    ]
