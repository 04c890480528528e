-- ===== src/Strategy/Limits.antt =====
-- The bound on the position of the strategy of cpp/include/mm/strategy_native.hpp.
use market_maker_proto.Prelude.{
  ℕ, ◌≡◌, ◌≢◌, refl, ◌==◌, arith, Bool-cases, inl, inr, List, [], ◌∷◌, All, subst, ◌∙◌,
}
use market_maker_proto.Prelude.Int.{ℤ, pos, ◌<ℤ◌, ◌≤ℤ◌, neg_ℤ, ◌+ℤ◌, ◌-ℤ◌, int_laws, -ℤ_parts}
use market_maker_proto.Shm.Messages.{ShmOrderFill, ShmOrderReject}
use market_maker_proto.Strategy.{
  NativeMarketMaker, native_market_maker, StrategyConfig, pull_bid, pull_ask, post_bid, post_ask,
  manage_bid, manage_ask, cancel_all, quotes_bid, quotes_ask, manage, seen, on_ack, on_fill,
  on_reject,
}
use market_maker_proto.Strategy.Orders.{
  Event, tob_event, depth_event, cancel_event, ack_event, fill_event, reject_event, handle, run,
  Handles, on_tob_cases, on_depth_cases,
}

-- A fill is of a real order and of no more than the size that the strategy sends.
abbrev pub Sane : StrategyConfig → Event → Type 0
Sane c (fill_event fill) =
    (fill.cl_id ≢ 0) × (pos 0 ≤ℤ fill.fill_qty) × (fill.fill_qty ≤ℤ c.order_size)
Sane c (tob_event tob now_ns) = Unit
Sane c (depth_event depth md_seq now_ns clock_ns) = Unit
Sane c cancel_event = Unit
Sane c (ack_event ack) = Unit
Sane c (reject_event reject) = Unit

-- What is known of the position: it is short of the maximum by the size of an order when a bid works,
-- and on the other side when an ask works.
pub record Limited (m : NativeMarketMaker) : Type 0 where
  pub bid_room : m.active_bid_cl_id ≢ 0 → m.position <ℤ m.config.max_position
  pub ask_room : m.active_ask_cl_id ≢ 0 → neg_ℤ m.config.max_position <ℤ m.position
  pub long_bound : m.position <ℤ m.config.max_position +ℤ m.config.order_size
  pub short_bound : neg_ℤ m.config.max_position -ℤ m.config.order_size <ℤ m.position

cancel_all-Limited : (m : NativeMarketMaker) → Limited m → Limited (cancel_all m).0
unfolding cancel_all pull_bid pull_ask
cancel_all-Limited m w = ground arith

seen-Limited :
    (m : NativeMarketMaker) (md_seq : ℕ) (ns : ℤ) → Limited m → Limited (seen m md_seq ns)
seen-Limited m md_seq ns w = record {
  bid_room = w.bid_room;
  ask_room = w.ask_room;
  long_bound = w.long_bound;
  short_bound = w.short_bound;
}

manage-Limited :
    (m : NativeMarketMaker) (md_seq : ℕ) (bid_px ask_px target_bid target_ask : ℤ)
    → Limited m
    → Limited (manage m md_seq bid_px ask_px target_bid target_ask).0
unfolding manage manage_bid manage_ask pull_bid pull_ask post_bid post_ask quotes_bid quotes_ask
manage-Limited m md_seq bid_px ask_px target_bid target_ask w = ground arith

on_fill-Limited :
    (m : NativeMarketMaker) (fill : ShmOrderFill)
    → Sane m.config (fill_event fill)
    → Limited m
    → Limited (on_fill m fill)
unfolding on_fill
on_fill-Limited m fill (z, lo, hi) w = elim (Bool-cases (fill.cl_id == m.active_bid_cl_id)) [
  | inl e ↦
      let bid : m.active_bid_cl_id ≢ 0 = ground arith in
      let room = w.bid_room bid in
      rw e (record {
        bid_room = λ a. absurd (a refl);
        ask_room = λ a. let r = w.ask_room a in omega int_laws;
        long_bound = omega int_laws;
        short_bound = omega int_laws;
      })
  | inr e ↦ elim (Bool-cases (fill.cl_id == m.active_ask_cl_id)) [
    | inl f ↦
        let ask : m.active_ask_cl_id ≢ 0 = ground arith in
        let room = w.ask_room ask in
        rw (e, f)
          (record {
            bid_room = λ a. let r = w.bid_room a in omega int_laws;
            ask_room = λ a. absurd (a refl);
            long_bound = omega int_laws;
            short_bound = omega int_laws;
          })
    | inr f ↦
        rw (e, f)
          (record {
            bid_room = w.bid_room;
            ask_room = w.ask_room;
            long_bound = w.long_bound;
            short_bound = w.short_bound;
          })
  ]
]

on_reject-Limited :
    (m : NativeMarketMaker) (reject : ShmOrderReject) → Limited m → Limited (on_reject m reject)
unfolding on_reject
on_reject-Limited m reject w = ground arith

Limited-Handles :
    (m : NativeMarketMaker) (md_seq : ℕ) → Limited m → Handles m (λ r. Limited r.0) md_seq
Limited-Handles m md_seq w = (
  λ ns. cancel_all-Limited (seen m md_seq ns) (seen-Limited m md_seq ns w),
  λ ns b a tb ta. manage-Limited (seen m md_seq ns) md_seq b a tb ta (seen-Limited m md_seq ns w),
)

handle-Limited :
    (m : NativeMarketMaker) (ev : Event) → Sane m.config ev → Limited m → Limited (handle m ev).0
unfolding handle on_ack
handle-Limited m (tob_event tob now_ns) h w =
    on_tob_cases m (λ r. Limited r.0) tob now_ns (Limited-Handles m tob.md_seq w)
handle-Limited m (depth_event depth md_seq now_ns clock_ns) h w =
    on_depth_cases m (λ r. Limited r.0) depth md_seq now_ns clock_ns (Limited-Handles m md_seq w)
handle-Limited m cancel_event h w = cancel_all-Limited m w
handle-Limited m (ack_event ack) h w = record {
  bid_room = w.bid_room;
  ask_room = w.ask_room;
  long_bound = w.long_bound;
  short_bound = w.short_bound;
}
handle-Limited m (fill_event fill) h w = on_fill-Limited m fill h w
handle-Limited m (reject_event reject) h w = on_reject-Limited m reject w

manage_config :
    (m : NativeMarketMaker) (md_seq : ℕ) (bid_px ask_px target_bid target_ask : ℤ)
    → (manage m md_seq bid_px ask_px target_bid target_ask).0.config ≡ m.config
unfolding manage manage_bid manage_ask pull_bid pull_ask post_bid post_ask
manage_config m md_seq bid_px ask_px target_bid target_ask = ground arith

cancel_all_config : (m : NativeMarketMaker) → (cancel_all m).0.config ≡ m.config
unfolding cancel_all pull_bid pull_ask
cancel_all_config m = ground arith

config-Handles :
    (m : NativeMarketMaker) (md_seq : ℕ) → Handles m (λ r. r.0.config ≡ m.config) md_seq
config-Handles m md_seq = (
  λ ns. cancel_all_config (seen m md_seq ns),
  λ ns b a tb ta. manage_config (seen m md_seq ns) md_seq b a tb ta,
)

handle_config : (m : NativeMarketMaker) (ev : Event) → (handle m ev).0.config ≡ m.config
unfolding handle on_ack on_fill on_reject
handle_config m (tob_event tob now_ns) =
    on_tob_cases m (λ r. r.0.config ≡ m.config) tob now_ns (config-Handles m tob.md_seq)
handle_config m (depth_event depth md_seq now_ns clock_ns) =
    on_depth_cases m (λ r. r.0.config ≡ m.config) depth md_seq now_ns clock_ns
      (config-Handles m md_seq)
handle_config m cancel_event = cancel_all_config m
handle_config m (ack_event ack) = refl
handle_config m (fill_event fill) = ground arith
handle_config m (reject_event reject) = ground arith

run_within :
    (m : NativeMarketMaker) (evs : List Event)
    → All (Sane m.config) evs
    → Limited m
    → Limited (run m evs).0 × ((run m evs).0.config ≡ m.config)
unfolding run
run_within m [] h w = (w, refl)
run_within m (ev ∷ evs) h w =
    let kept = handle_config m ev in
    let (l, c) = run_within (handle m ev).0 evs (rw kept h.1) (handle-Limited m ev h.0 w) in
    (l, c ∙ kept)

-- The position stays bounded: from a fresh strategy with a positive maximum and a nonnegative order
-- size, over any sequence of events whose fills are of nonzero order ids and of quantities from 0 to
-- the order size, the position is above minus the maximum less one order and below the maximum plus
-- one order.
pub position_bounded :
    (config : StrategyConfig) (evs : List Event)
    → pos 0 <ℤ config.max_position
    → pos 0 ≤ℤ config.order_size
    → All (Sane config) evs
    → let m = (run (native_market_maker config) evs).0 in
      (m.position <ℤ config.max_position +ℤ config.order_size)
      × (neg_ℤ config.max_position -ℤ config.order_size <ℤ m.position)
unfolding native_market_maker
position_bounded config evs p q h =
    let start : NativeMarketMaker = native_market_maker config in
    let (l, c) = run_within start evs h (record {
      bid_room = λ a. absurd (a refl);
      ask_room = λ a. absurd (a refl);
      long_bound = omega int_laws;
      short_bound = ground (arith, -ℤ_parts (neg_ℤ config.max_position) config.order_size);
    }) in
    (
      subst (λ k. (run start evs).0.position <ℤ k.max_position +ℤ k.order_size) c l.long_bound,
      subst (λ k. neg_ℤ k.max_position -ℤ k.order_size <ℤ (run start evs).0.position) c
          l.short_bound,
    )
