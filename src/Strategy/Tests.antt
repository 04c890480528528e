-- ===== src/Strategy/Tests.antt =====
-- Concrete runs of the strategy of cpp/include/mm/strategy_native.hpp.
use market_maker_proto.Prelude.{◌≡◌, ◌≢◌, ◌+◌, ◌<◌, ◌^◌, refl, arith, List, [], ◌∷◌}
use market_maker_proto.Prelude.Int.{ℤ, pos, ◌<ℤ◌, ◌+ℤ◌, ◌-ℤ◌, neg_ℤ, quot_ℤ, ◌*ℤ◌}
use market_maker_proto.Shm.Messages.{ShmTopOfBook, ShmOrderFill, top_of_book_tag}
use market_maker_proto.Strategy.{
  NativeMarketMaker, native_market_maker, default_config, target_bid_px, target_ask_px, on_tob,
  pull_bid, pull_ask, post_bid, post_ask, manage_bid, manage_ask, manage, is_invalid, quotes_bid,
  quotes_ask, mid_px, position_skew, on_fill,
}
use market_maker_proto.Strategy.Quoting.{
  Settled, WantsBid, WantsAsk, bid_quote, ask_quote, on_tob_quotes, on_tob-no_cross,
}
use market_maker_proto.Strategy.Orders.{
  AccountsBid, AccountsAsk, on_tob_accounts, Event, tob_event, fill_event, run,
}
use market_maker_proto.Strategy.Limits.{position_bounded}

abbrev market : ℤ → ℤ → ShmTopOfBook
market bid_px ask_px = record {
  tag = top_of_book_tag;
  flags = 0;
  seq = 1;
  epoch = 1;
  md_seq = 7;
  bid_px = bid_px;
  bid_qty = pos 20;
  ask_px = ask_px;
  ask_qty = pos 20;
  venue_ns = pos 1000;
}

abbrev bought : ShmOrderFill
bought = record {
  tag = 5;
  seq = 2;
  epoch = 1;
  cl_id = 1;
  md_seq = 7;
  fill_px = pos 91;
  fill_qty = pos 10;
}

abbrev maker : NativeMarketMaker
maker = native_market_maker default_config

abbrev events : List Event
events =
    tob_event (market (pos 100) (pos 104)) (pos 0)
    ∷ fill_event bought
    ∷ tob_event (market (pos 101) (pos 104)) (pos 5)
    ∷ []

abbrev quoted : NativeMarketMaker
quoted = (on_tob maker (market (pos 100) (pos 104)) (pos 0)).0

next_id : maker.next_cl_id ≢ 0
unfolding native_market_maker
next_id = ground arith

id_room : maker.next_cl_id + 1 < 2 ^ 64
unfolding native_market_maker
id_room = omega arith

abbrev first_market : ShmTopOfBook
first_market = market (pos 100) (pos 104)

on_tob_quotes_example :
    Settled
      (WantsBid maker first_market)
      (bid_quote maker first_market)
      quoted.active_bid_cl_id
      quoted.active_bid_px
    × Settled
        (WantsAsk maker first_market)
        (ask_quote maker first_market)
        quoted.active_ask_cl_id
        quoted.active_ask_px
on_tob_quotes_example = on_tob_quotes maker first_market (pos 0) next_id id_room

bid_works : quoted.active_bid_cl_id ≡ 1
unfolding native_market_maker on_tob manage manage_bid manage_ask pull_bid pull_ask post_bid
    post_ask is_invalid quotes_bid quotes_ask target_bid_px target_ask_px mid_px position_skew ◌-ℤ◌
    ◌+ℤ◌ quot_ℤ ◌*ℤ◌
bid_works = refl

ask_works : quoted.active_ask_cl_id ≡ 2
unfolding native_market_maker on_tob manage manage_bid manage_ask pull_bid pull_ask post_bid
    post_ask is_invalid quotes_bid quotes_ask target_bid_px target_ask_px mid_px position_skew ◌-ℤ◌
    ◌+ℤ◌ quot_ℤ ◌*ℤ◌
ask_works = refl

bid_is_set : quoted.active_bid_cl_id ≢ 0
bid_is_set = rw bid_works (ground arith)

ask_is_set : quoted.active_ask_cl_id ≢ 0
ask_is_set = rw ask_works (ground arith)

half_spread_positive : pos 0 <ℤ maker.config.half_spread
unfolding native_market_maker
half_spread_positive = omega arith

on_tob-no_cross_example :
    (quoted.active_bid_px <ℤ quoted.active_ask_px)
    × (quoted.active_bid_px <ℤ first_market.ask_px)
    × (first_market.bid_px <ℤ quoted.active_ask_px)
on_tob-no_cross_example =
    on_tob-no_cross maker first_market (pos 0) next_id id_room half_spread_positive bid_is_set
      ask_is_set

on_tob_accounts_example :
    AccountsBid quoted (on_tob quoted (market (pos 101) (pos 103)) (pos 5))
    × AccountsAsk quoted (on_tob quoted (market (pos 101) (pos 103)) (pos 5))
on_tob_accounts_example = on_tob_accounts quoted (market (pos 101) (pos 103)) (pos 5)

position_bounded_example :
    ((run maker events).0.position <ℤ pos 110) × (neg_ℤ (pos 110) <ℤ (run maker events).0.position)
unfolding ◌+ℤ◌ ◌-ℤ◌
position_bounded_example =
    position_bounded default_config events (omega arith) (omega arith)
      (tt, ((ground arith, omega arith, omega arith), (tt, tt)))

-- A first fill ends the strategy's record of an order, so that a second partial fill of the same order
-- is counted but changes no position.
second_fill_lost :
    (m : NativeMarketMaker)
    → m.active_bid_cl_id ≡ 1
    → m.active_ask_cl_id ≡ 2
    → (on_fill (on_fill m bought) bought).position ≡ (on_fill m bought).position
unfolding on_fill
second_fill_lost m h k = ground arith
