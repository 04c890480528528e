-- ===== src/Engine/Teardown.antt =====
-- OrderEngine::end_session (cpp/src/engine.cpp).
use market_maker_proto.Prelude.{ℕ, if◌then◌else◌, none, List, [], ◌∷◌}
use market_maker_proto.Prelude.Text.{bytes}
use market_maker_proto.Protocol.{OutMsg, cancel_ack}
use market_maker_proto.Engine.Containers.{Map, session_range, erase_range}
use market_maker_proto.Engine.State.{Order, OrderEngine, is_live, update}

unfoldable pub end_acks : Map Order → List OutMsg
end_acks [] = []
end_acks ((k, ord) ∷ range) =
    let rest = end_acks range in
    if is_live ord.st
    then cancel_ack (record {
      v = 1;
      seq = 0;
      epoch = 0;
      cl_id = k.1;
      eng_id = ord.eng_id;
      status = bytes "cancelled";
    })
      ∷ rest
    else rest

unfoldable pub end_session : OrderEngine → ℕ → OrderEngine × List OutMsg
end_session e session = (
  record e {
    live_bids = erase_range (λ k. k) session e.live_bids;
    live_asks = erase_range (λ k. k) session e.live_asks;
    orders = erase_range (λ x. x.0) session e.orders;
    entries_by_session = update e.entries_by_session session none;
  },
  end_acks (session_range (λ x. x.0) session e.orders),
)
