-- ===== src/Engine/Calls.antt =====
-- A history of an OrderEngine: the calls of its mutating entry points (cpp/include/mm/engine.hpp),
-- in the order in which the single-threaded server makes them.
use market_maker_proto.Prelude.{ℕ, Option, some, ◌>>=◌, List, [], ◌∷◌}
use market_maker_proto.Protocol.{NewOrder, CancelOrder}
use market_maker_proto.Engine.State.{Book, OrderEngine}
use market_maker_proto.Engine.Entry.{on_new, on_cancel}
use market_maker_proto.Engine.Sweep.{on_book}
use market_maker_proto.Engine.Teardown.{end_session}

pub data Call : Type 0 where
  new_order : ℕ → NewOrder → Call
  cancel_order : ℕ → CancelOrder → Call
  book_update : Book → Call
  session_end : ℕ → Call

-- `none` is the dereference of a dead iterator.
unfoldable pub step : OrderEngine → Call → Option OrderEngine
step e (new_order session order) = some (on_new e session order).0
step e (cancel_order session c) = some (on_cancel e session c).0
step e (book_update book) = on_book e book >>= λ r. some r.0
step e (session_end session) = some (end_session e session).0

unfoldable pub run : OrderEngine → List Call → Option OrderEngine
run e [] = some e
run e (c ∷ cs) = step e c >>= λ e'. run e' cs
