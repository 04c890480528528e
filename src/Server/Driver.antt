-- ===== src/Server/Driver.antt =====
-- The feed driver, the stop of a run and the fan-out to the sessions (cpp/src/server.cpp). The acceptor,
-- the timers and the signals are outside: closing, cancelling and arming them shows nowhere here.
use market_maker_proto.Prelude.{
  ℕ, ◌+◌, Bool, true, false, not, ◌&&◌, ◌==◌, leb, if◌then◌else◌, Option, none, some, ◌>>=◌, List,
  [], ◌∷◌, map, length, get_elem?, inc_u64, max,
}
use market_maker_proto.Prelude.Int.{ℤ}
use market_maker_proto.Protocol.{OutMsg, Tob, tob, order_ack, cancel_ack, reject, fill}
use market_maker_proto.Engine.State.{Book, Routed}
use market_maker_proto.Engine.Sweep.{on_book}
use market_maker_proto.Feed.{FeedEvent, FeedSet, feed_set, feed_halt, feed_drop, feed_end}
use market_maker_proto.Bench.{BenchRecorder, md_published}
use market_maker_proto.Session.State.{Session, ServerImpl, Turn, steady_ns, tick, going_away}
use market_maker_proto.Session.Reports.{begin_close, deliver_report, deliver_tob}
use market_maker_proto.Server.Shutdown.{finalize, is_none_open}

abbrev pub find_session : List (ℕ × Session) → ℕ → Option Session
find_session [] epoch = none
find_session ((k, s) ∷ sessions) epoch =
    let rest = find_session sessions epoch in if k == epoch then some s else rest

-- The session's object after its turn, if the map still has it.
abbrev pub put_session : List (ℕ × Session) → ℕ → Session → List (ℕ × Session)
put_session [] epoch s = []
put_session ((k, old) ∷ sessions) epoch s =
    let rest = put_session sessions epoch s in (k, if k == epoch then s else old) ∷ rest

abbrev pub end_turn : Turn → ℕ → ServerImpl
end_turn u epoch = record u.srv { sessions = put_session u.srv.sessions epoch u.self }

-- A call of a session through the map; nothing happens where it has no entry.
unfoldable pub in_turn : ServerImpl → ℕ → (Turn → Turn) → ServerImpl
in_turn srv epoch call = elim (find_session srv.sessions epoch) [
  | none ↦ srv
  | some s ↦ end_turn (call (record { srv = srv; self = s })) epoch
]

-- The same call of each of the sessions in order. None of the calls that are made so erases an entry.
unfoldable pub each_session : ServerImpl → List ℕ → (Turn → Turn) → ServerImpl
each_session srv [] call = srv
each_session srv (epoch ∷ epochs) call = each_session (in_turn srv epoch call) epochs call

abbrev pub epochs : ServerImpl → List ℕ
epochs srv = map (λ x. x.0) srv.sessions

abbrev pub close_all : ServerImpl → ServerImpl
close_all srv = each_session srv (epochs srv) (λ t. begin_close t going_away)

unfoldable pub note_session_added : ServerImpl → ServerImpl
note_session_added srv = record srv { peak_sessions = max srv.peak_sessions (length srv.sessions) }

unfoldable pub begin_stop : ServerImpl → ServerImpl
begin_stop srv =
    let stopped : ServerImpl = record srv {
      stopping = true;
      telemetry_ok = srv.telemetry_ok && srv.env.signals_restored;
    } in
    if srv.stopping
    then srv
    else if is_none_open srv.sessions
    then finalize stopped
    else close_all stopped

abbrev pub is_fill : OutMsg → Bool
is_fill (fill f) = true
is_fill (tob t) = false
is_fill (order_ack a) = false
is_fill (cancel_ack a) = false
is_fill (reject r) = false

unfoldable pub count_fill : ServerImpl → OutMsg → ServerImpl
count_fill srv m = record srv {
  counters = record srv.counters {
    fills = if is_fill m then inc_u64 srv.counters.fills else srv.counters.fills;
  };
}

-- The loop over the routed reports.
unfoldable pub route : ServerImpl → List Routed → ServerImpl
route srv [] = srv
route srv (r ∷ routed) =
    route (in_turn (count_fill srv r.msg) r.session (λ t. deliver_report t r.msg)) routed

abbrev pub record_publish : Option BenchRecorder → ℕ → ℤ → Option BenchRecorder
record_publish none md_seq m0 = none
record_publish (some r) md_seq m0 = some (md_published r md_seq m0)

abbrev pub tob_of : ServerImpl → Book → Tob
tob_of srv book = record {
  v = 1;
  seq = 0;
  epoch = 0;
  md_seq = book.md_seq;
  symbol = srv.inst.symbol;
  bid_px = book.bid_px;
  bid_qty = book.bid_qty;
  ask_px = book.ask_px;
  ask_qty = book.ask_qty;
}

abbrev pub next_book : ServerImpl → FeedSet → Book
next_book srv set = record {
  bid_px = set.bid_px;
  bid_qty = set.bid_qty;
  ask_px = set.ask_px;
  ask_qty = set.ask_qty;
  md_seq = inc_u64 srv.next_md_seq;
}

-- What follows the engine's answer: the reports, then the tick to every session.
unfoldable pub fan_out : ServerImpl → Book → List Routed → ServerImpl
fan_out srv book routed =
    let told = route srv routed in
    each_session told (epochs told) (λ t. deliver_tob t (tob_of told book))

-- `none` is the engine's dereference of a dead iterator.
unfoldable pub publish_book : ServerImpl → FeedSet → Option ServerImpl
publish_book srv set =
    let book = next_book srv set in
    let stamped : ServerImpl = record (tick srv) {
      next_md_seq = inc_u64 srv.next_md_seq;
      recorder = record_publish srv.recorder book.md_seq (steady_ns srv);
    } in
    on_book srv.engine book >>= λ r. some (fan_out (record stamped { engine = r.0 }) book r.1)

-- The server after an event of the feed, and the delay of the next one, if it is scheduled.
pub record Fed : Type 0 where
  pub srv : ServerImpl
  pub next : Option ℤ

unfoldable pub play : ServerImpl → FeedEvent → Option Fed
play srv (feed_set set) =
    publish_book srv set >>= λ u. some (record { srv = u; next = some srv.cfg.feed_interval_ms })
play srv (feed_halt ms) = some (record { srv = srv; next = some ms })
play srv feed_drop = some (record { srv = close_all srv; next = some srv.cfg.feed_interval_ms })
play srv feed_end = some (record { srv = begin_stop srv; next = none })

-- The event at an index that is in range; out of range does not occur.
abbrev pub play_at : ServerImpl → ℕ → Option Fed
play_at srv index =
    get_elem? srv.feed index >>= λ event. play (record srv { feed_index = index + 1 }) event

abbrev pub is_empty_feed : List FeedEvent → Bool
is_empty_feed [] = true
is_empty_feed (e ∷ events) = false

unfoldable pub on_feed_event : ServerImpl → Option Fed
on_feed_event srv =
    if srv.stopping
    then some (record { srv = srv; next = none })
    else if not (leb (length srv.feed) srv.feed_index)
    then play_at srv srv.feed_index
    else if srv.cfg.loop_feed && not (is_empty_feed srv.feed)
    then play_at srv 0
    else some (record { srv = begin_stop srv; next = none })
