-- ===== src/Session/Tests.antt =====
-- A session of cpp/src/session.cpp on concrete events, with a codec that knows one order.
pub mod Coalescing
use market_maker_proto.Prelude.{
  ℕ, ◌≡◌, refl, true, false, none, List, [], ◌∷◌, ◌++◌, All, arith, inl, ◌+◌,
}
use market_maker_proto.Prelude.Int.{int_laws, pos, ◌≤ℤ◌, ◌<ℤ◌, ◌-ℤ◌, leb_ℤ}
use market_maker_proto.Prelude.Text.{Bytes, bytes}
use market_maker_proto.Types.{Instrument, malformed, bad_side}
use market_maker_proto.Protocol.{OutMsg, Reject, NewOrder, Tob, new_order}
use market_maker_proto.Outbox.{Outbox, holds_tob, push_report, depth, pop}
use market_maker_proto.Engine.State.{initial, entry_cap_breached}
use market_maker_proto.Telemetry.{TelemetryRecord, Counters}
use market_maker_proto.Session.State.{
  Session, ServerImpl, Turn, Codec, Decoded, failed, decoded, session, start, read_next, going_away,
  steady_ns,
}
use market_maker_proto.Session.Events.{
  mark_outbox_depth, count_reject, emit_reject_event, reject_window_ns, open_window, is_latched,
  ordinal, emit_event, sample_ring_pending,
}
use market_maker_proto.Session.Commands.{on_message, make_reject}
use market_maker_proto.Session.Reads.{on_read, read_error, on_frame, Read, success, closed}
use market_maker_proto.Session.Runs.{react, Event, read_done, write_done, tick_of_book, close, run}
use market_maker_proto.Session.Machine.{view, writes, ◌⟶*◌}
use market_maker_proto.Session.Refines.Handlers.{run-⟶*}
use market_maker_proto.Session.Safety.{Sound, Kept, run_latches}
use market_maker_proto.Session.Wire.{Wired, run-Wired, closing_wire}
use market_maker_proto.Session.Pairing.{Paired}
use market_maker_proto.Session.Pairing.Life.{run-Paired}
use market_maker_proto.Session.Progress.{Progress, pump-Progress}
use market_maker_proto.Session.Reports.{
  pump, pump_loop, push_reject, enqueue_report, check_policy_closes, begin_close, write_message,
  hand_off, narrate_tob, stamp_svc, stamp,
}
use market_maker_proto.Session.Convergence.{Converges, run-Converges}
use market_maker_proto.Session.Spares.{Retires}
use market_maker_proto.Session.Sequencing.{seq_after, engine_after, command, message_outcome}
use market_maker_proto.Session.Rejects.{SameLatch, coalesces}

abbrev pub mock : Instrument
mock = record {
  symbol = bytes "MOCKUSDT";
  tick_size = pos 5;
  lot_size = pos 10;
  min_price = pos 1;
  max_price = pos 10000000;
  max_order_qty = pos 10000;
  max_live_orders = pos 2;
}

abbrev bid_order : NewOrder
bid_order = record {
  v = 1;
  seq = 1;
  epoch = 7;
  md_seq = 3;
  cl_id = bytes "a";
  symbol = bytes "MOCKUSDT";
  side = bytes "B";
  px = pos 100;
  qty = pos 10;
  post_only = false;
}

-- An empty frame is malformed, and every other frame is the order.
abbrev decode_one : Bytes → Decoded
decode_one [] = failed (record { code = malformed; detail = bytes "empty frame" })
decode_one (c ∷ s) = decoded (new_order bid_order)

abbrev pub one_order : Codec
one_order = record { decode = decode_one; encode = λ m. bytes "{}" }

abbrev zeroed : Counters
zeroed = record {
  orders = 0;
  fills = 0;
  rejects = 0;
  cancels = 0;
  conflated = 0;
  outbox_depth_hw = 0;
  send_lag_max_ns = 0;
  sessions = 0;
  telemetry_pending_hw = 0;
  live_orders = 0;
  stale_books_ignored = 0;
}

abbrev blank : TelemetryRecord
blank = record { ts_ns = pos 0; kind = 0; code = 0; args = [] }

-- A server at a time of day, with a telemetry ring of two slots.
abbrev pub server_at : ℕ → ServerImpl
server_at now = record {
  env = record {
    clock = λ n. pos (now + n);
    wait_for_room = λ r. r;
    fault_retries = 2;
    writer_ok = true;
    signals_restored = true;
  };
  reads = 0;
  cfg = record {
    report_hwm = 4;
    telemetry_verbose = true;
    bench_out = [];
    loop_feed = false;
    feed_interval_ms = pos 10;
  };
  inst = mock;
  codec = one_order;
  engine = initial mock 100;
  feed = [];
  feed_index = 0;
  next_md_seq = 2;
  counters = zeroed;
  conflated_base = 0;
  ring = record { head = 0; tail = 0; dropped = 0; slots = blank ∷ blank ∷ [] };
  recorder = none;
  bench_dump = none;
  pending_fault = none;
  sessions = [];
  peak_sessions = 0;
  stopping = false;
  finalized = false;
  telemetry_ok = true;
}

abbrev empty_outbox : Outbox
empty_outbox = record {
  report_hwm = 4;
  report_hwm_breached = false;
  conflated = 0;
  reports = [];
  tob_slot = none;
}

-- An open session of epoch 7.
abbrev pub fresh : Session
fresh = record {
  epoch = 7;
  outbox = empty_outbox;
  out_seq = 1;
  in_seq_expected = 1;
  pending_svc = [];
  reject_latch = 0;
  reject_latch_ns = pos 0;
  retired_acks = 0;
  write_inflight = false;
  write_start_ns = pos 0;
  closing = false;
  drain_then_close = false;
  close_frame_sent = false;
  epoch_retired = false;
  torn_down = false;
  close_code = 0;
  io = [];
}

started_fresh : (start (record { srv = server_at 0; self = session empty_outbox }) 7).self.epoch ≡ 7
unfolding start session read_next
started_fresh = refl

abbrev quote : Tob
quote = record {
  v = 1;
  seq = 0;
  epoch = 0;
  md_seq = 3;
  symbol = bytes "MOCKUSDT";
  bid_px = pos 100;
  bid_qty = pos 5;
  ask_px = pos 102;
  ask_qty = pos 5;
}

abbrev pub frame_of : Bytes → Read
frame_of text = record { ec = success; peer = 0; binary = false; frame = text }

-- An order, a tick, the end of the first write, a shutdown, a late write, and the peer's goodbye.
abbrev life : List (ServerImpl × Event)
life =
    (server_at 10, read_done (frame_of (bytes "{}")))
    ∷ (server_at 20, tick_of_book quote)
    ∷ (server_at 30, write_done success)
    ∷ (server_at 40, close going_away)
    ∷ (server_at 50, write_done success)
    ∷ (server_at 60, read_done (record { ec = closed; peer = 1000; binary = false; frame = [] }))
    ∷ []

open_Sound : Sound (view fresh)
open_Sound = record {
  closing_retired = λ e. absurd (ground (arith, e));
  torn_retired = λ e. absurd (ground (arith, e));
  framed_closing = λ e. absurd (ground (arith, e));
}

run_latches_example : Kept (view fresh) (view (run fresh life)) × Sound (view (run fresh life))
run_latches_example = run_latches fresh life open_Sound

run-Wired_example : Wired (view (run fresh life))
run-Wired_example = run-Wired fresh life (record { numbered = tt; next = inl refl })

run-Paired_example : Paired (run fresh life)
run-Paired_example = run-Paired fresh life (tt, (tt, (tt, (tt, (tt, (tt, tt)))))) refl

closing_wire_example :
    (ms : List OutMsg) × (writes (run fresh life).io ≡ writes fresh.io ++ ms)
    × (fresh.closing ≡ true → All (λ m. holds_tob m ≡ false) ms)
    × (fresh.close_frame_sent ≡ true → ms ≡ [])
closing_wire_example = closing_wire fresh life

run-Converges_example : Converges (run fresh life)
run-Converges_example = run-Converges fresh life (λ c. absurd (ground (arith, c)))

run-⟶*_example : view fresh ⟶* view (run fresh life)
run-⟶*_example = run-⟶* fresh life

pump-Progress_example : Progress (pump (record { srv = server_at 5; self = fresh })).self
pump-Progress_example = pump-Progress (record { srv = server_at 5; self = fresh })

abbrev pub opening : Turn
opening = record { srv = server_at 5; self = fresh }

message_outcome_example :
    let u = on_message opening (bytes "{}") (pos 5) in
    (u.self.in_seq_expected ≡ seq_after fresh (command opening (bytes "{}")))
    × Retires 7 (engine_after (initial mock 100) fresh (command opening (bytes "{}"))) u.srv.engine
message_outcome_example = message_outcome opening (bytes "{}") (pos 5)
