-- ===== src/Server/Snapshot.antt =====
-- The counters' snapshots and their publication (cpp/src/server.cpp).
use market_maker_proto.Prelude.{
  ℕ, zero, suc, ◌+◌, ◌%◌, ◌^◌, Bool, true, false, ◌&&◌, leb, if◌then◌else◌, Option, none, some,
  List, [], ◌∷◌, length,
}
use market_maker_proto.Engine.State.{OrderEngine, live_count}
use market_maker_proto.Ring.Spsc.{try_push, pending, capacity}
use market_maker_proto.Telemetry.{TelemetryRecord, snapshot_records}
use market_maker_proto.Session.State.{Session, ServerImpl, steady_ns, tick}
use market_maker_proto.Session.Events.{sample_ring_pending}

-- Sums of std::uint64_t over the open sessions.
unfoldable pub sum_live : OrderEngine → List (ℕ × Session) → ℕ → ℕ
sum_live e [] live = live
sum_live e ((epoch, s) ∷ sessions) live = sum_live e sessions ((live + live_count e epoch) % 2 ^ 64)

unfoldable pub sum_conflated : List (ℕ × Session) → ℕ → ℕ
sum_conflated [] conflated = conflated
sum_conflated ((epoch, s) ∷ sessions) conflated =
    sum_conflated sessions ((conflated + s.outbox.conflated) % 2 ^ 64)

unfoldable pub settle_snapshot_counters : ServerImpl → ServerImpl
settle_snapshot_counters srv = record srv {
  counters = record srv.counters {
    sessions = length srv.sessions;
    live_orders = sum_live srv.engine srv.sessions 0;
    conflated = sum_conflated srv.sessions srv.conflated_base;
    stale_books_ignored = srv.engine.stale_books_ignored;
  };
}

unfoldable pub push_snapshot : ServerImpl → ServerImpl
push_snapshot srv =
    let settled = settle_snapshot_counters srv in
    let records = snapshot_records settled.counters (steady_ns settled) in
    sample_ring_pending
      (record (tick settled) { ring = (try_push (try_push settled.ring records.0).0 records.1).0 })

-- The wait runs only on a full ring.
unfoldable pub publish_record : ServerImpl → TelemetryRecord → ServerImpl × Bool
publish_record srv rec =
    let ready =
      if leb (capacity srv.ring) (pending srv.ring)
      then srv.env.wait_for_room srv.ring
      else srv.ring in
    (record srv { ring = (try_push ready rec).0 }, (try_push ready rec).1)

-- The do-while loop, on the offers that the deadline allows after this one.
unfoldable pub offer_fault : ℕ → ServerImpl → TelemetryRecord → ServerImpl × Bool
offer_fault zero srv rec = publish_record srv rec
offer_fault (suc retries) srv rec = elim (publish_record srv rec).1 [
  | true ↦ publish_record srv rec
  | false ↦ offer_fault retries (publish_record srv rec).0 rec
]

abbrev pub publish_held : ServerImpl → Option TelemetryRecord → ServerImpl × Bool
publish_held srv none = (srv, true)
publish_held srv (some rec) =
    let offered = offer_fault srv.env.fault_retries srv rec in
    (record offered.0 { pending_fault = none }, offered.1)

unfoldable pub publish_pending_fault : ServerImpl → ServerImpl × Bool
publish_pending_fault srv = publish_held srv srv.pending_fault

-- The second record is published whatever became of the first.
unfoldable pub push_final_snapshot : ServerImpl → ServerImpl × Bool
push_final_snapshot srv =
    let settled = sample_ring_pending (settle_snapshot_counters (publish_pending_fault srv).0) in
    let records = snapshot_records settled.counters (steady_ns settled) in
    let first = publish_record (tick settled) records.0 in
    let second = publish_record first.0 records.1 in (second.0, second.1 && first.1)
