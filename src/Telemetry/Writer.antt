-- ===== src/Telemetry/Writer.antt =====
-- TelemetryWriter (cpp/include/mm/telemetry.hpp): the lines it writes and the batches it drains. The
-- stream is the lines written to it; whether it has failed, which only the system knows, is an
-- argument of a drain. The owner's pushes during a batch land after its cutoff.
pub mod Batch
use market_maker_proto.Prelude.{
  ℕ, zero, suc, ◌+◌, Bool, true, false, not, ◌&&◌, ◌||◌, ◌==◌, if◌then◌else◌, Option, none, some,
  List, [], ◌∷◌, ◌++◌, inc_u64,
}
use market_maker_proto.Prelude.Int.{ℤ, pos, negsuc, leb_ℤ}
use market_maker_proto.Prelude.Text.{Bytes, bytes}
use market_maker_proto.Feed.{is_empty}
use market_maker_proto.Frame.Scanner.{decimal}
use market_maker_proto.Ring.Spsc.{SpscTelemetryRing, try_pop, pending, capacity}
use market_maker_proto.Telemetry.{
  TelemetryRecord, to_string, kind_counters, kind_event, totals, watermarks,
}
use market_maker_proto.Telemetry.Snapshot.{lane}

pub record TelemetryWriter : Type 0 where
  pub ring : SpscTelemetryRing TelemetryRecord
  pub out : List Bytes
  pub output_failed : Bool
  pub lost_lines : ℕ

-- `out_ << n` for a std::int64_t.
abbrev pub signed : ℤ → Bytes
signed (pos n) = decimal n
signed (negsuc n) = bytes "-" ++ decimal (suc n)

-- `none` is std::invalid_argument.
unfoldable pub checked_poll : ℤ → Option ℤ
checked_poll poll_ms = if leb_ℤ poll_ms (pos 0) then none else some poll_ms

abbrev pub lanes_text : List ℕ → Bytes
lanes_text [] = []
lanes_text (a ∷ []) = decimal a
lanes_text (a ∷ b ∷ rest) = decimal a ++ bytes "," ++ lanes_text (b ∷ rest)

unfoldable pub emit_lanes : TelemetryRecord → Bytes
emit_lanes rec = bytes ",\"args\":[" ++ lanes_text rec.args ++ bytes "]"

-- A key and its number, after a comma.
abbrev pub key_value : Bytes → ℕ → Bytes
key_value key n = bytes ",\"" ++ key ++ bytes "\":" ++ decimal n

unfoldable pub emit_line : ℕ → TelemetryRecord → Bytes
emit_line dropped rec =
    let name = to_string rec.code in
    bytes "{\"ts\":"
    ++ signed rec.ts_ns
    ++ (if rec.kind == kind_counters && rec.code == totals
        then key_value (bytes "orders") (lane rec 0)
          ++ key_value (bytes "fills") (lane rec 1)
          ++ key_value (bytes "rejects") (lane rec 2)
          ++ key_value (bytes "cancels") (lane rec 3)
          ++ key_value (bytes "conflated") (lane rec 4)
          ++ key_value (bytes "sessions") (lane rec 5)
          ++ key_value (bytes "telemetry_dropped") dropped
        else if rec.kind == kind_counters && rec.code == watermarks
        then key_value (bytes "outbox_depth_hw") (lane rec 0)
          ++ key_value (bytes "send_lag_max_ns") (lane rec 1)
          ++ key_value (bytes "stale_books_ignored") (lane rec 2)
          ++ key_value (bytes "telemetry_pending_hw") (lane rec 3)
          ++ key_value (bytes "live_orders") (lane rec 4)
        else if rec.kind == kind_event && not (is_empty name)
        then bytes ",\"event\":\"" ++ name ++ bytes "\"" ++ emit_lanes rec
        else key_value (bytes "kind") rec.kind
          ++ key_value (bytes "code") rec.code
          ++ emit_lanes rec)
    ++ bytes "}\n"

unfoldable pub emit_open_line : SpscTelemetryRing TelemetryRecord → ℤ → ℤ → ℤ → Bytes
emit_open_line ring ts_ns wall_ns poll_ms =
    bytes "{\"ts\":"
    ++ signed ts_ns
    ++ bytes ",\"wall_ns\":"
    ++ signed wall_ns
    ++ key_value (bytes "ring_capacity") (capacity ring)
    ++ bytes ",\"poll_ms\":"
    ++ signed poll_ms
    ++ key_value (bytes "dropped_at_open") ring.dropped
    ++ bytes "}\n"

unfoldable pub emit_close_line : TelemetryWriter → ℤ → Bytes
emit_close_line w ts_ns =
    bytes "{\"ts\":"
    ++ signed ts_ns
    ++ key_value (bytes "pending_left") (pending w.ring)
    ++ key_value (bytes "dropped") w.ring.dropped
    ++ bytes ",\"stream_ok\":"
    ++ (if w.output_failed then bytes "false" else bytes "true")
    ++ bytes "}\n"

-- One round of the loop on a popped record.
unfoldable pub take_record : TelemetryWriter → TelemetryRecord → TelemetryWriter
take_record w rec =
    if w.output_failed
    then record w { lost_lines = inc_u64 w.lost_lines }
    else record w { out = w.out ++ (emit_line w.ring.dropped rec ∷ []) }

-- The loop, on its budget.
unfoldable pub drain_loop : ℕ → TelemetryWriter → TelemetryWriter
drain_loop zero w = w
drain_loop (suc budget) w = elim (try_pop w.ring).1 [
  | none ↦ record w { ring = (try_pop w.ring).0 }
  | some rec ↦ drain_loop budget (take_record (record w { ring = (try_pop w.ring).0 }) rec)
]

-- `fail` is out_.fail() after the flush.
unfoldable pub drain : TelemetryWriter → Bool → TelemetryWriter
drain w fail =
    let drained = drain_loop (pending w.ring) w in
    if not drained.output_failed && fail then record drained { output_failed = true } else drained

-- The constructor: the open marker, and the latch on its flush. `none` is a throw.
unfoldable pub telemetry_writer :
    SpscTelemetryRing TelemetryRecord → Bool → ℤ → ℤ → ℤ → Bool → Option TelemetryWriter
telemetry_writer ring opens poll_ms ts_ns wall_ns fail = elim (checked_poll poll_ms) [
  | none ↦ none
  | some poll ↦
      if not opens
      then none
      else some (record {
        ring = ring;
        out = emit_open_line ring ts_ns wall_ns poll ∷ [];
        output_failed = fail;
        lost_lines = 0;
      })
]

-- The end of the writer's thread: the last batch and the close marker; `late` is out_.fail() after it.
unfoldable pub close_down : TelemetryWriter → Bool → ℤ → Bool → TelemetryWriter
close_down w fail ts_ns late =
    let drained = drain w fail in
    record drained {
      out = drained.out ++ (emit_close_line drained ts_ns ∷ []);
      output_failed = drained.output_failed || late;
    }
