-- ===== src/Telemetry/Tests.antt =====
-- A telemetry writer (cpp/include/mm/telemetry.hpp) with two records pending in a ring of two slots.
use market_maker_proto.Prelude.{◌≡◌, refl, ◌-◌, ◌^◌, ◌||◌, true, false, [], ◌∷◌, arith}
use market_maker_proto.Prelude.Int.{pos, negsuc}
use market_maker_proto.Prelude.Text.{bytes}
use market_maker_proto.Ring.Queue.{IsCapacity, Refines}
use market_maker_proto.Telemetry.{
  TelemetryRecord, event_record, reject, event_code, event_name, to_string,
}
use market_maker_proto.Telemetry.Writer.{TelemetryWriter, drain, emit_line, emit_lanes}
use market_maker_proto.Telemetry.Writer.Batch.{Drained, drain_accounts}

abbrev first : TelemetryRecord
first = event_record reject (pos 12) 7 2

abbrev second : TelemetryRecord
second = record { ts_ns = negsuc 0; kind = 5; code = 6; args = 1 ∷ 2 ∷ 3 ∷ 4 ∷ 5 ∷ 6 ∷ [] }

abbrev writer : TelemetryWriter
writer = record {
  ring = record { head = 2 ^ 64 - 1; tail = 1; dropped = 3; slots = second ∷ first ∷ [] };
  out = [];
  output_failed = false;
  lost_lines = 0;
}

two_slots : IsCapacity 2
two_slots = record { log = 1; rounds = 2 ^ 63; power = refl; word = refl; bound = omega arith }

waiting : Refines 2 (2 ^ 64 - 1) (first ∷ second ∷ []) writer.ring
waiting = record {
  size = refl;
  head_at = refl;
  tail_at = refl;
  room = omega arith;
  holds = (refl, (refl, tt));
}

drain_accounts_example :
    Drained 2 (first ∷ second ∷ []) writer (drain writer true)
    × ((drain writer true).output_failed ≡ (writer.output_failed || true))
drain_accounts_example =
    drain_accounts two_slots (2 ^ 64 - 1) (first ∷ second ∷ []) writer true waiting

reject_line : emit_line 3 first ≡ bytes "{\"ts\":12,\"event\":\"reject\",\"args\":[7,2,0,0,0,0]}\n"
unfolding emit_line emit_lanes event_record event_code event_name to_string
reject_line = refl

unknown_line :
    emit_line 3 second ≡ bytes "{\"ts\":-1,\"kind\":5,\"code\":6,\"args\":[1,2,3,4,5,6]}\n"
unfolding emit_line emit_lanes event_name to_string
unknown_line = refl
