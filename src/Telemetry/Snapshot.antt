-- ===== src/Telemetry/Snapshot.antt =====
-- What the snapshot records and the event names of cpp/include/mm/telemetry.hpp and
-- cpp/include/mm/telemetry_ring.hpp carry.
use market_maker_proto.Prelude.{
  ℕ, ◌≡◌, refl, ◌==◌, ◌&&◌, if◌then◌else◌, Option, none, some, List, [], ◌∷◌, get_elem?,
}
use market_maker_proto.Prelude.Int.{ℤ}
use market_maker_proto.Prelude.Text.{Bytes, bytes_eq}
use market_maker_proto.Telemetry.{
  TelemetryRecord, TelemetryEvent, Counters, snapshot_records, event_record, event_code, event_name,
  enumerators, to_string, kind_counters, totals, watermarks, session_open, session_close, hwm_close,
  reject, cmd_in, tob_out, admission_refused, entry_cap_close, upgrade_refused, engine_fault,
}

-- A lane of a record, 0 out of range.
abbrev pub lane : TelemetryRecord → ℕ → ℕ
lane r i = elim (get_elem? r.args i) [ none ↦ 0 | some a ↦ a ]

-- The reader of the two records, by the keys that emit_line writes for each lane.
unfoldable pub read_counters : TelemetryRecord → TelemetryRecord → Option Counters
read_counters t w =
    if (t.kind == kind_counters && t.code == totals)
      && (w.kind == kind_counters && w.code == watermarks)
    then some (record {
      orders = lane t 0;
      fills = lane t 1;
      rejects = lane t 2;
      cancels = lane t 3;
      conflated = lane t 4;
      sessions = lane t 5;
      outbox_depth_hw = lane w 0;
      send_lag_max_ns = lane w 1;
      stale_books_ignored = lane w 2;
      telemetry_pending_hw = lane w 3;
      live_orders = lane w 4;
    })
    else none

-- Reading the two records of a snapshot gives back every counter, whatever their values: no counter
-- is left out, and none shares a lane with another.
pub read-snapshot_records :
    (c : Counters) (ts_ns : ℤ)
    → read_counters (snapshot_records c ts_ns).0 (snapshot_records c ts_ns).1 ≡ some c
unfolding read_counters snapshot_records
read-snapshot_records c ts_ns = refl

-- The first event of the given name.
abbrev pub find_event : List TelemetryEvent → Bytes → Option TelemetryEvent
find_event [] name = none
find_event (e ∷ es) name = if bytes_eq (event_name e) name then some e else find_event es name

-- The wire name of an event's record, read back among the enumerators' names, is that event: the
-- code of the record names it, and no two events share a name.
pub find-to_string :
    (e : TelemetryEvent) (ts_ns : ℤ) (a0 a1 : ℕ)
    → find_event enumerators (to_string (event_record e ts_ns a0 a1).code) ≡ some e
unfolding to_string event_record event_code event_name bytes_eq
find-to_string session_open ts_ns a0 a1 = refl
find-to_string session_close ts_ns a0 a1 = refl
find-to_string hwm_close ts_ns a0 a1 = refl
find-to_string reject ts_ns a0 a1 = refl
find-to_string cmd_in ts_ns a0 a1 = refl
find-to_string tob_out ts_ns a0 a1 = refl
find-to_string admission_refused ts_ns a0 a1 = refl
find-to_string entry_cap_close ts_ns a0 a1 = refl
find-to_string upgrade_refused ts_ns a0 a1 = refl
find-to_string engine_fault ts_ns a0 a1 = refl
