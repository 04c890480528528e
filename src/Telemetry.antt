-- ===== src/Telemetry.antt =====
-- Telemetry records, counters and lines (cpp/include/mm/telemetry_ring.hpp,
-- cpp/include/mm/telemetry.hpp). A record's six lanes are a list of six numbers, an enumerator its
-- code by `event_code`; the output stream is the bytes written to it.
pub mod Snapshot
pub mod Writer
mod Tests
use market_maker_proto.Prelude.{ℕ, Option, none, some, List, [], ◌∷◌, get_elem?}
use market_maker_proto.Prelude.Int.{ℤ}
use market_maker_proto.Prelude.Text.{Bytes, bytes}

pub data TelemetryEvent : Type 0 where
  session_open session_close hwm_close reject cmd_in tob_out : TelemetryEvent
  admission_refused entry_cap_close upgrade_refused engine_fault : TelemetryEvent

-- The enumerator's value.
unfoldable pub event_code : TelemetryEvent → ℕ
event_code session_open = 0
event_code session_close = 1
event_code hwm_close = 2
event_code reject = 3
event_code cmd_in = 4
event_code tob_out = 5
event_code admission_refused = 6
event_code entry_cap_close = 7
event_code upgrade_refused = 8
event_code engine_fault = 9

unfoldable pub event_name : TelemetryEvent → Bytes
event_name session_open = bytes "session_open"
event_name session_close = bytes "session_close"
event_name hwm_close = bytes "hwm_close"
event_name reject = bytes "reject"
event_name cmd_in = bytes "cmd_in"
event_name tob_out = bytes "tob_out"
event_name admission_refused = bytes "admission_refused"
event_name entry_cap_close = bytes "entry_cap_close"
event_name upgrade_refused = bytes "upgrade_refused"
event_name engine_fault = bytes "engine_fault"

abbrev pub enumerators : List TelemetryEvent
enumerators =
    session_open ∷ session_close ∷ hwm_close ∷ reject ∷ cmd_in ∷ tob_out ∷ admission_refused
    ∷ entry_cap_close ∷ upgrade_refused ∷ engine_fault ∷ []

-- to_string of a code cast to TelemetryEvent: empty past the enumerators.
abbrev pub name_of : Option TelemetryEvent → Bytes
name_of none = []
name_of (some event) = event_name event

unfoldable pub to_string : ℕ → Bytes
to_string code = name_of (get_elem? enumerators code)

pub record TelemetryRecord : Type 0 where
  pub ts_ns : ℤ
  pub kind : ℕ
  pub code : ℕ
  pub args : List ℕ

-- TelemetryKind and CountersPart, by their values.
abbrev pub kind_event : ℕ
kind_event = 1

abbrev pub kind_counters : ℕ
kind_counters = 0

abbrev pub totals : ℕ
totals = 0

abbrev pub watermarks : ℕ
watermarks = 1

pub record Counters : Type 0 where
  pub orders : ℕ
  pub fills : ℕ
  pub rejects : ℕ
  pub cancels : ℕ
  pub conflated : ℕ
  pub outbox_depth_hw : ℕ
  pub send_lag_max_ns : ℕ
  pub sessions : ℕ
  pub telemetry_pending_hw : ℕ
  pub live_orders : ℕ
  pub stale_books_ignored : ℕ

unfoldable pub snapshot_records : Counters → ℤ → TelemetryRecord × TelemetryRecord
snapshot_records c ts_ns = (
  record {
    ts_ns = ts_ns;
    kind = kind_counters;
    code = totals;
    args = c.orders ∷ c.fills ∷ c.rejects ∷ c.cancels ∷ c.conflated ∷ c.sessions ∷ [];
  },
  record {
    ts_ns = ts_ns;
    kind = kind_counters;
    code = watermarks;
    args =
        c.outbox_depth_hw ∷ c.send_lag_max_ns ∷ c.stale_books_ignored ∷ c.telemetry_pending_hw
        ∷ c.live_orders ∷ 0 ∷ [];
  },
)

unfoldable pub event_record : TelemetryEvent → ℤ → ℕ → ℕ → TelemetryRecord
event_record event ts_ns a0 a1 = record {
  ts_ns = ts_ns;
  kind = kind_event;
  code = event_code event;
  args = a0 ∷ a1 ∷ 0 ∷ 0 ∷ 0 ∷ 0 ∷ [];
}
