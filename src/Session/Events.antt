-- ===== src/Session/Events.antt =====
-- The telemetry of the owner's thread (ServerImpl::emit_event and its kin in cpp/src/server.cpp), the
-- watermarks that a session keeps and its coalesced reject events (cpp/src/session.cpp).
use market_maker_proto.Prelude.{
  ℕ, ◌+◌, ◌/◌, ◌%◌, ◌^◌, max, Bool, ◌==◌, if◌then◌else◌, Option, none, some, List, [], ◌∷◌, inc_u64,
}
use market_maker_proto.Prelude.Int.{ℤ, pos, ◌-ℤ◌, leb_ℤ, to_u64}
use market_maker_proto.Prelude.Text.{Bytes, bytes_eq}
use market_maker_proto.Types.{
  RejectCode, unsupported_version, unknown_type, malformed, msg_too_large, unknown_symbol, bad_side,
  tick_size, lot_size, qty_limit, price_range, dup_cl_ord_id, post_only_cross, max_live_orders,
  unknown_cl_ord_id, already_terminal, stale_epoch, to_string,
}
use market_maker_proto.Outbox.{depth}
use market_maker_proto.Ring.Spsc.{try_push, pending}
use market_maker_proto.Telemetry.{TelemetryEvent, event_record}
use market_maker_proto.Telemetry
use market_maker_proto.Session.State.{ServerImpl, Session, Turn, steady_ns, tick}

unfoldable pub sample_ring_pending : ServerImpl → ServerImpl
sample_ring_pending srv = record srv {
  counters = record srv.counters {
    telemetry_pending_hw = max srv.counters.telemetry_pending_hw (pending srv.ring);
  };
}

unfoldable pub emit_event : ServerImpl → TelemetryEvent → ℕ → ℕ → ServerImpl
emit_event srv event a0 a1 =
    sample_ring_pending (record (tick srv) {
      ring = (try_push srv.ring (event_record event (steady_ns srv) a0 a1)).0;
    })

-- emit_event, in a session's turn.
abbrev pub emit : Turn → TelemetryEvent → ℕ → ℕ → Turn
emit t event a0 a1 = record t { srv = emit_event t.srv event a0 a1 }

unfoldable pub mark_outbox_depth : Turn → Turn
mark_outbox_depth t = record t {
  srv = record t.srv {
    counters = record t.srv.counters {
      outbox_depth_hw = max t.srv.counters.outbox_depth_hw (depth t.self.outbox);
    };
  };
}

-- The fold of the lag of the write in flight into its watermark.
unfoldable pub sample_send_lag : Turn → Turn
sample_send_lag t = record t {
  srv = record (tick t.srv) {
    counters = record t.srv.counters {
      send_lag_max_ns =
          max t.srv.counters.send_lag_max_ns (to_u64 (steady_ns t.srv -ℤ t.self.write_start_ns));
    };
  };
}

unfoldable pub count_reject : Turn → Turn
count_reject t = record t {
  srv = record t.srv {
    counters = record t.srv.counters { rejects = inc_u64 t.srv.counters.rejects };
  };
}

-- The enumerators of RejectCode in their order, and the ordinal of each.
abbrev pub reject_codes : List RejectCode
reject_codes =
    unsupported_version ∷ unknown_type ∷ malformed ∷ msg_too_large ∷ unknown_symbol ∷ bad_side
    ∷ tick_size ∷ lot_size ∷ qty_limit ∷ price_range ∷ dup_cl_ord_id ∷ post_only_cross
    ∷ max_live_orders ∷ unknown_cl_ord_id ∷ already_terminal ∷ stale_epoch ∷ []

unfoldable pub ordinal : RejectCode → ℕ
ordinal unsupported_version = 0
ordinal unknown_type = 1
ordinal malformed = 2
ordinal msg_too_large = 3
ordinal unknown_symbol = 4
ordinal bad_side = 5
ordinal tick_size = 6
ordinal lot_size = 7
ordinal qty_limit = 8
ordinal price_range = 9
ordinal dup_cl_ord_id = 10
ordinal post_only_cross = 11
ordinal max_live_orders = 12
ordinal unknown_cl_ord_id = 13
ordinal already_terminal = 14
ordinal stale_epoch = 15

-- The scan of the codes for a wire spelling.
abbrev pub scan_codes : List RejectCode → Bytes → Option RejectCode
scan_codes [] wire = none
scan_codes (code ∷ codes) wire =
    let rest = scan_codes codes wire in if bytes_eq (to_string code) wire then some code else rest

unfoldable pub reject_code_from_wire : Bytes → Option RejectCode
reject_code_from_wire wire = scan_codes reject_codes wire

-- kRejectCoalesceWindow in nanoseconds.
abbrev pub reject_window_ns : ℤ
reject_window_ns = pos 1000000000

-- `(latch & bit) != 0` for the bit of a code.
unfoldable pub is_latched : ℕ → RejectCode → Bool
is_latched latch code = latch / 2 ^ ordinal code % 2 == 1

-- The latch and its start, cleared when the window is over.
unfoldable pub open_window : Session → ℤ → Session
open_window s now =
    if leb_ℤ reject_window_ns (now -ℤ s.reject_latch_ns)
    then record s { reject_latch = 0; reject_latch_ns = now }
    else s

-- The bit is clear where it is set here, so that the `|` of the source is a sum.
unfoldable pub emit_reject_event : Turn → RejectCode → Turn
emit_reject_event t code =
    let s = open_window t.self (steady_ns t.srv) in
    let u : Turn = record { srv = tick t.srv; self = s } in
    if is_latched s.reject_latch code
    then u
    else emit (record u { self = record s { reject_latch = s.reject_latch + 2 ^ ordinal code } })
        Telemetry.reject s.epoch (ordinal code)
