-- ===== src/Session/Tests/Coalescing.antt =====
-- The reject events of a session of cpp/src/session.cpp on concrete events.
use market_maker_proto.Prelude.{◌≡◌, refl, List, [], ◌∷◌, arith}
use market_maker_proto.Prelude.Int.{int_laws, pos, ◌≤ℤ◌, ◌<ℤ◌, ◌-ℤ◌}
use market_maker_proto.Prelude.Text.{bytes}
use market_maker_proto.Types.{bad_side}
use market_maker_proto.Protocol.{Reject}
use market_maker_proto.Outbox.{holds_tob, push_report, depth, pop}
use market_maker_proto.Engine.State.{initial, entry_cap_breached}
use market_maker_proto.Session.State.{Session, ServerImpl, Turn, read_next, steady_ns}
use market_maker_proto.Session.Events.{
  mark_outbox_depth, count_reject, emit_reject_event, reject_window_ns, open_window, is_latched,
  ordinal, emit_event, sample_ring_pending,
}
use market_maker_proto.Session.Commands.{on_message, make_reject}
use market_maker_proto.Session.Reads.{on_read, read_error, on_frame}
use market_maker_proto.Session.Runs.{react, Event, read_done, run}
use market_maker_proto.Session.Reports.{
  pump, pump_loop, push_reject, enqueue_report, check_policy_closes, begin_close, write_message,
  hand_off, narrate_tob, stamp_svc, stamp,
}
use market_maker_proto.Session.Rejects.{SameLatch, coalesces}
use market_maker_proto.Session.Tests.{frame_of, server_at, opening}

abbrev bad_side_reject : Reject
bad_side_reject = make_reject (bytes "a") bad_side (bytes "side")

-- A session that has narrated a reject and queued it, and is then told of a malformed frame.
abbrev warned : Session
warned = (push_reject opening bad_side_reject bad_side).self

abbrev malformed_frame : List (ServerImpl × Event)
malformed_frame = (server_at 20, read_done (frame_of [])) ∷ []

abbrev later : Turn
later = record { srv = server_at 999999999; self = run warned malformed_frame }

warned-SameLatch : SameLatch (emit_reject_event opening bad_side).self warned
unfolding emit_reject_event push_reject is_latched enqueue_report open_window check_policy_closes
    ◌-ℤ◌ mark_outbox_depth ordinal begin_close steady_ns count_reject push_report holds_tob
    entry_cap_breached emit_event sample_ring_pending initial
warned-SameLatch = (refl, refl)

warned_window : warned.reject_latch_ns ≡ pos 0
unfolding emit_reject_event push_reject is_latched enqueue_report open_window check_policy_closes
    ◌-ℤ◌ mark_outbox_depth ordinal begin_close steady_ns count_reject push_report holds_tob
    entry_cap_breached emit_event sample_ring_pending initial
warned_window = refl

later_window : later.self.reject_latch_ns ≡ pos 0
unfolding emit_reject_event push_reject is_latched enqueue_report open_window check_policy_closes
    ◌-ℤ◌ mark_outbox_depth ordinal begin_close steady_ns count_reject push_report holds_tob
    entry_cap_breached emit_event sample_ring_pending initial run react on_read read_error on_frame
    on_message pump pump_loop read_next depth pop write_message hand_off narrate_tob stamp_svc stamp
later_window = refl

later_time : steady_ns later.srv ≡ pos 999999999
unfolding steady_ns
later_time = refl

clock_runs_on : later.self.reject_latch_ns ≤ℤ steady_ns later.srv
clock_runs_on = rw (later_window, later_time) (omega arith)

within_window : (steady_ns later.srv -ℤ warned.reject_latch_ns) <ℤ reject_window_ns
within_window = rw (warned_window, later_time) (omega int_laws)

coalesces_example : (emit_reject_event later bad_side).srv.ring ≡ later.srv.ring
coalesces_example =
    coalesces opening bad_side warned malformed_frame later warned-SameLatch (refl, refl)
      clock_runs_on within_window
