-- ===== src/Session/Reports.antt =====
-- What leaves a session (cpp/src/session.cpp): the outbox, the policy closes and the pump.
use market_maker_proto.Prelude.{
  ℕ, zero, suc, ◌+◌, true, false, not, ◌&&◌, ◌||◌, ◌==◌, if◌then◌else◌, Option, none, some, List,
  [], ◌∷◌, inc_u64,
}
use market_maker_proto.Prelude.Int.{ℤ}
use market_maker_proto.Prelude.Text.{Bytes}
use market_maker_proto.Types.{RejectCode}
use market_maker_proto.Protocol.{OutMsg, Tob, Reject, tob, order_ack, cancel_ack, reject, fill}
use market_maker_proto.Outbox.{Outbox, push_report, push_tob, pop, depth, holds_tob}
use market_maker_proto.Engine.State.{entry_count, entry_cap_breached}
use market_maker_proto.Feed.{is_empty}
use market_maker_proto.Telemetry.{hwm_close, entry_cap_close, tob_out}
use market_maker_proto.Bench.{BenchRecorder, md_written}
use market_maker_proto.Session.State.{
  Turn, ask, async_write, steady_ns, tick, policy_error, going_away, internal_error,
}
use market_maker_proto.Session.Events.{emit, mark_outbox_depth, count_reject, emit_reject_event}
use market_maker_proto.Session.Close.{latch_close, send_close_frame}

-- The envelope of a message that is written.
unfoldable pub stamp : ℕ → ℕ → OutMsg → OutMsg
stamp seq epoch (tob t) = tob (record t { seq = seq; epoch = epoch })
stamp seq epoch (order_ack a) = order_ack (record a { seq = seq; epoch = epoch })
stamp seq epoch (cancel_ack a) = cancel_ack (record a { seq = seq; epoch = epoch })
stamp seq epoch (reject r) = reject (record r { seq = seq; epoch = epoch })
stamp seq epoch (fill f) = fill (record f { seq = seq; epoch = epoch })

-- The front of the service times goes into an order's ack, and into nothing else.
unfoldable pub stamp_svc : List ℤ → OutMsg → List ℤ × OutMsg
stamp_svc (svc ∷ pending) (order_ack a) = (pending, order_ack (record a { svc_ns = svc }))
stamp_svc [] m = ([], m)
stamp_svc (svc ∷ pending) (tob t) = (svc ∷ pending, tob t)
stamp_svc (svc ∷ pending) (cancel_ack a) = (svc ∷ pending, cancel_ack a)
stamp_svc (svc ∷ pending) (reject r) = (svc ∷ pending, reject r)
stamp_svc (svc ∷ pending) (fill f) = (svc ∷ pending, fill f)

abbrev pub record_write : Option BenchRecorder → ℕ → ℤ → Option BenchRecorder
record_write none md_seq now = none
record_write (some r) md_seq now = some (md_written r md_seq now)

-- What the hand-off of a tick is narrated by.
unfoldable pub narrate_tob : Turn → ℤ → OutMsg → Turn
narrate_tob t now (tob m) =
    let u : Turn = record t {
      srv = record t.srv { recorder = record_write t.srv.recorder m.md_seq now };
    } in
    if t.srv.cfg.telemetry_verbose then emit u tob_out u.self.epoch m.md_seq else u
narrate_tob t now (order_ack a) = t
narrate_tob t now (cancel_ack a) = t
narrate_tob t now (reject r) = t
narrate_tob t now (fill f) = t

-- The hand-off of an encoded message to the stream.
unfoldable pub hand_off : Turn → OutMsg → Bytes → Turn
hand_off t m payload =
    let now = steady_ns t.srv in
    let u = narrate_tob (record t { srv = tick t.srv }) now m in
    ask (record u { self = record u.self { write_inflight = true; write_start_ns = now } })
      (async_write m payload)

-- The rest of a round of the loop on a message that is not discarded.
unfoldable pub write_message : Turn → OutMsg → Turn
write_message t msg =
    let stamped = stamp_svc t.self.pending_svc (stamp t.self.out_seq t.self.epoch msg) in
    let u : Turn = record t {
      self = record t.self { out_seq = inc_u64 t.self.out_seq; pending_svc = stamped.0 };
    } in
    let payload = t.srv.codec.encode stamped.1 in
    if is_empty payload
    then send_close_frame (latch_close u internal_error false).0
    else hand_off u stamped.1 payload

abbrev pub with_outbox : Turn → Outbox → Turn
with_outbox t o = record t { self = record t.self { outbox = o } }

-- The loop over the outbox: each round pops one message, so that its depth and one more is fuel.
unfoldable pub pump_loop : ℕ → Turn → Turn
pump_loop zero t = t
pump_loop (suc fuel) t = elim (pop t.self.outbox).1 [
  | none ↦
      if t.self.closing
      then send_close_frame (with_outbox t (pop t.self.outbox).0)
      else with_outbox t (pop t.self.outbox).0
  | some msg ↦ elim (t.self.closing && holds_tob msg) [
    | true ↦ pump_loop fuel (with_outbox t (pop t.self.outbox).0)
    | false ↦ write_message (with_outbox t (pop t.self.outbox).0) msg
  ]
]

unfoldable pub pump : Turn → Turn
pump t =
    if t.self.write_inflight || (t.self.torn_down || t.self.close_frame_sent)
    then t
    else if t.self.closing && not t.self.drain_then_close
    then send_close_frame t
    else pump_loop (depth t.self.outbox + 1) t

unfoldable pub begin_close : Turn → ℕ → Turn
begin_close t code =
    let latched = latch_close t code (code == policy_error || code == going_away) in
    if latched.1 then pump latched.0 else t

unfoldable pub check_policy_closes : Turn → Turn
check_policy_closes t =
    if t.self.closing
    then t
    else if t.self.outbox.report_hwm_breached
    then begin_close (emit t hwm_close t.self.epoch (depth t.self.outbox)) policy_error
    else if entry_cap_breached t.srv.engine t.self.epoch
    then begin_close (emit t entry_cap_close t.self.epoch (entry_count t.srv.engine t.self.epoch))
        policy_error
    else t

-- std::invalid_argument does not occur: no message that is enqueued here holds a tick.
abbrev pub pushed : Outbox → Option Outbox → Outbox
pushed o none = o
pushed o (some p) = p

unfoldable pub enqueue_report : Turn → OutMsg → Turn
enqueue_report t msg =
    check_policy_closes
      (mark_outbox_depth (with_outbox t (pushed t.self.outbox (push_report t.self.outbox msg))))

unfoldable pub enqueue_tob : Turn → Tob → Turn
enqueue_tob t m = mark_outbox_depth (with_outbox t (push_tob t.self.outbox m))

unfoldable pub push_reject : Turn → Reject → RejectCode → Turn
push_reject t r code = enqueue_report (emit_reject_event (count_reject t) code) (reject r)

unfoldable pub deliver_report : Turn → OutMsg → Turn
deliver_report t msg = if t.self.torn_down then t else pump (enqueue_report t msg)

unfoldable pub deliver_tob : Turn → Tob → Turn
deliver_tob t m = if t.self.torn_down || t.self.closing then t else pump (enqueue_tob t m)
