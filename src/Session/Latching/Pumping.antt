-- ===== src/Session/Latching/Pumping.antt =====
-- The latch of the reject events through what leaves a session (cpp/src/session.cpp): the pump, the
-- closes, the enqueues and the deliveries.
use market_maker_proto.Prelude.{
  ℕ, zero, suc, sym, subst, ◌+◌, Bool, false, not, ◌&&◌, ◌||◌, ◌==◌, if_cases, Bool-cases,
  Option-cases, inl, inr, inc_u64,
}
use market_maker_proto.Prelude.Int.{ℤ}
use market_maker_proto.Prelude.Text.{Bytes}
use market_maker_proto.Types.{RejectCode}
use market_maker_proto.Protocol.{OutMsg, Reject, Tob, reject}
use market_maker_proto.Outbox.{pop, depth, holds_tob, push_report}
use market_maker_proto.Feed.{is_empty}
use market_maker_proto.Session.State.{
  Turn, steady_ns, tick, internal_error, policy_error, going_away,
}
use market_maker_proto.Session.Events.{emit_reject_event, emit, mark_outbox_depth, count_reject}
use market_maker_proto.Session.Close.{retire_epoch, latch_close, send_close_frame}
use market_maker_proto.Session.Reports.{
  stamp, stamp_svc, hand_off, write_message, with_outbox, pump_loop, pump, begin_close,
  check_policy_closes, enqueue_report, enqueue_tob, push_reject, pushed, deliver_report,
  deliver_tob,
}
use market_maker_proto.Session.Refines.Quiet.{narrate_tob-self}
use market_maker_proto.Engine.State.{entry_count, entry_cap_breached}
use market_maker_proto.Telemetry.{hwm_close, entry_cap_close}
use market_maker_proto.Session.Latching.{Latched, emit_reject_event-Latched}

module _ (code : RejectCode) (start : ℤ) where
  pub latch_close-Latched :
      (t : Turn) (c : ℕ) (drain : Bool)
      → Latched code start t.self
      → Latched code start (latch_close t c drain).0.self
  unfolding latch_close retire_epoch
  latch_close-Latched t c drain h =
      if_cases (λ (r : Turn × Bool). Latched code start r.0.self)
        (t.self.closing || t.self.torn_down) _ _ (λ e. h)
        (λ e.
          if_cases (λ (u : Turn). Latched code start u.self) t.self.epoch_retired _ _ (λ f. h)
            (λ f. h))

  send_close_frame-Latched :
      (t : Turn) → Latched code start t.self → Latched code start (send_close_frame t).self
  unfolding send_close_frame
  send_close_frame-Latched t h =
      if_cases (λ (u : Turn). Latched code start u.self)
        (t.self.close_frame_sent || (t.self.torn_down || t.self.write_inflight)) _ _ (λ e. h)
        (λ e. h)

  hand_off-Latched :
      (t : Turn) (m : OutMsg) (payload : Bytes)
      → Latched code start t.self
      → Latched code start (hand_off t m payload).self
  unfolding hand_off
  hand_off-Latched t m payload h =
      subst (Latched code start)
        (sym (narrate_tob-self (record t { srv = tick t.srv }) (steady_ns t.srv) m)) h

  write_message-Latched :
      (t : Turn) (m : OutMsg)
      → Latched code start t.self
      → Latched code start (write_message t m).self
  unfolding write_message
  write_message-Latched t m h =
      let stamped = stamp_svc t.self.pending_svc (stamp t.self.out_seq t.self.epoch m) in
      let u : Turn = record t {
        self = record t.self { out_seq = inc_u64 t.self.out_seq; pending_svc = stamped.0 };
      } in
      let payload = t.srv.codec.encode stamped.1 in
      let l = (latch_close u internal_error false).0 in
      if_cases (λ (w : Turn). Latched code start w.self) (is_empty payload) _ _
        (λ e. send_close_frame-Latched l (latch_close-Latched u internal_error false h))
        (λ e. hand_off-Latched u stamped.1 payload h)

  pump_loop-Latched :
      (fuel : ℕ) (t : Turn) → Latched code start t.self → Latched code start (pump_loop fuel t).self
  unfolding pump_loop
  pump_loop-Latched zero t h = h
  pump_loop-Latched (suc fuel) t h =
      let u = with_outbox t (pop t.self.outbox).0 in
      elim (Option-cases (pop t.self.outbox).1) [
        | inl e ↦
            rw (pump_loop, e)
              (if_cases (λ (w : Turn). Latched code start w.self) t.self.closing _ _
                (λ f. send_close_frame-Latched u h) (λ f. h))
        | inr (m, e) ↦ elim (Bool-cases (t.self.closing && holds_tob m)) [
          | inl f ↦ rw (pump_loop, e, f) (pump_loop-Latched fuel u h)
          | inr f ↦ rw (pump_loop, e, f) (write_message-Latched u m h)
        ]
      ]

  pub pump-Latched : (t : Turn) → Latched code start t.self → Latched code start (pump t).self
  unfolding pump
  pump-Latched t h =
      let s = t.self in
      if_cases (λ (w : Turn). Latched code start w.self)
        (s.write_inflight || (s.torn_down || s.close_frame_sent)) _ _ (λ e. h)
        (λ e.
          if_cases (λ (w : Turn). Latched code start w.self) (s.closing && not s.drain_then_close) _
            _ (λ f. send_close_frame-Latched t h) (λ f. pump_loop-Latched (depth s.outbox + 1) t h))

  pub begin_close-Latched :
      (t : Turn) (c : ℕ) → Latched code start t.self → Latched code start (begin_close t c).self
  unfolding begin_close
  begin_close-Latched t c h =
      let drain = c == policy_error || c == going_away in
      let l = latch_close t c drain in
      if_cases (λ (w : Turn). Latched code start w.self) l.1 _ _
        (λ e. pump-Latched l.0 (latch_close-Latched t c drain h)) (λ e. h)

  check_policy_closes-Latched :
      (t : Turn) → Latched code start t.self → Latched code start (check_policy_closes t).self
  unfolding check_policy_closes
  check_policy_closes-Latched t h =
      let P = λ (w : Turn). Latched code start w.self in
      if_cases P t.self.closing _ _ (λ e. h)
        (λ e.
          if_cases P t.self.outbox.report_hwm_breached _ _
            (λ f.
              begin_close-Latched (emit t hwm_close t.self.epoch (depth t.self.outbox)) policy_error
                h)
            (λ f.
              if_cases P (entry_cap_breached t.srv.engine t.self.epoch) _ _
                (λ g.
                  begin_close-Latched
                    (emit t entry_cap_close t.self.epoch (entry_count t.srv.engine t.self.epoch))
                    policy_error h)
                (λ g. h)))

  pub enqueue_report-Latched :
      (t : Turn) (m : OutMsg)
      → Latched code start t.self
      → Latched code start (enqueue_report t m).self
  unfolding enqueue_report mark_outbox_depth
  enqueue_report-Latched t m h =
      check_policy_closes-Latched
        (mark_outbox_depth (with_outbox t (pushed t.self.outbox (push_report t.self.outbox m)))) h

  pub push_reject-Latched :
      (t : Turn) (r : Reject) (c : RejectCode)
      → Latched code start t.self
      → Latched code start (push_reject t r c).self
  unfolding push_reject count_reject
  push_reject-Latched t r c h =
      let u = emit_reject_event (count_reject t) c in
      enqueue_report-Latched u (reject r)
        (emit_reject_event-Latched code start (count_reject t) c h)

  pub deliver_report-Latched :
      (t : Turn) (m : OutMsg)
      → Latched code start t.self
      → Latched code start (deliver_report t m).self
  unfolding deliver_report
  deliver_report-Latched t m h =
      if_cases (λ (w : Turn). Latched code start w.self) t.self.torn_down _ _ (λ e. h)
        (λ e. pump-Latched (enqueue_report t m) (enqueue_report-Latched t m h))

  pub deliver_tob-Latched :
      (t : Turn) (m : Tob) → Latched code start t.self → Latched code start (deliver_tob t m).self
  unfolding deliver_tob enqueue_tob mark_outbox_depth
  deliver_tob-Latched t m h =
      if_cases (λ (w : Turn). Latched code start w.self) (t.self.torn_down || t.self.closing) _ _
        (λ e. h) (λ e. pump-Latched (enqueue_tob t m) h)
