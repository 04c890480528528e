-- ===== src/Session/Refines/Enqueues.antt =====
-- The steps of what a session queues and delivers (cpp/src/session.cpp): the policy closes, the enqueues
-- and the deliveries.
use market_maker_proto.Prelude.{◌||◌, if_cases}
use market_maker_proto.Types.{RejectCode}
use market_maker_proto.Protocol.{OutMsg, Tob, Reject, reject}
use market_maker_proto.Outbox.{depth, push_report}
use market_maker_proto.Telemetry.{hwm_close, entry_cap_close}
use market_maker_proto.Engine.State.{entry_count, entry_cap_breached}
use market_maker_proto.Session.State.{Turn, policy_error}
use market_maker_proto.Session.Events.{emit, mark_outbox_depth, count_reject, emit_reject_event}
use market_maker_proto.Session.Reports.{
  with_outbox, check_policy_closes, enqueue_report, enqueue_tob, push_reject, deliver_report,
  deliver_tob, pushed,
}
use market_maker_proto.Session.Machine.{here, trans}
use market_maker_proto.Session.Refines.Quiet.{Leads, emit_reject_event-view}
use market_maker_proto.Session.Refines.Pumping.{pump-Leads, begin_close-Leads}

check_policy_closes-Leads : (t : Turn) → Leads t (check_policy_closes t)
unfolding check_policy_closes
check_policy_closes-Leads t =
    if_cases (Leads t) t.self.closing _ _ (λ e. here)
      (λ e.
        if_cases (Leads t) t.self.outbox.report_hwm_breached _ _
          (λ f.
            begin_close-Leads (emit t hwm_close t.self.epoch (depth t.self.outbox)) policy_error)
          (λ f.
            if_cases (Leads t) (entry_cap_breached t.srv.engine t.self.epoch) _ _
              (λ g.
                begin_close-Leads
                  (emit t entry_cap_close t.self.epoch (entry_count t.srv.engine t.self.epoch))
                  policy_error)
              (λ g. here)))

pub enqueue_report-Leads : (t : Turn) (m : OutMsg) → Leads t (enqueue_report t m)
unfolding enqueue_report mark_outbox_depth
enqueue_report-Leads t m =
    check_policy_closes-Leads
      (mark_outbox_depth (with_outbox t (pushed t.self.outbox (push_report t.self.outbox m))))

pub push_reject-Leads : (t : Turn) (r : Reject) (code : RejectCode) → Leads t (push_reject t r code)
unfolding push_reject count_reject
push_reject-Leads t r code =
    trans (rw (emit_reject_event-view (count_reject t) code) here)
      (enqueue_report-Leads (emit_reject_event (count_reject t) code) (reject r))

pub deliver_report-Leads : (t : Turn) (m : OutMsg) → Leads t (deliver_report t m)
unfolding deliver_report
deliver_report-Leads t m =
    if_cases (Leads t) t.self.torn_down _ _ (λ e. here)
      (λ e. trans (enqueue_report-Leads t m) (pump-Leads (enqueue_report t m)))

pub deliver_tob-Leads : (t : Turn) (m : Tob) → Leads t (deliver_tob t m)
unfolding deliver_tob enqueue_tob mark_outbox_depth
deliver_tob-Leads t m =
    if_cases (Leads t) (t.self.torn_down || t.self.closing) _ _ (λ e. here)
      (λ e. pump-Leads (enqueue_tob t m))
