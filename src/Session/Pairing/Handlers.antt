-- ===== src/Session/Pairing/Handlers.antt =====
-- The service times of a session through its commands and its completions (cpp/src/session.cpp).
use market_maker_proto.Prelude.{
  ℕ, suc, ◌≡◌, refl, sym, ap, ◌∙◌, Bool, true, false, not, ◌||◌, if_cases, Option, none, some, List,
  [], ◌∷◌, ◌++◌, length, arith, All,
}
use market_maker_proto.Prelude.Int.{ℤ}
use market_maker_proto.Types.{RejectCode}
use market_maker_proto.Protocol.{
  OutMsg, Reject, Tob, CancelOrder, tob, order_ack, cancel_ack, reject, fill,
}
use market_maker_proto.Outbox.{Outbox, depth, holds_tob, push_report, push_tob}
use market_maker_proto.Engine.State.{OrderEngine, is_live, entry_count, entry_cap_breached}
use market_maker_proto.Engine.Entry.{make_reject, on_cancel, cancel_found}
use market_maker_proto.Engine.Entry.Answers.{on_cancel_cases}
use market_maker_proto.Telemetry.{hwm_close, entry_cap_close}
use market_maker_proto.Session.State.{Session, Turn, policy_error}
use market_maker_proto.Session.Events.{
  emit, mark_outbox_depth, count_reject, emit_reject_event, reject_code_from_wire,
}
use market_maker_proto.Session.Reports.{
  check_policy_closes, enqueue_report, enqueue_tob, push_reject, pushed, deliver_report,
  deliver_tob, with_outbox,
}
use market_maker_proto.Session.Commands.{
  count_new, count_cancel, narrate_reject, narrated, report_new, report_cancel,
}
use market_maker_proto.Session.Pairing.{
  is_ack, with_ack, acks, Paired, Steady-Paired, tick_is_no_ack, pump-Paired, begin_close-Paired,
  emit_reject_event-Steady,
}

-- A service time is owed to the message, and to each of the queued acks.
abbrev Owed : OutMsg → Session → Type 0
Owed m s = with_ack (is_ack m) (acks s.outbox.reports) ≡ length s.pending_svc

acks-snoc : (ms : List OutMsg) (m : OutMsg) → acks (ms ++ (m ∷ [])) ≡ with_ack (is_ack m) (acks ms)
acks-snoc [] m = refl
acks-snoc (x ∷ ms) m =
    ap (with_ack (is_ack x)) (acks-snoc ms m) ∙ swap (is_ack x) (is_ack m) (acks ms)
  where
    swap : (a b : Bool) (n : ℕ) → with_ack a (with_ack b n) ≡ with_ack b (with_ack a n)
    swap true true n = refl
    swap true false n = refl
    swap false true n = refl
    swap false false n = refl

pushed-acks :
    (o : Outbox) (m : OutMsg)
    → acks (pushed o (push_report o m)).reports ≡ with_ack (is_ack m) (acks o.reports)
unfolding push_report
pushed-acks o m =
    if_cases
      (λ (r : Option Outbox). acks (pushed o r).reports ≡ with_ack (is_ack m) (acks o.reports))
      (holds_tob m) _ _ (λ e. rw (tick_is_no_ack m e) refl) (λ e. acks-snoc o.reports m)

check_policy_closes-Paired : (t : Turn) → Paired t.self → Paired (check_policy_closes t).self
unfolding check_policy_closes
check_policy_closes-Paired t p =
    let P = λ (w : Turn). Paired w.self in
    if_cases P t.self.closing _ _ (λ e. p)
      (λ e.
        if_cases P t.self.outbox.report_hwm_breached _ _
          (λ f.
            begin_close-Paired (emit t hwm_close t.self.epoch (depth t.self.outbox)) policy_error p)
          (λ f.
            if_cases P (entry_cap_breached t.srv.engine t.self.epoch) _ _
              (λ g.
                begin_close-Paired
                  (emit t entry_cap_close t.self.epoch (entry_count t.srv.engine t.self.epoch))
                  policy_error p)
              (λ g. p)))

enqueue_report-Paired : (t : Turn) (m : OutMsg) → Owed m t.self → Paired (enqueue_report t m).self
unfolding enqueue_report mark_outbox_depth
enqueue_report-Paired t m h =
    check_policy_closes-Paired
      (mark_outbox_depth (with_outbox t (pushed t.self.outbox (push_report t.self.outbox m))))
      (pushed-acks t.self.outbox m ∙ h)

enqueue_tob-Paired : (t : Turn) (m : Tob) → Paired t.self → Paired (enqueue_tob t m).self
unfolding enqueue_tob mark_outbox_depth push_tob
enqueue_tob-Paired t m p = p

pub push_reject-Paired :
    (t : Turn) (r : Reject) (code : RejectCode) → Paired t.self → Paired (push_reject t r code).self
unfolding push_reject count_reject
push_reject-Paired t r code p =
    let u = emit_reject_event (count_reject t) code in
    enqueue_report-Paired u (reject r)
      (Steady-Paired t.self u.self (emit_reject_event-Steady (count_reject t) code) p)

pub deliver_report-Paired :
    (t : Turn) (m : OutMsg) → is_ack m ≡ false → Paired t.self → Paired (deliver_report t m).self
unfolding deliver_report
deliver_report-Paired t m n p =
    if_cases (λ (w : Turn). Paired w.self) t.self.torn_down _ _ (λ e. p)
      (λ e. pump-Paired (enqueue_report t m) (enqueue_report-Paired t m (rw n p)))

pub deliver_tob-Paired : (t : Turn) (m : Tob) → Paired t.self → Paired (deliver_tob t m).self
unfolding deliver_tob
deliver_tob-Paired t m p =
    if_cases (λ (w : Turn). Paired w.self) (t.self.torn_down || t.self.closing) _ _ (λ e. p)
      (λ e. pump-Paired (enqueue_tob t m) (enqueue_tob-Paired t m p))

narrated-Paired : (t : Turn) (r : Reject) → Paired t.self → Paired (narrated t r).self
unfolding count_reject
narrated-Paired t r p = narrate (reject_code_from_wire r.code)
  where
    narrate : (code : Option RejectCode) → Paired (narrate_reject (count_reject t) code).self
    narrate none = p
    narrate (some code) =
        Steady-Paired t.self (emit_reject_event (count_reject t) code).self
          (emit_reject_event-Steady (count_reject t) code) p

length-snoc : (q : List ℤ) (x : ℤ) → length (q ++ (x ∷ [])) ≡ suc (length q)
length-snoc [] x = refl
length-snoc (y ∷ q) x = ap suc (length-snoc q x)

-- The service time of an order is there before its ack is queued.
count_new-Owed :
    (t : Turn) (service : ℤ) (m : OutMsg) → Paired t.self → Owed m (count_new t service m).self
unfolding count_new
count_new-Owed t service (order_ack a) p = ap suc p ∙ sym (length-snoc t.self.pending_svc service)
count_new-Owed t service (reject r) p = narrated-Paired t r p
count_new-Owed t service (tob m) p = p
count_new-Owed t service (cancel_ack m) p = p
count_new-Owed t service (fill m) p = p

pub report_new-Paired :
    (t : Turn) (service : ℤ) (batch : List OutMsg)
    → Paired t.self
    → Paired (report_new t service batch).self
unfolding report_new
report_new-Paired t service [] p = p
report_new-Paired t service (m ∷ batch) p =
    report_new-Paired (enqueue_report (count_new t service m) m) service batch
      (enqueue_report-Paired (count_new t service m) m (count_new-Owed t service m p))

count_cancel-Owed :
    (t : Turn) (m : OutMsg) → is_ack m ≡ false → Paired t.self → Owed m (count_cancel t m).self
unfolding count_cancel
count_cancel-Owed t (order_ack a) n p = absurd (ground (arith, n))
count_cancel-Owed t (reject r) n p = narrated-Paired t r p
count_cancel-Owed t (tob m) n p = p
count_cancel-Owed t (cancel_ack m) n p = p
count_cancel-Owed t (fill m) n p = p

pub report_cancel-Paired :
    (t : Turn) (batch : List OutMsg)
    → All (λ m. is_ack m ≡ false) batch
    → Paired t.self
    → Paired (report_cancel t batch).self
unfolding report_cancel
report_cancel-Paired t [] a p = p
report_cancel-Paired t (m ∷ batch) (n, a) p =
    report_cancel-Paired (enqueue_report (count_cancel t m) m) batch a
      (enqueue_report-Paired (count_cancel t m) m (count_cancel-Owed t m n p))

-- A cancel is answered without an order's ack.
pub on_cancel_acks_none :
    (e : OrderEngine) (session : ℕ) (c : CancelOrder)
    → All (λ m. is_ack m ≡ false) (on_cancel e session c).1
unfolding cancel_found make_reject
on_cancel_acks_none e session c =
    on_cancel_cases e session c (λ r. All (λ m. is_ack m ≡ false) r.1) (λ code reason. (refl, tt))
      (λ ord f l.
        if_cases (λ (r : OrderEngine × List OutMsg). All (λ m. is_ack m ≡ false) r.1)
          (not (is_live ord.st)) _ _ (λ g. (refl, tt)) (λ g. (refl, tt)))
