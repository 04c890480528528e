-- ===== src/Session/Spares.antt =====
-- What a session does to the engine when it only talks (cpp/src/session.cpp, cpp/src/session_close.cpp):
-- nothing but retire its own epoch; and to its inbound sequence: nothing.
use market_maker_proto.Prelude.{
  ℕ, zero, suc, ◌≡◌, refl, sym, subst, ◌∙◌, ◌+◌, Bool, true, false, not, ◌&&◌, ◌||◌, ◌==◌, if_cases,
  Bool-cases, Option-cases, inl, inr, inc_u64,
}
use market_maker_proto.Prelude.Int.{ℤ, ◌-ℤ◌, leb_ℤ}
use market_maker_proto.Prelude.Text.{Bytes}
use market_maker_proto.Types.{RejectCode}
use market_maker_proto.Protocol.{OutMsg, Reject, Tob, tob, order_ack, cancel_ack, reject, fill}
use market_maker_proto.Outbox.{pop, depth, holds_tob, push_report}
use market_maker_proto.Engine.State.{OrderEngine, entry_count, entry_cap_breached}
use market_maker_proto.Engine.Teardown.{end_session}
use market_maker_proto.Feed.{is_empty}
use market_maker_proto.Telemetry.{hwm_close, entry_cap_close}
use market_maker_proto.Session.State.{
  Session, Turn, steady_ns, tick, policy_error, going_away, internal_error,
}
use market_maker_proto.Session.Events.{
  emit, emit_event, sample_ring_pending, mark_outbox_depth, count_reject, emit_reject_event,
  open_window, is_latched, reject_window_ns,
}
use market_maker_proto.Session.Close.{retire_epoch, latch_close, send_close_frame}
use market_maker_proto.Session.Reports.{
  stamp, stamp_svc, narrate_tob, hand_off, write_message, with_outbox, pump_loop, pump, begin_close,
  check_policy_closes, enqueue_report, push_reject, enqueue_tob, deliver_report, deliver_tob,
  pushed,
}

-- The engine, with the epoch retired any number of times.
pub data Retires (epoch : ℕ) : OrderEngine → OrderEngine → Type 0 where
  same : {e : OrderEngine} → Retires epoch e e
  retired : {e f : OrderEngine} → Retires epoch (end_session e epoch).0 f → Retires epoch e f

pub Retires-trans :
    {epoch : ℕ} {e f g : OrderEngine} → Retires epoch e f → Retires epoch f g → Retires epoch e g
Retires-trans same q = q
Retires-trans (retired p) q = retired (Retires-trans p q)

pub record Spares (t u : Turn) : Type 0 where
  pub seq_kept : u.self.in_seq_expected ≡ t.self.in_seq_expected
  pub epoch_kept : u.self.epoch ≡ t.self.epoch
  pub engine_spared : Retires t.self.epoch t.srv.engine u.srv.engine
  pub feed_kept : u.srv.next_md_seq ≡ t.srv.next_md_seq

pub quiet :
    (t u : Turn)
    → u.self.in_seq_expected ≡ t.self.in_seq_expected
    → u.self.epoch ≡ t.self.epoch
    → u.srv.engine ≡ t.srv.engine
    → u.srv.next_md_seq ≡ t.srv.next_md_seq
    → Spares t u
quiet t u s e g n = record {
  seq_kept = s;
  epoch_kept = e;
  engine_spared = subst (Retires t.self.epoch t.srv.engine) (sym g) same;
  feed_kept = n;
}

pub Spares-trans : (t u v : Turn) → Spares t u → Spares u v → Spares t v
Spares-trans t u v a b = record {
  seq_kept = b.seq_kept ∙ a.seq_kept;
  epoch_kept = b.epoch_kept ∙ a.epoch_kept;
  engine_spared =
      Retires-trans a.engine_spared
        (subst (λ n. Retires n u.srv.engine v.srv.engine) a.epoch_kept b.engine_spared);
  feed_kept = b.feed_kept ∙ a.feed_kept;
}

pub emit_reject_event-Spares : (t : Turn) (code : RejectCode) → Spares t (emit_reject_event t code)
unfolding emit_reject_event open_window emit_event sample_ring_pending
emit_reject_event-Spares t code =
    let s = open_window t.self (steady_ns t.srv) in
    let kept : (s.in_seq_expected ≡ t.self.in_seq_expected) × (s.epoch ≡ t.self.epoch) =
      if_cases
        (λ (x : Session). (x.in_seq_expected ≡ t.self.in_seq_expected) × (x.epoch ≡ t.self.epoch))
        (leb_ℤ reject_window_ns (steady_ns t.srv -ℤ t.self.reject_latch_ns)) _ _ (λ e. (refl, refl))
        (λ e. (refl, refl)) in
    if_cases (Spares t) (is_latched s.reject_latch code) _ _
      (λ e. quiet t _ kept.0 kept.1 refl refl) (λ e. quiet t _ kept.0 kept.1 refl refl)

retire_epoch-Spares : (t : Turn) → Spares t (retire_epoch t)
unfolding retire_epoch
retire_epoch-Spares t =
    if_cases (Spares t) t.self.epoch_retired _ _ (λ e. quiet t t refl refl refl refl)
      (λ e. record {
        seq_kept = refl;
        epoch_kept = refl;
        engine_spared = retired same;
        feed_kept = refl;
      })

latch_close-Spares : (t : Turn) (code : ℕ) (drain : Bool) → Spares t (latch_close t code drain).0
unfolding latch_close
latch_close-Spares t code drain =
    let u : Turn = record t {
      self = record t.self { closing = true; close_code = code; drain_then_close = drain };
    } in
    if_cases (λ (r : Turn × Bool). Spares t r.0) (t.self.closing || t.self.torn_down) _ _
      (λ e. quiet t t refl refl refl refl)
      (λ e. Spares-trans t u _ (quiet t u refl refl refl refl) (retire_epoch-Spares u))

send_close_frame-Spares : (t : Turn) → Spares t (send_close_frame t)
unfolding send_close_frame
send_close_frame-Spares t =
    if_cases (Spares t) (t.self.close_frame_sent || (t.self.torn_down || t.self.write_inflight)) _ _
      (λ e. quiet t t refl refl refl refl) (λ e. quiet t _ refl refl refl refl)

narrate_tob-Spares : (t : Turn) (now : ℤ) (m : OutMsg) → Spares t (narrate_tob t now m)
unfolding narrate_tob emit_event sample_ring_pending
narrate_tob-Spares t now (tob m) =
    if_cases (Spares t) t.srv.cfg.telemetry_verbose _ _ (λ e. quiet t _ refl refl refl refl)
      (λ e. quiet t _ refl refl refl refl)
narrate_tob-Spares t now (order_ack m) = quiet t t refl refl refl refl
narrate_tob-Spares t now (cancel_ack m) = quiet t t refl refl refl refl
narrate_tob-Spares t now (reject m) = quiet t t refl refl refl refl
narrate_tob-Spares t now (fill m) = quiet t t refl refl refl refl

hand_off-Spares : (t : Turn) (m : OutMsg) (payload : Bytes) → Spares t (hand_off t m payload)
unfolding hand_off
hand_off-Spares t m payload =
    let u : Turn = record t { srv = tick t.srv } in
    let n = narrate_tob-Spares u (steady_ns t.srv) m in
    record {
      seq_kept = n.seq_kept;
      epoch_kept = n.epoch_kept;
      engine_spared = n.engine_spared;
      feed_kept = n.feed_kept;
    }

write_message-Spares : (t : Turn) (m : OutMsg) → Spares t (write_message t m)
unfolding write_message
write_message-Spares t m =
    let stamped = stamp_svc t.self.pending_svc (stamp t.self.out_seq t.self.epoch m) in
    let u : Turn = record t {
      self = record t.self { out_seq = inc_u64 t.self.out_seq; pending_svc = stamped.0 };
    } in
    let l = (latch_close u internal_error false).0 in
    if_cases (Spares t) (is_empty (t.srv.codec.encode stamped.1)) _ _
      (λ e. Spares-trans t u _ (quiet t u refl refl refl refl) (
        Spares-trans u l _ (latch_close-Spares u internal_error false) (send_close_frame-Spares l)))
      (λ e.
        Spares-trans t u _ (quiet t u refl refl refl refl)
          (hand_off-Spares u stamped.1 (t.srv.codec.encode stamped.1)))

pump_loop-Spares : (fuel : ℕ) (t : Turn) → Spares t (pump_loop fuel t)
unfolding pump_loop
pump_loop-Spares zero t = quiet t t refl refl refl refl
pump_loop-Spares (suc fuel) t =
    let u = with_outbox t (pop t.self.outbox).0 in
    let popped = quiet t u refl refl refl refl in
    elim (Option-cases (pop t.self.outbox).1) [
      | inl e ↦
          rw (pump_loop, e)
            (if_cases (Spares t) t.self.closing _ _
              (λ f. Spares-trans t u _ popped (send_close_frame-Spares u)) (λ f. popped))
      | inr (m, e) ↦ elim (Bool-cases (t.self.closing && holds_tob m)) [
        | inl f ↦ rw (pump_loop, e, f) (Spares-trans t u _ popped (pump_loop-Spares fuel u))
        | inr f ↦ rw (pump_loop, e, f) (Spares-trans t u _ popped (write_message-Spares u m))
      ]
    ]

pub pump-Spares : (t : Turn) → Spares t (pump t)
unfolding pump
pump-Spares t =
    let s = t.self in
    if_cases (Spares t) (s.write_inflight || (s.torn_down || s.close_frame_sent)) _ _
      (λ e. quiet t t refl refl refl refl)
      (λ e.
        if_cases (Spares t) (s.closing && not s.drain_then_close) _ _
          (λ f. send_close_frame-Spares t) (λ f. pump_loop-Spares (depth s.outbox + 1) t))

pub begin_close-Spares : (t : Turn) (code : ℕ) → Spares t (begin_close t code)
unfolding begin_close
begin_close-Spares t code =
    let drain = code == policy_error || code == going_away in
    let l = latch_close t code drain in
    if_cases (Spares t) l.1 _ _
      (λ e. Spares-trans t l.0 _ (latch_close-Spares t code drain) (pump-Spares l.0))
      (λ e. quiet t t refl refl refl refl)

check_policy_closes-Spares : (t : Turn) → Spares t (check_policy_closes t)
unfolding check_policy_closes emit_event sample_ring_pending
check_policy_closes-Spares t =
    let s = t.self in
    let over = emit t hwm_close s.epoch (depth s.outbox) in
    let capped = emit t entry_cap_close s.epoch (entry_count t.srv.engine s.epoch) in
    if_cases (Spares t) s.closing _ _ (λ e. quiet t t refl refl refl refl)
      (λ e.
        if_cases (Spares t) s.outbox.report_hwm_breached _ _
          (λ f.
            Spares-trans t over _ (quiet t over refl refl refl refl)
              (begin_close-Spares over policy_error))
          (λ f.
            if_cases (Spares t) (entry_cap_breached t.srv.engine s.epoch) _ _
              (λ g.
                Spares-trans t capped _ (quiet t capped refl refl refl refl)
                  (begin_close-Spares capped policy_error))
              (λ g. quiet t t refl refl refl refl)))

pub enqueue_report-Spares : (t : Turn) (m : OutMsg) → Spares t (enqueue_report t m)
unfolding enqueue_report mark_outbox_depth
enqueue_report-Spares t m =
    let u =
      mark_outbox_depth (with_outbox t (pushed t.self.outbox (push_report t.self.outbox m))) in
    Spares-trans t u _ (quiet t u refl refl refl refl) (check_policy_closes-Spares u)

pub push_reject-Spares :
    (t : Turn) (r : Reject) (code : RejectCode) → Spares t (push_reject t r code)
unfolding push_reject count_reject
push_reject-Spares t r code =
    let u = count_reject t in
    let v = emit_reject_event u code in
    Spares-trans t u _ (quiet t u refl refl refl refl)
      (Spares-trans u v _ (emit_reject_event-Spares u code) (enqueue_report-Spares v (reject r)))

pub deliver_report-Spares : (t : Turn) (m : OutMsg) → Spares t (deliver_report t m)
unfolding deliver_report
deliver_report-Spares t m =
    if_cases (Spares t) t.self.torn_down _ _ (λ e. quiet t t refl refl refl refl)
      (λ e.
        Spares-trans t (enqueue_report t m) _ (enqueue_report-Spares t m)
          (pump-Spares (enqueue_report t m)))

pub deliver_tob-Spares : (t : Turn) (m : Tob) → Spares t (deliver_tob t m)
unfolding deliver_tob enqueue_tob mark_outbox_depth
deliver_tob-Spares t m =
    let u = enqueue_tob t m in
    if_cases (Spares t) (t.self.torn_down || t.self.closing) _ _
      (λ e. quiet t t refl refl refl refl)
      (λ e. Spares-trans t u _ (quiet t u refl refl refl refl) (pump-Spares u))
