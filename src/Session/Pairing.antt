-- ===== src/Session/Pairing.antt =====
-- The service times of a session (pending_svc_ in cpp/src/session.cpp) pair up with the order acks that
-- it still has to write.
pub mod Handlers
pub mod Life
use market_maker_proto.Prelude.{
  ℕ, zero, suc, ◌≡◌, refl, sym, ap, ap₂, subst, ◌∙◌, ◌+◌, Bool, true, false, not, ◌&&◌, ◌||◌, ◌==◌,
  ltb, leb, if◌then◌else◌, if_cases, Bool-cases, Option-cases, Option, none, some, some_inj, List,
  [], ◌∷◌, ◌++◌, length, length-append, inl, inr, inc_u64, arith, All,
}
use market_maker_proto.Prelude.Int.{ℤ, ◌-ℤ◌, leb_ℤ}
use market_maker_proto.Prelude.Text.{Bytes}
use market_maker_proto.Types.{RejectCode}
use market_maker_proto.Protocol.{
  InMsg, OutMsg, Reject, Tob, new_order, cancel_order, tob, order_ack, cancel_ack, reject, fill,
}
use market_maker_proto.Outbox.{Outbox, pop, depth, holds_tob, push_report, push_tob}
use market_maker_proto.Outbox.Cases.{pop_cases}
use market_maker_proto.Feed.{is_empty}
use market_maker_proto.Session.State.{
  Session, ServerImpl, Turn, steady_ns, tick, internal_error, policy_error, going_away,
}
use market_maker_proto.Session.Events.{emit_reject_event, open_window, is_latched, reject_window_ns}
use market_maker_proto.Session.Close.{retire_epoch, latch_close, send_close_frame}
use market_maker_proto.Session.Reports.{
  stamp, stamp_svc, hand_off, write_message, with_outbox, pump_loop, pump, begin_close,
  check_policy_closes, enqueue_report, enqueue_tob, push_reject, pushed, deliver_report,
  deliver_tob,
}
use market_maker_proto.Session.Refines.Quiet.{narrate_tob-self}

abbrev pub is_ack : OutMsg → Bool
is_ack (order_ack a) = true
is_ack (tob m) = false
is_ack (cancel_ack m) = false
is_ack (reject m) = false
is_ack (fill m) = false

-- One more where the flag is set.
abbrev pub with_ack : Bool → ℕ → ℕ
with_ack true n = suc n
with_ack false n = n

abbrev pub acks : List OutMsg → ℕ
acks [] = 0
acks (m ∷ ms) = with_ack (is_ack m) (acks ms)

-- There is a service time for each queued ack, and no other.
abbrev pub Paired : Session → Type 0
Paired s = acks s.outbox.reports ≡ length s.pending_svc

-- The reports that are queued and the service times that wait are the same.
abbrev pub Steady : Session → Session → Type 0
Steady s u = (u.outbox.reports ≡ s.outbox.reports) × (u.pending_svc ≡ s.pending_svc)

pub Steady-Paired : (s u : Session) → Steady s u → Paired s → Paired u
Steady-Paired s u e p = ap acks e.0 ∙ (p ∙ sym (ap length e.1))

pub emit_reject_event-Steady :
    (t : Turn) (code : RejectCode) → Steady t.self (emit_reject_event t code).self
unfolding emit_reject_event open_window
emit_reject_event-Steady t code =
    let s = open_window t.self (steady_ns t.srv) in
    let kept : Steady t.self s =
      if_cases (Steady t.self) (leb_ℤ reject_window_ns (steady_ns t.srv -ℤ t.self.reject_latch_ns))
        _ _ (λ e. (refl, refl)) (λ e. (refl, refl)) in
    if_cases (λ (u : Turn). Steady t.self u.self) (is_latched s.reject_latch code) _ _ (λ e. kept)
      (λ e. kept)

pub latch_close-Steady :
    (t : Turn) (code : ℕ) (drain : Bool) → Steady t.self (latch_close t code drain).0.self
unfolding latch_close retire_epoch
latch_close-Steady t code drain =
    if_cases (λ (r : Turn × Bool). Steady t.self r.0.self) (t.self.closing || t.self.torn_down) _ _
      (λ e. (refl, refl))
      (λ e.
        if_cases (λ (u : Turn). Steady t.self u.self) t.self.epoch_retired _ _ (λ f. (refl, refl))
          (λ f. (refl, refl)))

send_close_frame-Steady : (t : Turn) → Steady t.self (send_close_frame t).self
unfolding send_close_frame
send_close_frame-Steady t =
    if_cases (λ (u : Turn). Steady t.self u.self)
      (t.self.close_frame_sent || (t.self.torn_down || t.self.write_inflight)) _ _
      (λ e. (refl, refl)) (λ e. (refl, refl))

hand_off-Steady :
    (t : Turn) (m : OutMsg) (payload : Bytes) → Steady t.self (hand_off t m payload).self
unfolding hand_off
hand_off-Steady t m payload =
    let n = narrate_tob-self (record t { srv = tick t.srv }) (steady_ns t.srv) m in
    (ap (λ (s : Session). s.outbox.reports) n, ap (λ (s : Session). s.pending_svc) n)

-- What a written message takes from the service times.
taken :
    (q : List ℤ) (seq epoch : ℕ) (m : OutMsg) (n : ℕ)
    → with_ack (is_ack m) n ≡ length q
    → n ≡ length (stamp_svc q (stamp seq epoch m)).0
unfolding stamp_svc stamp
taken [] seq epoch m n h = ground (arith, h)
taken (x ∷ q) seq epoch (order_ack a) n h = omega (arith, h)
taken (x ∷ q) seq epoch (tob m) n h = h
taken (x ∷ q) seq epoch (cancel_ack m) n h = h
taken (x ∷ q) seq epoch (reject m) n h = h
taken (x ∷ q) seq epoch (fill m) n h = h

write_message-Paired :
    (t : Turn) (m : OutMsg)
    → with_ack (is_ack m) (acks t.self.outbox.reports) ≡ length t.self.pending_svc
    → Paired (write_message t m).self
unfolding write_message
write_message-Paired t m h =
    let stamped = stamp_svc t.self.pending_svc (stamp t.self.out_seq t.self.epoch m) in
    let u : Turn = record t {
      self = record t.self { out_seq = inc_u64 t.self.out_seq; pending_svc = stamped.0 };
    } in
    let p : Paired u.self =
      taken t.self.pending_svc t.self.out_seq t.self.epoch m (acks t.self.outbox.reports) h in
    let payload = t.srv.codec.encode stamped.1 in
    let l = (latch_close u internal_error false).0 in
    if_cases (λ (w : Turn). Paired w.self) (is_empty payload) _ _
      (λ e.
        Steady-Paired l.self (send_close_frame l).self (send_close_frame-Steady l)
          (Steady-Paired u.self l.self (latch_close-Steady u internal_error false) p))
      (λ e.
        Steady-Paired u.self (hand_off u stamped.1 payload).self
          (hand_off-Steady u stamped.1 payload) p)

-- A message that is no ack takes no service time with it.
spare :
    (s : Session) (m : OutMsg)
    → is_ack m ≡ false
    → with_ack (is_ack m) (acks s.outbox.reports) ≡ length s.pending_svc
    → Paired s
spare s m e h = subst (λ b. with_ack b (acks s.outbox.reports) ≡ length s.pending_svc) e h

-- A pop takes one ack from the queue exactly when it answers one.
pop-acks :
    (o : Outbox) (m : OutMsg)
    → (pop o).1 ≡ some m
    → with_ack (is_ack m) (acks (pop o).0.reports) ≡ acks o.reports
pop-acks o m =
    pop_cases o (λ r. r.1 ≡ some m → with_ack (is_ack m) (acks r.0.reports) ≡ acks o.reports)
      (λ r rs e h. rw (e, ← some_inj h) refl) (λ t e f h. rw (e, ← some_inj h) refl)
      (λ e f h. absurd (ground (arith, h)))

pub tick_is_no_ack : (m : OutMsg) → holds_tob m ≡ true → is_ack m ≡ false
unfolding holds_tob
tick_is_no_ack (tob m) h = refl
tick_is_no_ack (order_ack m) h = absurd (ground (arith, h))
tick_is_no_ack (cancel_ack m) h = refl
tick_is_no_ack (reject m) h = refl
tick_is_no_ack (fill m) h = refl

pop_empty-acks : (o : Outbox) → (pop o).1 ≡ none → acks (pop o).0.reports ≡ acks o.reports
pop_empty-acks o =
    pop_cases o (λ r. r.1 ≡ none → acks r.0.reports ≡ acks o.reports)
      (λ r rs e h. absurd (ground (arith, h))) (λ t e f h. refl) (λ e f h. refl)

pump_loop-Paired : (fuel : ℕ) (t : Turn) → Paired t.self → Paired (pump_loop fuel t).self
unfolding pump_loop
pump_loop-Paired zero t p = p
pump_loop-Paired (suc fuel) t p =
    let u = with_outbox t (pop t.self.outbox).0 in
    elim (Option-cases (pop t.self.outbox).1) [
      | inl e ↦
          let q : Paired u.self = pop_empty-acks t.self.outbox e ∙ p in
          rw (pump_loop, e)
            (if_cases (λ (w : Turn). Paired w.self) t.self.closing _ _
              (λ f. Steady-Paired u.self (send_close_frame u).self (send_close_frame-Steady u) q)
              (λ f. q))
      | inr (m, e) ↦
          let k = pop-acks t.self.outbox m e ∙ p in
          elim (Bool-cases (t.self.closing && holds_tob m)) [
            | inl f ↦
                let n = tick_is_no_ack m (and_right t.self.closing (holds_tob m) f) in
                let q : Paired u.self = spare u.self m n k in
                rw (pump_loop, e, f) (pump_loop-Paired fuel u q)
            | inr f ↦ rw (pump_loop, e, f) (write_message-Paired u m k)
          ]
    ]
  where
    and_right : (a b : Bool) → (a && b) ≡ true → b ≡ true
    and_right a b f = ground (arith, f)

pub pump-Paired : (t : Turn) → Paired t.self → Paired (pump t).self
unfolding pump
pump-Paired t p =
    let s = t.self in
    if_cases (λ (w : Turn). Paired w.self) (s.write_inflight || (s.torn_down || s.close_frame_sent))
      _ _ (λ e. p)
      (λ e.
        if_cases (λ (w : Turn). Paired w.self) (s.closing && not s.drain_then_close) _ _
          (λ f. Steady-Paired s (send_close_frame t).self (send_close_frame-Steady t) p)
          (λ f. pump_loop-Paired (depth s.outbox + 1) t p))

pub begin_close-Paired : (t : Turn) (code : ℕ) → Paired t.self → Paired (begin_close t code).self
unfolding begin_close
begin_close-Paired t code p =
    let drain = code == policy_error || code == going_away in
    let l = latch_close t code drain in
    if_cases (λ (w : Turn). Paired w.self) l.1 _ _
      (λ e. pump-Paired l.0 (Steady-Paired t.self l.0.self (latch_close-Steady t code drain) p))
      (λ e. p)
