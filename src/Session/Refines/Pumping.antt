-- ===== src/Session/Refines/Pumping.antt =====
-- The steps of what leaves a session (cpp/src/session.cpp): the pump, the policy closes, the enqueues.
use market_maker_proto.Prelude.{
  ℕ, zero, suc, ◌≡◌, ◌⊎◌, refl, sym, ap, ◌∙◌, ◌+◌, Bool, true, false, not, ◌&&◌, ◌||◌, ◌==◌,
  if_cases, Bool-cases, Option-cases, inl, inr, List, [], ◌∷◌, ◌++◌, inc_u64, arith,
}
use market_maker_proto.Prelude.Int.{ℤ}
use market_maker_proto.Prelude.Text.{Bytes}
use market_maker_proto.Protocol.{OutMsg, tob, order_ack, cancel_ack, reject, fill}
use market_maker_proto.Outbox.{pop, depth, holds_tob}
use market_maker_proto.Feed.{is_empty}
use market_maker_proto.Session.State.{
  Session, Turn, async_write, steady_ns, tick, policy_error, going_away, internal_error,
}
use market_maker_proto.Session.Close.{latch_close, send_close_frame}
use market_maker_proto.Session.Reports.{
  stamp, stamp_svc, hand_off, write_message, with_outbox, pump_loop, pump, begin_close,
}
use market_maker_proto.Session.Machine.{
  View, view, writes, wire_seq, wire_epoch, here, more, trans, one, write, spend, latch,
}
use market_maker_proto.Session.Refines.Quiet.{Leads, writes-append, narrate_tob-self}
use market_maker_proto.Session.Refines.Closing.{
  or_false, latch_close_cases, latch_close-Leads, send_close_frame-Leads, framed,
}

-- What a message says of itself once it has been stamped.
pub record Stamped (seq epoch : ℕ) (m s : OutMsg) : Type 0 where
  pub seq_is : wire_seq s ≡ seq
  pub epoch_is : wire_epoch s ≡ epoch
  pub kind_is : holds_tob s ≡ holds_tob m

stamp-Stamped : (seq epoch : ℕ) (m : OutMsg) → Stamped seq epoch m (stamp seq epoch m)
unfolding stamp holds_tob
stamp-Stamped seq epoch (tob m) = record { seq_is = refl; epoch_is = refl; kind_is = refl }
stamp-Stamped seq epoch (order_ack m) = record { seq_is = refl; epoch_is = refl; kind_is = refl }
stamp-Stamped seq epoch (cancel_ack m) = record { seq_is = refl; epoch_is = refl; kind_is = refl }
stamp-Stamped seq epoch (reject m) = record { seq_is = refl; epoch_is = refl; kind_is = refl }
stamp-Stamped seq epoch (fill m) = record { seq_is = refl; epoch_is = refl; kind_is = refl }

stamp_svc-Stamped :
    (q : List ℤ) (seq epoch : ℕ) (m s : OutMsg)
    → Stamped seq epoch m s
    → Stamped seq epoch m (stamp_svc q s).1
unfolding stamp_svc holds_tob
stamp_svc-Stamped [] seq epoch m s h = h
stamp_svc-Stamped (x ∷ q) seq epoch m (tob s) h = h
stamp_svc-Stamped (x ∷ q) seq epoch m (order_ack s) h = record {
  seq_is = h.seq_is;
  epoch_is = h.epoch_is;
  kind_is = h.kind_is;
}
stamp_svc-Stamped (x ∷ q) seq epoch m (cancel_ack s) h = h
stamp_svc-Stamped (x ∷ q) seq epoch m (reject s) h = h
stamp_svc-Stamped (x ∷ q) seq epoch m (fill s) h = h

pub hand_off-view :
    (t : Turn) (m : OutMsg) (payload : Bytes)
    → view (hand_off t m payload).self
      ≡ record (view t.self) { write_inflight = true; sent = writes t.self.io ++ (m ∷ []) }
unfolding hand_off
hand_off-view t m payload =
    let n = narrate_tob-self (record t { srv = tick t.srv }) (steady_ns t.srv) m in
    let w = writes-append t.self.io (async_write m payload ∷ []) in rw (n, w) refl

-- Nothing keeps the pump from writing.
pub record Clear (s : Session) : Type 0 where
  pub idle : s.write_inflight ≡ false
  pub alive : s.torn_down ≡ false
  pub unframed : s.close_frame_sent ≡ false

pub or_true : (a b : Bool) → (a || b) ≡ true → b ≡ false → a ≡ true
or_true true b h e = refl
or_true false b h e = absurd (ground arith)

pub framed_as :
    (w : Turn) (v : View)
    → view w.self ≡ v
    → v.close_frame_sent ≡ false
    → v.torn_down ≡ false
    → v.write_inflight ≡ false
    → view (send_close_frame w).self ≡ record v { close_frame_sent = true }
framed_as w v e f d i =
    framed w (ap (λ (x : View). x.close_frame_sent) e ∙ f) (ap (λ (x : View). x.torn_down) e ∙ d)
      (ap (λ (x : View). x.write_inflight) e ∙ i)
    ∙ ap (λ (x : View). record x { close_frame_sent = true }) e

-- The sequence number that a message without an encoding spends, `u` having counted it.
spent-Leads :
    (t u : Turn)
    → Clear t.self
    → view u.self ≡ record (view t.self) { out_seq = inc_u64 t.self.out_seq }
    → Leads t (send_close_frame (latch_close u internal_error false).0)
spent-Leads t u c e =
    let counted : View = record (view t.self) { out_seq = inc_u64 t.self.out_seq } in
    let shut_view : View = record counted {
      closing = true;
      close_code = internal_error;
      epoch_retired = true;
    } in
    latch_close_cases u internal_error false (λ r. Leads t (send_close_frame r.0))
      (λ f.
        let shut : u.self.closing ≡ true =
          or_true u.self.closing u.self.torn_down f (ap (λ (v : View). v.torn_down) e ∙ c.alive) in
        rw (framed_as u counted e c.unframed c.alive c.idle)
          (one (spend c.idle c.alive (sym (ap (λ (v : View). v.closing) e) ∙ shut))))
      (λ live alive w v.
        let g : view w.self ≡ shut_view =
          v
          ∙ ap
              (λ (x : View). record x {
                closing = true;
                close_code = internal_error;
                epoch_retired = true;
              })
              e in
        rw (framed_as w shut_view g c.unframed c.alive c.idle) (
          more (latch internal_error (sym (ap (λ (x : View). x.closing) e) ∙ live) c.alive)
            (one (spend c.idle c.alive refl))))

write_message-Leads :
    (t : Turn) (m : OutMsg)
    → Clear t.self
    → (t.self.closing ≡ false) ⊎ (holds_tob m ≡ false)
    → Leads t (write_message t m)
unfolding write_message
write_message-Leads t m c h =
    let stamped = stamp_svc t.self.pending_svc (stamp t.self.out_seq t.self.epoch m) in
    let s =
      stamp_svc-Stamped t.self.pending_svc t.self.out_seq t.self.epoch m _
        (stamp-Stamped t.self.out_seq t.self.epoch m) in
    let u : Turn = record t {
      self = record t.self { out_seq = inc_u64 t.self.out_seq; pending_svc = stamped.0 };
    } in
    if_cases (Leads t) (is_empty (t.srv.codec.encode stamped.1)) _ _ (λ e. spent-Leads t u c refl)
      (λ e. rw (hand_off-view u stamped.1 (t.srv.codec.encode stamped.1)) (
        one (
          write stamped.1 c.idle c.alive c.unframed (keeps stamped.1 s.kind_is h) s.seq_is
            s.epoch_is)))
  where
    keeps :
        (s : OutMsg)
        → holds_tob s ≡ holds_tob m
        → (t.self.closing ≡ false) ⊎ (holds_tob m ≡ false)
        → (t.self.closing ≡ false) ⊎ (holds_tob s ≡ false)
    keeps s k (inl x) = inl x
    keeps s k (inr x) = inr (k ∙ x)

pump_loop-Leads : (fuel : ℕ) (t : Turn) → Clear t.self → Leads t (pump_loop fuel t)
unfolding pump_loop
pump_loop-Leads zero t c = here
pump_loop-Leads (suc fuel) t c = elim (Option-cases (pop t.self.outbox).1) [
  | inl e ↦
      let u = with_outbox t (pop t.self.outbox).0 in
      rw (pump_loop, e)
        (if_cases (Leads t) t.self.closing _ _ (λ f. send_close_frame-Leads u f) (λ f. here))
  | inr (m, e) ↦
      let u = with_outbox t (pop t.self.outbox).0 in
      let kept : Clear u.self = record { idle = c.idle; alive = c.alive; unframed = c.unframed } in
      elim (Bool-cases (t.self.closing && holds_tob m)) [
        | inl f ↦ rw (pump_loop, e, f) (pump_loop-Leads fuel u kept)
        | inr f ↦ rw (pump_loop, e, f) (write_message-Leads u m kept (one_false f))
      ]
]
  where
    one_false : {a b : Bool} → (a && b) ≡ false → (a ≡ false) ⊎ (b ≡ false)
    one_false {a} {b} f = ground (arith, f)

pub pump-Leads : (t : Turn) → Leads t (pump t)
unfolding pump
pump-Leads t =
    if_cases (Leads t) (t.self.write_inflight || (t.self.torn_down || t.self.close_frame_sent)) _ _
      (λ e. here)
      (λ e.
        let o = or_false t.self.write_inflight _ e in
        let p = or_false t.self.torn_down t.self.close_frame_sent o.1 in
        if_cases (Leads t) (t.self.closing && not t.self.drain_then_close) _ _
          (λ f. send_close_frame-Leads t (and_left t.self.closing _ f))
          (λ f.
            pump_loop-Leads (depth t.self.outbox + 1) t
              (record { idle = o.0; alive = p.0; unframed = p.1 })))
  where
    and_left : (a b : Bool) → (a && b) ≡ true → a ≡ true
    and_left a b f = ground (arith, f)

pub begin_close-Leads : (t : Turn) (code : ℕ) → Leads t (begin_close t code)
unfolding begin_close
begin_close-Leads t code =
    let drain = code == policy_error || code == going_away in
    if_cases (Leads t) (latch_close t code drain).1 _ _
      (λ e. trans (latch_close-Leads t code drain) (pump-Leads (latch_close t code drain).0))
      (λ e. here)
