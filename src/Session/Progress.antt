-- ===== src/Session/Progress.antt =====
-- A session is never stranded (cpp/src/session.cpp, cpp/src/session_close.cpp): whatever the pump does, it
-- leaves something under way or nothing to do, and its loop does not run out of fuel.
use market_maker_proto.Prelude.{
  ℕ, zero, suc, ◌≡◌, ◌⊎◌, ◌<◌, refl, ap, ◌+◌, Bool, true, false, not, ◌&&◌, ◌||◌, if_cases,
  Bool-cases, Option-cases, none, some, inl, inr, arith, inc_u64,
}
use market_maker_proto.Protocol.{OutMsg}
use market_maker_proto.Outbox.{Outbox, pop, depth, holds_tob}
use market_maker_proto.Outbox.Cases.{pop_cases}
use market_maker_proto.Feed.{is_empty}
use market_maker_proto.Session.State.{Session, Turn}
use market_maker_proto.Session.Close.{send_close_frame}
use market_maker_proto.Session.Reports.{
  pump, pump_loop, hand_off, write_message, with_outbox, stamp_svc, stamp,
}
use market_maker_proto.Session.Machine.{View}
use market_maker_proto.Session.Refines.Pumping.{hand_off-view}

-- Something of the session is under way: a write, the close frame, or nothing ever again.
abbrev pub is_busy : Session → Bool
is_busy s = s.write_inflight || (s.torn_down || s.close_frame_sent)

-- Something is under way, or the session is open and its outbox is empty.
abbrev pub Progress : Session → Type 0
Progress s = (is_busy s ≡ true) ⊎ ((s.closing ≡ false) × ((pop s.outbox).1 ≡ none))

pop-depth : (o : Outbox) (m : OutMsg) → (pop o).1 ≡ some m → depth o ≡ suc (depth (pop o).0)
unfolding depth
pop-depth o m =
    pop_cases o (λ r. r.1 ≡ some m → depth o ≡ suc (depth r.0)) (λ r rs e h. rw e (omega arith))
      (λ t e f h. rw (e, f) refl) (λ e f h. absurd (ground (arith, h)))

pop_empty : (o : Outbox) → (pop o).1 ≡ none → (pop (pop o).0).1 ≡ none
pop_empty o h =
    pop_cases o (λ r. r.1 ≡ none → (pop r.0).1 ≡ none) (λ r rs e g. absurd (ground (arith, g)))
      (λ t e f g. absurd (ground (arith, g))) (λ e f g. h) h

pub busy_when : (i d f : Bool) → (i ≡ true) ⊎ ((d ≡ true) ⊎ (f ≡ true)) → (i || (d || f)) ≡ true
busy_when i d f h = ground (arith, h)

rotate : (f d i : Bool) → (f || (d || i)) ≡ true → (i || (d || f)) ≡ true
rotate f d i h = ground (arith, h)

framed_busy : (t : Turn) → is_busy (send_close_frame t).self ≡ true
unfolding send_close_frame
framed_busy t =
    let s = t.self in
    if_cases (λ (u : Turn). is_busy u.self ≡ true)
      (s.close_frame_sent || (s.torn_down || s.write_inflight)) _ _
      (λ e. rotate s.close_frame_sent s.torn_down s.write_inflight e)
      (λ e. busy_when s.write_inflight s.torn_down true (inr (inr refl)))

write_message_busy : (t : Turn) (m : OutMsg) → is_busy (write_message t m).self ≡ true
unfolding write_message
write_message_busy t m =
    let stamped = stamp_svc t.self.pending_svc (stamp t.self.out_seq t.self.epoch m) in
    let u : Turn = record t {
      self = record t.self { out_seq = inc_u64 t.self.out_seq; pending_svc = stamped.0 };
    } in
    let payload = t.srv.codec.encode stamped.1 in
    if_cases (λ (w : Turn). is_busy w.self ≡ true) (is_empty payload) _ _ (λ e. framed_busy _)
      (λ e.
        let w = (hand_off u stamped.1 payload).self in
        busy_when w.write_inflight w.torn_down w.close_frame_sent
          (inl (ap (λ (v : View). v.write_inflight) (hand_off-view u stamped.1 payload))))

-- With more fuel than the outbox is deep, the loop ends by its own test.
pump_loop-Progress :
    (fuel : ℕ) (t : Turn) → depth t.self.outbox < fuel → Progress (pump_loop fuel t).self
unfolding pump_loop
pump_loop-Progress zero t h = absurd (omega arith)
pump_loop-Progress (suc fuel) t h =
    let u = with_outbox t (pop t.self.outbox).0 in
    elim (Option-cases (pop t.self.outbox).1) [
      | inl e ↦
          rw (pump_loop, e)
            (if_cases (λ (w : Turn). Progress w.self) t.self.closing _ _ (λ f. inl (framed_busy u))
              (λ f. inr (f, pop_empty t.self.outbox e)))
      | inr (m, e) ↦ elim (Bool-cases (t.self.closing && holds_tob m)) [
        | inl f ↦
            let less : depth u.self.outbox < fuel =
              let d = pop-depth t.self.outbox m e in omega arith in
            rw (pump_loop, e, f) (pump_loop-Progress fuel u less)
        | inr f ↦ rw (pump_loop, e, f) (inl (write_message_busy u m))
      ]
    ]

-- The pump always gets somewhere: after it a write is in flight, or the close frame is out, or the
-- session is torn down, or else it is open and its outbox is empty. In particular the loop over the
-- outbox ends by its own test.
pub pump-Progress : (t : Turn) → Progress (pump t).self
unfolding pump
pump-Progress t =
    let s = t.self in
    if_cases (λ (w : Turn). Progress w.self)
      (s.write_inflight || (s.torn_down || s.close_frame_sent)) _ _ (λ e. inl e)
      (λ e.
        if_cases (λ (w : Turn). Progress w.self) (s.closing && not s.drain_then_close) _ _
          (λ f. inl (framed_busy t)) (λ f. pump_loop-Progress (depth s.outbox + 1) t (omega arith)))
