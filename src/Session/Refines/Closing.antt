-- ===== src/Session/Refines/Closing.antt =====
-- The steps of the close half of a session (cpp/src/session_close.cpp).
use market_maker_proto.Prelude.{
  ℕ, ◌≡◌, refl, ap, ◌∙◌, Bool, true, false, ◌||◌, if_cases, Bool-cases, inl, inr, arith,
}
use market_maker_proto.Session.State.{
  Turn, ask, arm_grace, cancel_grace, close_socket, read_some, async_close,
}
use market_maker_proto.Session.Events.{sample_send_lag}
use market_maker_proto.Session.Close.{
  retire_epoch, latch_close, send_close_frame, teardown, fold_inflight, drain_read, drain_transport,
  on_drained, on_close_sent, on_grace,
}
use market_maker_proto.Session.Machine.{View, view, here, one, latch, frame, tear}
use market_maker_proto.Session.Refines.Quiet.{Leads, ask-view}

pub retire_epoch-view :
    (t : Turn) → view (retire_epoch t).self ≡ record (view t.self) { epoch_retired = true }
unfolding retire_epoch
retire_epoch-view t = elim (Bool-cases t.self.epoch_retired) [
  | inl e ↦ rw e refl
  | inr e ↦ rw e refl
]

pub or_false : (a b : Bool) → (a || b) ≡ false → (a ≡ false) × (b ≡ false)
or_false true b h = absurd (ground arith)
or_false false b h = (refl, h)

-- Either a close is under way and nothing happens, or the close is latched.
pub latch_close_cases :
    (t : Turn) (code : ℕ) (drain : Bool) (P : Turn × Bool → Type 0)
    → ((t.self.closing || t.self.torn_down) ≡ true → P (t, false))
    → (t.self.closing ≡ false
        → t.self.torn_down ≡ false
        → (u : Turn)
        → view u.self
          ≡ record (view t.self) { closing = true; close_code = code; epoch_retired = true }
        → P (u, true))
    → P (latch_close t code drain)
unfolding latch_close
latch_close_cases t code drain P refused latched =
    if_cases P (t.self.closing || t.self.torn_down) _ _ refused (λ e.
      let o = or_false t.self.closing t.self.torn_down e in
      let u : Turn = record t {
        self = record t.self { closing = true; close_code = code; drain_then_close = drain };
      } in
      latched o.0 o.1 (retire_epoch u) (retire_epoch-view u))

pub latch_close-Leads : (t : Turn) (code : ℕ) (drain : Bool) → Leads t (latch_close t code drain).0
latch_close-Leads t code drain =
    latch_close_cases t code drain (λ r. Leads t r.0) (λ e. here)
      (λ c f u v. rw v (one (latch code c f)))

pub framed_view :
    (t : Turn)
    → view
        (ask
          (ask
            (record t { self = record t.self { close_frame_sent = true } })
            (async_close t.self.close_code))
          arm_grace).self
      ≡ record (view t.self) { close_frame_sent = true }
framed_view t =
    let u : Turn = record t { self = record t.self { close_frame_sent = true } } in
    ask-view (ask u (async_close t.self.close_code)) arm_grace refl
    ∙ ask-view u (async_close t.self.close_code) refl

pub send_close_frame-Leads : (t : Turn) → t.self.closing ≡ true → Leads t (send_close_frame t)
unfolding send_close_frame
send_close_frame-Leads t c =
    if_cases (Leads t) (t.self.close_frame_sent || (t.self.torn_down || t.self.write_inflight)) _ _
      (λ e. here)
      (λ e.
        let o = or_false t.self.close_frame_sent _ e in
        let p = or_false t.self.torn_down t.self.write_inflight o.1 in
        rw (framed_view t) (one (frame c p.0 (inl p.1))))

pub framed :
    (t : Turn)
    → t.self.close_frame_sent ≡ false
    → t.self.torn_down ≡ false
    → t.self.write_inflight ≡ false
    → view (send_close_frame t).self ≡ record (view t.self) { close_frame_sent = true }
unfolding send_close_frame
framed t f d i =
    if_cases (λ (u : Turn). view u.self ≡ record (view t.self) { close_frame_sent = true })
      (t.self.close_frame_sent || (t.self.torn_down || t.self.write_inflight)) _ _
      (λ e. absurd (ground (arith, e, f, d, i))) (λ e. framed_view t)

pub sample_send_lag-view : (t : Turn) → view (sample_send_lag t).self ≡ view t.self
unfolding sample_send_lag
sample_send_lag-view t = refl

pub torn_already : (t : Turn) (code : ℕ) → t.self.torn_down ≡ true → teardown t code ≡ t
unfolding teardown
torn_already t code e =
    if_cases (λ u. u ≡ t) t.self.torn_down _ _ (λ f. refl) (λ f. absurd (ground (arith, e, f)))

-- What a teardown leaves of a session that has had none, and that it has had one.
pub torn_view :
    (t : Turn) (code : ℕ)
    → t.self.torn_down ≡ false
    → view (teardown t code).self ≡ record (view t.self) { torn_down = true; epoch_retired = true }
unfolding teardown
torn_view t code f =
    let torn : Turn = record t { self = record t.self { torn_down = true } } in
    let after : View = record (view t.self) { torn_down = true; epoch_retired = true } in
    if_cases (λ (u : Turn). view u.self ≡ after) t.self.torn_down _ _
      (λ e. absurd (ground (arith, e, f)))
      (λ e.
        let folded : view (fold_inflight torn).self ≡ view torn.self =
          if_cases (λ (u : Turn). view u.self ≡ view torn.self) torn.self.write_inflight _ _
            (λ g. sample_send_lag-view torn) (λ g. refl) in
        ask-view (ask (retire_epoch (fold_inflight torn)) cancel_grace) close_socket refl
        ∙ (ask-view (retire_epoch (fold_inflight torn)) cancel_grace refl
            ∙ (retire_epoch-view (fold_inflight torn)
                ∙ ap (λ (v : View). record v { epoch_retired = true }) folded)))

pub torn : (t : Turn) (code : ℕ) → (teardown t code).self.torn_down ≡ true
torn t code = elim (Bool-cases t.self.torn_down) [
  | inl e ↦ ap (λ (u : Turn). u.self.torn_down) (torn_already t code e) ∙ e
  | inr e ↦ ap (λ (v : View). v.torn_down) (torn_view t code e)
]

pub teardown-Leads : (t : Turn) (code : ℕ) → Leads t (teardown t code)
teardown-Leads t code = elim (Bool-cases t.self.torn_down) [
  | inl e ↦ rw (torn_already t code e) here
  | inr e ↦ rw (torn_view t code e) (one (tear e))
]

pub on_drained-Leads : (t : Turn) (failed : Bool) → Leads t (on_drained t failed)
unfolding on_drained drain_read
on_drained-Leads t failed =
    if_cases (Leads t) failed _ _ (λ e. teardown-Leads t t.self.close_code)
      (λ e. rw (ask-view t read_some refl) here)

pub on_close_sent-Leads : (t : Turn) (failed : Bool) → Leads t (on_close_sent t failed)
unfolding on_close_sent
on_close_sent-Leads t failed =
    if_cases (Leads t) failed _ _ (λ e. teardown-Leads t t.self.close_code) (λ e. here)

pub on_grace-Leads : (t : Turn) (failed : Bool) → Leads t (on_grace t failed)
unfolding on_grace
on_grace-Leads t failed =
    if_cases (Leads t) (failed || t.self.torn_down) _ _ (λ e. here)
      (λ e. rw (ask-view t close_socket refl) here)

pub drain_transport-Leads : (t : Turn) → Leads t (drain_transport t)
unfolding drain_transport drain_read
drain_transport-Leads t =
    if_cases (Leads t) t.self.torn_down _ _ (λ e. here)
      (λ e. rw (ask-view (ask t arm_grace) read_some refl ∙ ask-view t arm_grace refl) here)
