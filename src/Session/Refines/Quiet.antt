-- ===== src/Session/Refines/Quiet.antt =====
-- The calls of cpp/src/session.cpp that leave the view of the session as it is, and the requests.
use market_maker_proto.Prelude.{
  ◌≡◌, refl, ap, ◌∙◌, if_cases, Bool-cases, inl, inr, List, [], ◌∷◌, ◌++◌, append-nil,
}
use market_maker_proto.Prelude.Int.{ℤ, ◌-ℤ◌, leb_ℤ}
use market_maker_proto.Types.{RejectCode}
use market_maker_proto.Protocol.{OutMsg, tob, order_ack, cancel_ack, reject, fill}
use market_maker_proto.Session.State.{
  Session, Turn, Io, ask, steady_ns, async_read, arm_grace, cancel_grace, read_some, close_socket,
  async_write, async_close,
}
use market_maker_proto.Session.Events.{emit_reject_event, open_window, is_latched, reject_window_ns}
use market_maker_proto.Session.Reports.{narrate_tob}
use market_maker_proto.Session.Machine.{view, writes, ◌⟶*◌}

-- A handler that turns `t` into `u` takes steps of the machine.
abbrev pub Leads : Turn → Turn → Type 0
Leads t u = view t.self ⟶* view u.self

pub writes-append : (xs ys : List Io) → writes (xs ++ ys) ≡ writes xs ++ writes ys
writes-append [] ys = refl
writes-append (async_write m payload ∷ xs) ys = ap (λ ms. m ∷ ms) (writes-append xs ys)
writes-append (async_read ∷ xs) ys = writes-append xs ys
writes-append (arm_grace ∷ xs) ys = writes-append xs ys
writes-append (cancel_grace ∷ xs) ys = writes-append xs ys
writes-append (read_some ∷ xs) ys = writes-append xs ys
writes-append (close_socket ∷ xs) ys = writes-append xs ys
writes-append (async_close code ∷ xs) ys = writes-append xs ys

-- A request that is no write does not show.
pub ask-view : (t : Turn) (x : Io) → writes (x ∷ []) ≡ [] → view (ask t x).self ≡ view t.self
ask-view t x e =
    let f : writes (t.self.io ++ (x ∷ [])) ≡ writes t.self.io =
      writes-append t.self.io (x ∷ [])
      ∙ (ap (λ ms. writes t.self.io ++ ms) e ∙ append-nil (writes t.self.io)) in
    rw f refl

pub open_window-view : (s : Session) (now : ℤ) → view (open_window s now) ≡ view s
unfolding open_window
open_window-view s now = elim (Bool-cases (leb_ℤ reject_window_ns (now -ℤ s.reject_latch_ns))) [
  | inl e ↦ rw e refl
  | inr e ↦ rw e refl
]

pub emit_reject_event-view :
    (t : Turn) (code : RejectCode) → view (emit_reject_event t code).self ≡ view t.self
unfolding emit_reject_event
emit_reject_event-view t code =
    let s = open_window t.self (steady_ns t.srv) in
    let w = open_window-view t.self (steady_ns t.srv) in
    if_cases (λ (u : Turn). view u.self ≡ view t.self) (is_latched s.reject_latch code) _ _ (λ e. w)
      (λ e. w)

pub narrate_tob-self : (t : Turn) (now : ℤ) (m : OutMsg) → (narrate_tob t now m).self ≡ t.self
unfolding narrate_tob
narrate_tob-self t now (tob m) =
    if_cases (λ (u : Turn). u.self ≡ t.self) t.srv.cfg.telemetry_verbose _ _ (λ e. refl) (λ e. refl)
narrate_tob-self t now (order_ack m) = refl
narrate_tob-self t now (cancel_ack m) = refl
narrate_tob-self t now (reject m) = refl
narrate_tob-self t now (fill m) = refl
