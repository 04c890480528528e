-- ===== src/Session/Safety.antt =====
-- What holds through the life of a session (cpp/src/session.cpp, cpp/src/session_close.cpp), by
-- induction on the steps of Session/Machine.
use market_maker_proto.Prelude.{◌≡◌, refl, ◌∙◌, Bool, true, false, List, arith}
use market_maker_proto.Session.State.{Session, ServerImpl}
use market_maker_proto.Session.Runs.{Event, run}
use market_maker_proto.Session.Machine.{
  View, view, ◌⟶◌, ◌⟶*◌, here, more, latch, frame, write, spend, land, tear,
}
use market_maker_proto.Session.Refines.Handlers.{run-⟶*}

-- A close that is latched keeps its code, a teardown and a close frame are for good, and so are the
-- epoch and its retirement.
pub record Kept (v w : View) : Type 0 where
  pub close_kept : v.closing ≡ true → (w.closing ≡ true) × (w.close_code ≡ v.close_code)
  pub frame_kept : v.close_frame_sent ≡ true → w.close_frame_sent ≡ true
  pub retired_kept : v.epoch_retired ≡ true → w.epoch_retired ≡ true
  pub torn_kept : v.torn_down ≡ true → w.torn_down ≡ true
  pub epoch_kept : w.epoch ≡ v.epoch

clash : {b : Bool} {A : Type 0} → b ≡ true → b ≡ false → A
clash e f = absurd (ground (arith, e, f))

Kept-refl : (v : View) → Kept v v
Kept-refl v = record {
  close_kept = λ e. (e, refl);
  frame_kept = λ e. e;
  retired_kept = λ e. e;
  torn_kept = λ e. e;
  epoch_kept = refl;
}

Kept-trans : {u v w : View} → Kept u v → Kept v w → Kept u w
Kept-trans k l = record {
  close_kept = λ e. let a = k.close_kept e in let b = l.close_kept a.0 in (b.0, b.1 ∙ a.1);
  frame_kept = λ e. l.frame_kept (k.frame_kept e);
  retired_kept = λ e. l.retired_kept (k.retired_kept e);
  torn_kept = λ e. l.torn_kept (k.torn_kept e);
  epoch_kept = l.epoch_kept ∙ k.epoch_kept;
}

step-Kept : {v w : View} → v ⟶ w → Kept v w
step-Kept (latch code c d) = record {
  close_kept = λ e. clash e c;
  frame_kept = λ e. e;
  retired_kept = λ e. refl;
  torn_kept = λ e. e;
  epoch_kept = refl;
}
step-Kept (frame c d i) = record {
  close_kept = λ e. (e, refl);
  frame_kept = λ e. refl;
  retired_kept = λ e. e;
  torn_kept = λ e. e;
  epoch_kept = refl;
}
step-Kept (write m i d f c s e) = record {
  close_kept = λ e. (e, refl);
  frame_kept = λ e. e;
  retired_kept = λ e. e;
  torn_kept = λ e. e;
  epoch_kept = refl;
}
step-Kept (spend i d c) = record {
  close_kept = λ e. (e, refl);
  frame_kept = λ e. refl;
  retired_kept = λ e. e;
  torn_kept = λ e. e;
  epoch_kept = refl;
}
step-Kept land = record {
  close_kept = λ e. (e, refl);
  frame_kept = λ e. e;
  retired_kept = λ e. e;
  torn_kept = λ e. e;
  epoch_kept = refl;
}
step-Kept (tear d) = record {
  close_kept = λ e. (e, refl);
  frame_kept = λ e. e;
  retired_kept = λ e. refl;
  torn_kept = λ e. refl;
  epoch_kept = refl;
}

pub path-Kept : {v w : View} → v ⟶* w → Kept v w
path-Kept {v} here = Kept-refl v
path-Kept (more s p) = Kept-trans (step-Kept s) (path-Kept p)

-- A session that can no longer deliver has retired its epoch, and only a closing one sends a frame.
pub record Sound (v : View) : Type 0 where
  pub closing_retired : v.closing ≡ true → v.epoch_retired ≡ true
  pub torn_retired : v.torn_down ≡ true → v.epoch_retired ≡ true
  pub framed_closing : v.close_frame_sent ≡ true → v.closing ≡ true

step-Sound : {v w : View} → v ⟶ w → Sound v → Sound w
step-Sound (latch code c d) h = record {
  closing_retired = λ e. refl;
  torn_retired = λ e. refl;
  framed_closing = λ e. refl;
}
step-Sound (frame c d i) h = record {
  closing_retired = h.closing_retired;
  torn_retired = h.torn_retired;
  framed_closing = λ e. c;
}
step-Sound (write m i d f c s e) h = record {
  closing_retired = h.closing_retired;
  torn_retired = h.torn_retired;
  framed_closing = h.framed_closing;
}
step-Sound (spend i d c) h = record {
  closing_retired = h.closing_retired;
  torn_retired = h.torn_retired;
  framed_closing = λ e. c;
}
step-Sound land h = record {
  closing_retired = h.closing_retired;
  torn_retired = h.torn_retired;
  framed_closing = h.framed_closing;
}
step-Sound (tear d) h = record {
  closing_retired = λ e. refl;
  torn_retired = λ e. refl;
  framed_closing = h.framed_closing;
}

path-Sound : {v w : View} → v ⟶* w → Sound v → Sound w
path-Sound here h = h
path-Sound (more s p) h = path-Sound p (step-Sound s h)

-- Latches are for good, and a close retires the epoch at its intent. After any sequence of events, and
-- whatever the server does in between: a session that was closing still is, with the close code that
-- it had; a close frame, a teardown and the retirement of the epoch are not taken back; and, if it was
-- so before, a closing or torn down session has retired its epoch and only a closing one has sent a
-- close frame.
pub run_latches :
    (s : Session) (es : List (ServerImpl × Event))
    → Sound (view s)
    → Kept (view s) (view (run s es)) × Sound (view (run s es))
run_latches s es h = let p = run-⟶* s es in (path-Kept p, path-Sound p h)
