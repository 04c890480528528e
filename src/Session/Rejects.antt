-- ===== src/Session/Rejects.antt =====
-- The reject events of a session (cpp/src/session.cpp): the wire spelling and its code, and the
-- coalescing of what a peer can make it narrate.
use market_maker_proto.Prelude.{List, ◌≡◌, inl, inr, refl, ap, ◌∙◌, false, some, arith}
use market_maker_proto.Prelude.Int.{◌-ℤ◌, ◌≤ℤ◌, ◌<ℤ◌, leb_ℤ, int_laws}
use market_maker_proto.Prelude.Text.{bytes_eq}
use market_maker_proto.Types.{
  RejectCode, unsupported_version, unknown_type, malformed, msg_too_large, unknown_symbol, bad_side,
  tick_size, lot_size, qty_limit, price_range, dup_cl_ord_id, post_only_cross, max_live_orders,
  unknown_cl_ord_id, already_terminal, stale_epoch, to_string,
}
use market_maker_proto.Session.State.{Session, ServerImpl, Turn, steady_ns}
use market_maker_proto.Session.Runs.{Event, run}
use market_maker_proto.Session.Latching.{Latched, latched_after}
use market_maker_proto.Session.Latching.Life.{run-Latched}
use market_maker_proto.Session.Events.{
  reject_code_from_wire, emit_reject_event, open_window, is_latched, reject_window_ns,
}

-- Every reject code is found again by its wire spelling.
pub from_wire-to_string : (code : RejectCode) → reject_code_from_wire (to_string code) ≡ some code
unfolding reject_code_from_wire to_string bytes_eq
from_wire-to_string unsupported_version = refl
from_wire-to_string unknown_type = refl
from_wire-to_string malformed = refl
from_wire-to_string msg_too_large = refl
from_wire-to_string unknown_symbol = refl
from_wire-to_string bad_side = refl
from_wire-to_string tick_size = refl
from_wire-to_string lot_size = refl
from_wire-to_string qty_limit = refl
from_wire-to_string price_range = refl
from_wire-to_string dup_cl_ord_id = refl
from_wire-to_string post_only_cross = refl
from_wire-to_string max_live_orders = refl
from_wire-to_string unknown_cl_ord_id = refl
from_wire-to_string already_terminal = refl
from_wire-to_string stale_epoch = refl

-- The latch and the start of its window are the same.
abbrev pub SameLatch : Session → Session → Type 0
SameLatch s u = (u.reject_latch ≡ s.reject_latch) × (u.reject_latch_ns ≡ s.reject_latch_ns)

-- A peer cannot drive the telemetry: one event for each code and window. A reject of a code is
-- narrated or found narrated, and leaves its latch in a session `s`, whatever else has been done to
-- that session. Then, after any sequence of events, rejects of this and of other codes among them,
-- another reject of the code pushes no record on the ring, if it comes before the window in which the
-- first fell is over, by a clock that does not run behind the start of the latest window.
pub coalesces :
    (t : Turn) (code : RejectCode) (s : Session) (es : List (ServerImpl × Event)) (v : Turn)
    → SameLatch (emit_reject_event t code).self s
    → SameLatch (run s es) v.self
    → v.self.reject_latch_ns ≤ℤ steady_ns v.srv
    → (steady_ns v.srv -ℤ s.reject_latch_ns) <ℤ reject_window_ns
    → (emit_reject_event v code).srv.ring ≡ v.srv.ring
unfolding emit_reject_event open_window
coalesces t code s es v a b c d = elim ended [
  | inl k ↦
      let young : leb_ℤ reject_window_ns (steady_ns v.srv -ℤ v.self.reject_latch_ns) ≡ false =
        rw k.0 (ground arith) in
      rw (young, k.1) refl
  | inr k ↦ absurd (omega (int_laws, k, c, d))
]
  where
    first : Latched code s.reject_latch_ns s
    first = inl (refl, ap (λ n. is_latched n code) a.0 ∙ latched_after t code)

    after : Latched code s.reject_latch_ns (run s es)
    after = run-Latched code s.reject_latch_ns s es first

    ended : Latched code s.reject_latch_ns v.self
    ended = elim after [
      | inl k ↦ inl (b.1 ∙ k.0, ap (λ n. is_latched n code) b.0 ∙ k.1)
      | inr k ↦ inr (rw b.1 k)
    ]
