-- ===== src/Engine/Invariant/Runs.antt =====
-- Whole histories of an OrderEngine (cpp/src/engine.cpp): no call meets a dead iterator, the engine
-- stays well formed, and a retained order moves only along its life cycle.
use market_maker_proto.Prelude.{ℕ, ◌≡◌, refl, arith, List, [], ◌∷◌, some}
use market_maker_proto.Types.{Instrument}
use market_maker_proto.Engine.State.{OrderEngine, engine, construct, initial}
use market_maker_proto.Engine.Entry.{on_new, on_cancel}
use market_maker_proto.Engine.Teardown.{end_session}
use market_maker_proto.Engine.Calls.{
  Call, new_order, cancel_order, book_update, session_end, step, run,
}
use market_maker_proto.Engine.Invariant.{Inv, initial-Inv, on_new-Inv, on_cancel-Inv}
use market_maker_proto.Engine.Invariant.Sweep.{on_book-Inv}
use market_maker_proto.Engine.Invariant.Session.{end_session-Inv}

pub step-Inv :
    (e : OrderEngine) (c : Call) → Inv e → (e' : OrderEngine) × (step e c ≡ some e') × Inv e'
unfolding step
step-Inv e (new_order session order) v =
    ((on_new e session order).0, refl, on_new-Inv session order v)
step-Inv e (cancel_order session c) v = ((on_cancel e session c).0, refl, on_cancel-Inv session c v)
step-Inv e (book_update book) v = let (r, h, w) = on_book-Inv book v in (r.0, rw (h, step) refl, w)
step-Inv e (session_end session) v = ((end_session e session).0, refl, end_session-Inv session v)

pub run-Inv :
    (e : OrderEngine) (cs : List Call) → Inv e → (e' : OrderEngine) × (run e cs ≡ some e') × Inv e'
unfolding run
run-Inv e [] v = (e, refl, v)
run-Inv e (c ∷ cs) v =
    let (e1, h, w) = step-Inv e c v in let (e2, k, u) = run-Inv e1 cs w in (e2, rw (h, run) k, u)

construct-initial :
    (inst : Instrument) (cap : ℕ) {e : OrderEngine}
    → construct inst cap ≡ engine e
    → e ≡ initial inst cap
unfolding construct
construct-initial inst cap h = ground arith

-- From a constructed engine, any history runs to its end without meeting a dead iterator, and the
-- engine that it ends in is well formed.
pub construct-run-Inv :
    (inst : Instrument) (cap : ℕ) {e : OrderEngine} (cs : List Call)
    → construct inst cap ≡ engine e
    → (e' : OrderEngine) × (run e cs ≡ some e') × Inv e'
construct-run-Inv inst cap {e} cs h =
    run-Inv e cs (rw (construct-initial inst cap h) (initial-Inv inst cap))
