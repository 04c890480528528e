-- ===== src/Engine/Invariant/LifeCycle.antt =====
-- The life cycle of a retained order over any history of an OrderEngine (cpp/src/engine.cpp): its
-- identity is fixed, its remainder never grows, and a terminal state is never left.
use market_maker_proto.Prelude.{
  ℕ, ◌≡◌, ◌≢◌, refl, ◌∙◌, true, not, arith, ◌==◌, Bool-cases, inl, inr, List, [], ◌∷◌, none, some,
  subst, All, some_inj,
}
use market_maker_proto.Types.{Side, bid, ask}
use market_maker_proto.Protocol.{NewOrder, CancelOrder}
use market_maker_proto.Engine.Keys.{OrderKey, key_eq, key_eq→eq}
use market_maker_proto.Engine.Containers.{find, update_at, idx_erase}
use market_maker_proto.Engine.State.{
  Order, OrderEngine, Book, is_live, Routed, with_live_index, live_index,
}
use market_maker_proto.Engine.Counts.{All-find}
use market_maker_proto.Engine.Lookup.{
  find-map_vals, find-update_at_ne, find-update_at_self, find-filter,
}
use market_maker_proto.Engine.Entry.{
  tombstone, cancel, cancel_found, reject_new, accept, accepted_order, on_new, on_cancel,
}
use market_maker_proto.Engine.Entry.Answers.{Accepts, on_new_cases, on_cancel_cases}
use market_maker_proto.Engine.Sweep.{on_book}
use market_maker_proto.Engine.Sweep.Reference.{fill_order, fill_both, reference_reports}
use market_maker_proto.Engine.Sweep.Swept.{swept, swept-orders}
use market_maker_proto.Engine.Teardown.{end_session}
use market_maker_proto.Engine.Calls.{
  Call, new_order, cancel_order, book_update, session_end, step, run,
}
use market_maker_proto.Engine.Invariant.{Inv, IsSound}
use market_maker_proto.Engine.Invariant.Sweep.{is_stale, on_book-swept, on_book-Inv, fill-IsSound}
use market_maker_proto.Engine.Invariant.Session.{end_session_lem}
use market_maker_proto.Engine.Invariant.Runs.{step-Inv}
use market_maker_proto.Engine.Invariant.Evolution.{
  Evolves-refl, Evolves-trans, fill-Evolves, emplace-Kept, Kept,
}

module _ {e : OrderEngine} (v : Inv e) (k : OrderKey) (o : Order)
    (f : find k e.orders ≡ some o) where
  on_new-Kept : (session : ℕ) (order : NewOrder) → Kept k o (on_new e session order).0.orders
  on_new-Kept session order =
      on_new_cases e session order (λ r. Kept k o r.0.orders) v.sorted (λ p. (o, f, Evolves-refl o))
        (λ g code reason.
          unfold reject_new in emplace-Kept k (session, order.cl_id) o tombstone e.orders f g)
        accepted
    where
      accepted :
          find (session, order.cl_id) e.orders ≡ none
          → (side : Side) → Accepts e session order side
          → Kept k o (accept e session order side).0.orders
      accepted g bid a =
          unfold accept in
          emplace-Kept k (session, order.cl_id) o (accepted_order e bid order) e.orders f g
      accepted g ask a =
          unfold accept in
          emplace-Kept k (session, order.cl_id) o (accepted_order e ask order) e.orders f g

  on_cancel-Kept : (session : ℕ) (c : CancelOrder) → Kept k o (on_cancel e session c).0.orders
  unfolding cancel_found
  on_cancel-Kept session c =
      on_cancel_cases e session c (λ r. Kept k o r.0.orders) (λ code reason. (o, f, Evolves-refl o))
        found
    where
      written :
          (ord : Order)
          → find (session, c.cl_id) e.orders ≡ some ord
          → is_live ord.st ≡ true
          → Kept k o (update_at (session, c.cl_id) cancel e.orders)
      written ord g l = elim (Bool-cases (key_eq (session, c.cl_id) k)) [
        | inl hit ↦
            let at : find k e.orders ≡ some ord = rw (← key_eq→eq (session, c.cl_id) k hit) g in
            let same : o ≡ ord = ground arith in
            (
              cancel o,
              find-update_at_self' hit,
              record {
                eng_id = refl;
                side = refl;
                px = refl;
                leaves = omega arith;
                absorbed = λ d. absurd (cc);
              },
            )
        | inr miss ↦
            (o, find-update_at_ne k (session, c.cl_id) cancel e.orders miss ∙ f, Evolves-refl o)
      ]
        where
          find-update_at_self' :
              key_eq (session, c.cl_id) k ≡ true
              → find k (update_at (session, c.cl_id) cancel e.orders) ≡ some (cancel o)
          find-update_at_self' hit =
              rw (key_eq→eq (session, c.cl_id) k hit) (find-update_at_self k cancel o e.orders f)

      found :
          (ord : Order)
          → find (session, c.cl_id) e.orders ≡ some ord
          → is_live ord.st ≡ true
          → Kept k o (cancel_found e session c ord).0.orders
      found ord g l = rw (l, cancel_found) (by_side ord.side)
        where
          by_side :
              (side : Side)
              → Kept k o
                  (with_live_index side
                    (idx_erase (session, c.cl_id) (live_index side e))
                    (record e { orders = update_at (session, c.cl_id) cancel e.orders })).orders
          by_side bid = written ord g l
          by_side ask = written ord g l

  on_book-Kept :
      (book : Book) {r : OrderEngine × List Routed} → on_book e book ≡ some r → Kept k o r.0.orders
  unfolding on_book
  on_book-Kept book {r} h = elim (Bool-cases (is_stale e book)) [
    | inl stale ↦ let same : r.0.orders ≡ e.orders = ground arith in rw same (o, f, Evolves-refl o)
    | inr fresh ↦
        let same : r ≡ (swept e book, reference_reports e book) =
          ground (arith, on_book-swept e book v fresh) in
        rw (same, swept-orders e book v.sorted, find-map_vals k (fill_both e.inst book) e.orders, f)
          (
            fill_both e.inst book o,
            refl,
            Evolves-trans o (fill_order e.inst bid book o) (fill_both e.inst book o)
                (fill-Evolves e.inst bid book k o s)
                (fill-Evolves e.inst ask book k (fill_order e.inst bid book o)
                  (fill-IsSound e.inst bid book k o s)),
          )
  ]
    where
      s : IsSound e.inst (k, o)
      s = All-find (IsSound e.inst) k o e.orders v.sound f

  end_session-Kept : (session : ℕ) → k.0 ≢ session → Kept k o (end_session e session).0.orders
  end_session-Kept session h =
      let kept : not (k.0 == session) ≡ true = ground arith in
      (
        o,
        rw ((end_session_lem session v).0, find-filter k (λ j. not (j.0 == session)) e.orders, kept)
            f,
        Evolves-refl o,
      )

-- The calls that leave the entry of a key: all but the end of its session.
abbrev pub Leaves : OrderKey → Call → Type 0
Leaves k (session_end session) = k.0 ≢ session
Leaves k (new_order session order) = Unit {0}
Leaves k (cancel_order session c) = Unit {0}
Leaves k (book_update book) = Unit {0}

step-Kept :
    (e : OrderEngine) (c : Call) {e' : OrderEngine} (k : OrderKey) (o : Order)
    → Inv e
    → find k e.orders ≡ some o
    → Leaves k c
    → step e c ≡ some e'
    → Kept k o e'.orders
unfolding step
step-Kept e (new_order session order) k o v f l h =
    subst (λ x. Kept k o x.orders) (some_inj h) (on_new-Kept v k o f session order)
step-Kept e (cancel_order session c) k o v f l h =
    subst (λ x. Kept k o x.orders) (some_inj h) (on_cancel-Kept v k o f session c)
step-Kept e (book_update book) k o v f l h =
    let (r, g, w) = on_book-Inv book v in
    let h' : some r.0 ≡ some _ = rw (g, step) at h in
    subst (λ x. Kept k o x.orders) (some_inj h') (on_book-Kept v k o f book g)
step-Kept e (session_end session) k o v f l h =
    subst (λ x. Kept k o x.orders) (some_inj h) (end_session-Kept v k o f session l)

-- Over any history that does not end its session, a retained order keeps its engine id, its side
-- and its price, its remainder never grows, and once terminal it never changes again.
pub run-Kept :
    (e : OrderEngine) (cs : List Call) {e' : OrderEngine} (k : OrderKey) (o : Order)
    → Inv e
    → find k e.orders ≡ some o
    → All (Leaves k) cs
    → run e cs ≡ some e'
    → Kept k o e'.orders
unfolding run
run-Kept e [] k o v f l h = subst (λ x. Kept k o x.orders) (some_inj h) (o, f, Evolves-refl o)
run-Kept e (c ∷ cs) k o v f l h =
    let (e1, g, w) = step-Inv e c v in
    let (p, f1, a) = step-Kept e c k o v f l.0 g in
    let (q, f2, b) = run-Kept e1 cs k p w f1 l.1 (rw (g, run) at h) in
    (q, f2, Evolves-trans o p q a b)
