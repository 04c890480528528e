-- ===== src/Engine/Admission.antt =====
-- Which new orders on_new (cpp/src/engine.cpp) accepts, what it answers, and how the post-only entry
-- test agrees with the fill rule of the sweep.
use market_maker_proto.Prelude.{
  ℕ, ◌≡◌, ◌⊎◌, refl, ap, ◌∙◌, false, not, ◌&&◌, arith, leb, Bool-cases, inl, inr, List, [], ◌∷◌,
  none, some, inc_u64,
}
use market_maker_proto.Prelude.Int.{pos, ◌*ℤ◌, to_u64}
use market_maker_proto.Prelude.Text.{Bytes, bytes}
use market_maker_proto.Types.{Side, bid, ask, RejectCode}
use market_maker_proto.Types.Validation.{validate_order-none}
use market_maker_proto.Protocol.{NewOrder, OutMsg, order_ack}
use market_maker_proto.Engine.Keys.{OrderKey, key_eq_refl}
use market_maker_proto.Engine.Containers.{find, emplace, lower_bound, points_at}
use market_maker_proto.Engine.State.{Order, live, OrderEngine, Book, live_count}
use market_maker_proto.Engine.Entry.{
  to_raw_px, make_reject, reject_new, accept, accepted_order, crosses, enter, on_new,
}
use market_maker_proto.Engine.Entry.Answers.{Valid, Accepts, on_new_cases, side_from_wire-wire}
use market_maker_proto.Engine.Sweep.{is_crossed, is_absent}
use market_maker_proto.Engine.Invariant.{Inv, to_raw_px-to_ticks}
use market_maker_proto.Engine.Lookup.{find-emplace}
use market_maker_proto.Engine.Identity.{find_of_points_at}

-- The conditions under which a new order is accepted on a side.
abbrev pub Admits : OrderEngine → ℕ → NewOrder → Side → Type 0
Admits e session order side =
    (find (session, order.cl_id) e.orders ≡ none) × Accepts e session order side

-- An order that meets the conditions is accepted.
on_new-accept :
    (e : OrderEngine) (session : ℕ) (order : NewOrder) (side : Side)
    → Inv e
    → Admits e session order side
    → on_new e session order ≡ accept e session order side
unfolding on_new enter
on_new-accept e session order side v (f, a) =
    elim (Bool-cases (points_at key (lower_bound key e.orders))) [
      | inl p ↦ let (o, g) = find_of_points_at key e.orders v.sorted p in absurd (cc)
      | inr p ↦
          let room : leb (to_u64 e.inst.max_live_orders) (live_count e session) ≡ false =
            ground (arith, a.room) in
          rw
            (
              p,
              validate_order-none e.inst order.symbol order.side order.px order.qty a.valid,
              room,
              side_from_wire-wire order.side side a.spelled,
              a.passive,
              on_new,
              enter,
            )
            refl
    ]
  where
    key : OrderKey
    key = (session, order.cl_id)

-- An acceptance: one order-ack with the cl_id and the next engine id, which is burnt, and the order
-- at rest under its key, live on its side, at its price and with its whole quantity.
pub record Acknowledges (e : OrderEngine) (session : ℕ) (order : NewOrder) (side : Side)
    (r : OrderEngine × List OutMsg) : Type 0 where
  pub ack :
      r.1
      ≡ order_ack (record {
        v = 1;
        seq = 0;
        epoch = 0;
        cl_id = order.cl_id;
        eng_id = e.next_eng_id;
        status = bytes "live";
        svc_ns = pos 0;
      })
        ∷ []
  pub resting : Order
  pub entered : find (session, order.cl_id) r.0.orders ≡ some resting
  pub its_id : resting.eng_id ≡ e.next_eng_id
  pub its_side : resting.side ≡ side
  pub its_px : (resting.px.v *ℤ e.inst.tick_size) ≡ order.px
  pub its_leaves : resting.leaves ≡ order.qty
  pub its_state : resting.st ≡ live
  pub next_eng_id : r.0.next_eng_id ≡ inc_u64 e.next_eng_id
  pub book : r.0.book ≡ e.book

-- A refusal: one reject that names the cl_id; no engine id is burnt, no index and no book changes.
pub record Refuses (e : OrderEngine) (order : NewOrder) (r : OrderEngine × List OutMsg)
    : Type 0 where
  pub code : RejectCode
  pub reason : Bytes
  pub answer : r.1 ≡ make_reject order.cl_id code reason ∷ []
  pub next_eng_id : r.0.next_eng_id ≡ e.next_eng_id
  pub live_bids : r.0.live_bids ≡ e.live_bids
  pub live_asks : r.0.live_asks ≡ e.live_asks
  pub book : r.0.book ≡ e.book

accept-Acknowledges :
    (e : OrderEngine) (session : ℕ) (order : NewOrder) (side : Side)
    → Admits e session order side
    → Acknowledges e session order side (accept e session order side)
unfolding accept accepted_order
accept-Acknowledges e session order side (f, a) = by_side side
  where
    key : OrderKey
    key = (session, order.cl_id)

    placed : (o : Order) → find key (emplace key o e.orders) ≡ some o
    placed o = rw (find-emplace key key o e.orders f, key_eq_refl key) refl

    px : ((accepted_order e side order).px.v *ℤ e.inst.tick_size) ≡ order.px
    px = unfold to_raw_px in to_raw_px-to_ticks e order a.valid

    by_side : (s : Side) → Acknowledges e session order s (accept e session order s)
    by_side bid = record {
      ack = refl;
      resting = accepted_order e bid order;
      entered = placed (accepted_order e bid order);
      its_id = refl;
      its_side = refl;
      its_px = px;
      its_leaves = refl;
      its_state = refl;
      next_eng_id = refl;
      book = refl;
    }
    by_side ask = record {
      ack = refl;
      resting = accepted_order e ask order;
      entered = placed (accepted_order e ask order);
      its_id = refl;
      its_side = refl;
      its_px = px;
      its_leaves = refl;
      its_state = refl;
      next_eng_id = refl;
      book = refl;
    }

accept_ne_refuse :
    (e : OrderEngine) (session : ℕ) (order : NewOrder) (side : Side) (r : OrderEngine × List OutMsg)
    → Refuses e order r
    → r ≡ accept e session order side
    → ⊥
unfolding accept make_reject
accept_ne_refuse e session order side r h p = cc (h.answer, ap (λ x. x.1) p)

refuses :
    (e f : OrderEngine) (order : NewOrder) (code : RejectCode) (reason : Bytes)
    → f.next_eng_id ≡ e.next_eng_id
    → f.live_bids ≡ e.live_bids
    → f.live_asks ≡ e.live_asks
    → f.book ≡ e.book
    → Refuses e order (f, make_reject order.cl_id code reason ∷ [])
refuses e f order code reason n b a k = record {
  code = code;
  reason = reason;
  answer = refl;
  next_eng_id = n;
  live_bids = b;
  live_asks = a;
  book = k;
}

-- Every new order gets exactly one answer. Where the cl_id is new, the order valid, the session below
-- its live cap and the order, if post-only, does not cross, the answer is one order-ack with the next
-- engine id, and the order rests live on its side, at its price and with its whole quantity.
-- Everywhere else the answer is one reject that names the cl_id, no engine id is burnt, and no index
-- and no book changes.
pub on_new_answers :
    (e : OrderEngine) (session : ℕ) (order : NewOrder)
    → Inv e
    → ((side : Side) × Admits e session order side
        × (on_new e session order ≡ accept e session order side)
        × Acknowledges e session order side (on_new e session order))
      ⊎ (Refuses e order (on_new e session order) × ((side : Side) → ¬ Admits e session order side))
on_new_answers e session order v =
    on_new_cases e session order (λ r. r ≡ on_new e session order → Answer r) v.sorted
      (λ p h. refused (e, _) (refuses e e order _ _ refl refl refl refl) h)
      (λ f code reason h.
        refused _ (unfold reject_new in refuses e _ order code reason refl refl refl refl) h)
      (λ f side a h. inl (side, (f, a), refl, accept-Acknowledges e session order side (f, a))) refl
  where
    Answer : OrderEngine × List OutMsg → Type 0
    Answer r =
        ((side : Side) × Admits e session order side
          × (r ≡ accept e session order side)
          × Acknowledges e session order side r)
        ⊎ (Refuses e order r × ((side : Side) → ¬ Admits e session order side))

    refused :
        (r : OrderEngine × List OutMsg) → Refuses e order r → r ≡ on_new e session order → Answer r
    refused r h p = inr (
      h,
      λ side a.
          accept_ne_refuse e session order side r h (p ∙ on_new-accept e session order side v a),
    )

-- The entry test of a valid order is the fill rule of the sweep: an order crosses at entry exactly
-- when a sweep of the same book would fill it at rest.
pub crosses_iff_fills :
    (e : OrderEngine) (order : NewOrder) (side : Side) (book : Book)
    → Valid e order
    → crosses side book order.px
      ≡ (not (is_absent side book) && is_crossed e.inst side book (accepted_order e side order))
unfolding crosses is_absent is_crossed accepted_order
crosses_iff_fills e order bid book v = rw (to_raw_px-to_ticks e order v) (ground arith)
crosses_iff_fills e order ask book v = rw (to_raw_px-to_ticks e order v) (ground arith)
