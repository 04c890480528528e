-- ===== src/Engine/Isolation.antt =====
-- Sessions do not see one another in cpp/src/engine.cpp, and the end of a session acknowledges each
-- of its live orders once and leaves nothing of it.
use market_maker_proto.Prelude.{
  ℕ, ◌≡◌, ◌≢◌, refl, sym, ap, true, false, not, arith, ◌==◌, if◌then◌else◌, Bool-cases, inl, inr,
  List, [], ◌∷◌, none, length, map, filter, ◌∙◌,
}
use market_maker_proto.Prelude.Text.{Bytes, bytes}
use market_maker_proto.Types.{Side, bid, ask}
use market_maker_proto.Protocol.{NewOrder, CancelOrder, OutMsg, cancel_ack}
use market_maker_proto.Engine.Keys.{OrderKey, key_eq, key_eq→eq}
use market_maker_proto.Engine.Containers.{Map, find, emplace, update_at}
use market_maker_proto.Engine.State.{
  Order, OrderEngine, live_count, entry_count, live_index, with_live_index,
}
use market_maker_proto.Engine.Containers.{idx_erase}
use market_maker_proto.Engine.Counts.{count_where, live_in, live_count_lem}
use market_maker_proto.Engine.Lookup.{find-emplace, find-update_at_ne, find-filter}
use market_maker_proto.Engine.Entry.{
  tombstone, cancel, reject_new, accept, accepted_order, cancel_found, on_new, on_cancel,
}
use market_maker_proto.Engine.Entry.Answers.{Accepts, on_new_cases, on_cancel_cases}
use market_maker_proto.Engine.Teardown.{end_acks, end_session}
use market_maker_proto.Engine.Invariant.{Inv}
use market_maker_proto.Engine.Invariant.Session.{
  own, entries_others, live_others, end_session_lem, end_session-Inv,
}

key_ne : (session : ℕ) (x : Bytes) (k : OrderKey) → k.0 ≢ session → key_eq (session, x) k ≡ false
key_ne session x k h = elim (Bool-cases (key_eq (session, x) k)) [
  | inl e ↦ absurd (h (sym (ap (λ j. j.0) (key_eq→eq (session, x) k e))))
  | inr e ↦ e
]

module _ (e : OrderEngine) (session : ℕ) (k : OrderKey) (v : Inv e) (other : k.0 ≢ session) where
  on_new_other : (order : NewOrder) → find k (on_new e session order).0.orders ≡ find k e.orders
  on_new_other order =
      on_new_cases e session order (λ r. find k r.0.orders ≡ find k e.orders) v.sorted (λ p. refl)
        (λ f code reason. unfold reject_new in entered tombstone f) accepted
    where
      entered :
          (o : Order)
          → find (session, order.cl_id) e.orders ≡ none
          → find k (emplace (session, order.cl_id) o e.orders) ≡ find k e.orders
      entered o f =
          rw
            (find-emplace k (session, order.cl_id) o e.orders f, key_ne session order.cl_id k other)
            refl

      accepted :
          find (session, order.cl_id) e.orders ≡ none
          → (side : Side) → Accepts e session order side
          → find k (accept e session order side).0.orders ≡ find k e.orders
      accepted f bid a = unfold accept in entered (accepted_order e bid order) f
      accepted f ask a = unfold accept in entered (accepted_order e ask order) f

  on_cancel_other : (c : CancelOrder) → find k (on_cancel e session c).0.orders ≡ find k e.orders
  unfolding cancel_found
  on_cancel_other c =
      on_cancel_cases e session c (λ r. find k r.0.orders ≡ find k e.orders) (λ code reason. refl)
        (λ ord f l. rw (l, cancel_found) (by_side ord.side))
    where
      by_side :
          (side : Side)
          → find k
              (with_live_index side
                (idx_erase (session, c.cl_id) (live_index side e))
                (record e { orders = update_at (session, c.cl_id) cancel e.orders })).orders
            ≡ find k e.orders
      by_side bid =
          find-update_at_ne k (session, c.cl_id) cancel e.orders (key_ne session c.cl_id k other)
      by_side ask =
          find-update_at_ne k (session, c.cl_id) cancel e.orders (key_ne session c.cl_id k other)

  end_session_other : find k (end_session e session).0.orders ≡ find k e.orders
  end_session_other =
      let kept : not (k.0 == session) ≡ true = ground (arith, other) in
      rw ((end_session_lem session v).0, find-filter k (λ j. not (j.0 == session)) e.orders, kept)
        refl

-- A session's commands and its end leave the orders of every other session as they are.
pub session_isolation :
    (e : OrderEngine) (session : ℕ) (k : OrderKey)
    → Inv e
    → k.0 ≢ session
    → ((order : NewOrder) → find k (on_new e session order).0.orders ≡ find k e.orders)
      × ((c : CancelOrder) → find k (on_cancel e session c).0.orders ≡ find k e.orders)
      × (find k (end_session e session).0.orders ≡ find k e.orders)
session_isolation e session k v h = (
  on_new_other e session k v h,
  on_cancel_other e session k v h,
  end_session_other e session k v h,
)

-- The acknowledgement of the cancel of an order.
abbrev pub cancelled_ack : OrderKey × Order → OutMsg
cancelled_ack (k, o) = cancel_ack (record {
  v = 1;
  seq = 0;
  epoch = 0;
  cl_id = k.1;
  eng_id = o.eng_id;
  status = bytes "cancelled";
})

-- The live orders of a session in key order, each acknowledged.
abbrev pub session_acks : ℕ → Map Order → List OutMsg
session_acks session m = map cancelled_ack (filter (λ x. live_in session x.0 x.1) m)

end_acks-own : (session : ℕ) (m : Map Order) → end_acks (own session m) ≡ session_acks session m
unfolding end_acks
end_acks-own session [] = refl
end_acks-own session ((k, o) ∷ m) = ground (arith, end_acks-own session m)

length-session_acks :
    (session : ℕ) (m : Map Order)
    → length (session_acks session m) ≡ count_where (live_in session) m
length-session_acks session [] = refl
length-session_acks session ((k, o) ∷ m) = ground (arith, length-session_acks session m)

-- The end of a session answers one cancel-ack, with its cl_id and engine id, for each live order of
-- the session, in key order and nothing else, as many as it has live orders. Of the retained orders
-- it drops the session's and leaves every other as it is, and it takes the session's counts of live
-- orders and of entries to 0 and leaves the other counts as they are.
pub end_session_counts :
    (e : OrderEngine) (session : ℕ)
    → Inv e
    → ((end_session e session).1 ≡ session_acks session e.orders)
      × (length (end_session e session).1 ≡ live_count e session)
      × ((k : OrderKey)
          → find k (end_session e session).0.orders
            ≡ (if k.0 == session then none else find k e.orders))
      × ((s : ℕ)
          → live_count (end_session e session).0 s ≡ (if s == session then 0 else live_count e s))
      × ((s : ℕ)
          → entry_count (end_session e session).0 s ≡ (if s == session then 0 else entry_count e s))
end_session_counts e session v =
    let w = end_session-Inv session v in
    let (orders, answer) = end_session_lem session v in
    let acks = answer ∙ end_acks-own session e.orders in
    (
      acks,
      rw (acks, live_count_lem e session v.sorted v.bids v.asks)
          (length-session_acks session e.orders),
      λ k. rw (orders, find-filter k (λ j. not (j.0 == session)) e.orders) (ground arith),
      λ s.
          rw
            (
              live_count_lem (end_session e session).0 s w.sorted w.bids w.asks,
              live_count_lem e s v.sorted v.bids v.asks,
              orders,
            )
            (live_others s session e.orders),
      λ s.
          rw (w.counted s, v.counted s, orders) (ground (arith, entries_others s session e.orders)),
    )
