-- ===== src/Engine/Identity.antt =====
-- The life of a (session, cl_id) in cpp/src/engine.cpp: it is used once, and a terminal order answers
-- every later command in the same way.
use market_maker_proto.Prelude.{
  ℕ, ◌≡◌, refl, sym, ◌∙◌, subst, true, false, arith, Bool-cases, inl, inr, List, [], ◌∷◌, none,
  some, All, some_inj,
}
use market_maker_proto.Prelude.Text.{bytes}
use market_maker_proto.Types.{Side, bid, ask, dup_cl_ord_id, already_terminal}
use market_maker_proto.Protocol.{NewOrder, CancelOrder, OutMsg}
use market_maker_proto.Engine.Keys.{
  OrderKey, key_lt, key_eq, IsSorted, Above-trans, key_eq→eq, key_eq_refl, key_lt_irrefl,
}
use market_maker_proto.Engine.Containers.{Map, keys, find, emplace, lower_bound, points_at}
use market_maker_proto.Engine.State.{Order, OrderEngine, is_live}
use market_maker_proto.Engine.Live.{find-Above, gt_of_ne}
use market_maker_proto.Engine.Lookup.{find-emplace}
use market_maker_proto.Engine.Entry.{
  make_reject, reject_new, accept, accepted_order, tombstone, cancel_found, on_new, on_cancel,
}
use market_maker_proto.Engine.Entry.Answers.{Accepts, on_new_cases}
use market_maker_proto.Engine.Calls.{Call, run}
use market_maker_proto.Engine.Invariant.{Inv, on_new-Inv}
use market_maker_proto.Engine.Invariant.Runs.{run-Inv}
use market_maker_proto.Engine.Invariant.LifeCycle.{Leaves, run-Kept}

-- A key that the map has is where its lower bound points.
points_at_of_find :
    {V : Type 0} (k : OrderKey) (v : V) (m : Map V)
    → IsSorted (keys m)
    → find k m ≡ some v
    → points_at k (lower_bound k m) ≡ true
unfolding points_at lower_bound find
points_at_of_find k v [] s f = cc
points_at_of_find k v ((j, w) ∷ m) s f = elim (Bool-cases (key_lt j k)) [
  | inl below ↦
      let ne : key_eq j k ≡ false = ground (arith, key_eq→eq j k, key_lt_irrefl k) in
      rw (below, lower_bound) (points_at_of_find k v m s.1 (ground arith))
  | inr from ↦ elim (Bool-cases (key_eq j k)) [
    | inl hit ↦ rw (from, lower_bound) hit
    | inr miss ↦
        let gone = find-Above k m (Above-trans k j (keys m) (gt_of_ne j k miss from) s.0) in
        absurd (ground arith)
  ]
]

pub find_of_points_at :
    {V : Type 0} (k : OrderKey) (m : Map V)
    → IsSorted (keys m)
    → points_at k (lower_bound k m) ≡ true
    → (v : V) × (find k m ≡ some v)
unfolding points_at lower_bound find
find_of_points_at k [] s p = absurd (cc)
find_of_points_at k ((j, w) ∷ m) s p = elim (Bool-cases (key_lt j k)) [
  | inl below ↦
      let ne : key_eq j k ≡ false = ground (arith, key_eq→eq j k, key_lt_irrefl k) in
      let (v, f) = find_of_points_at k m s.1 (rw (below, lower_bound) at p) in (v, rw ne f)
  | inr from ↦ let hit : key_eq j k ≡ true = rw (from, lower_bound) at p in (w, rw hit refl)
]

abbrev pub duplicate : NewOrder → OutMsg
duplicate order = make_reject order.cl_id dup_cl_ord_id (bytes "cl_id already used on this session")

-- A used cl_id is refused, and the engine is left as it was.
pub on_new_used :
    (e : OrderEngine) (session : ℕ) (order : NewOrder) (o : Order)
    → Inv e
    → find (session, order.cl_id) e.orders ≡ some o
    → on_new e session order ≡ (e, duplicate order ∷ [])
unfolding on_new
on_new_used e session order o v f =
    rw (points_at_of_find (session, order.cl_id) o e.orders v.sorted f, on_new) refl

-- Whatever the answer to a new order, its cl_id is used afterwards.
on_new_uses :
    (e : OrderEngine) (session : ℕ) (order : NewOrder)
    → Inv e
    → (o : Order) × (find (session, order.cl_id) (on_new e session order).0.orders ≡ some o)
on_new_uses e session order v =
    on_new_cases e session order (λ r. (o : Order) × (find key r.0.orders ≡ some o)) v.sorted
      (find_of_points_at key e.orders v.sorted)
      (λ g code reason. (tombstone, unfold reject_new in entered tombstone g)) accepted
  where
    key : OrderKey
    key = (session, order.cl_id)

    entered : (o : Order) → find key e.orders ≡ none → find key (emplace key o e.orders) ≡ some o
    entered o g = rw (find-emplace key key o e.orders g, key_eq_refl key) refl

    accepted :
        find key e.orders ≡ none
        → (side : Side) → Accepts e session order side
        → (o : Order) × (find key (accept e session order side).0.orders ≡ some o)
    accepted g bid a =
        (accepted_order e bid order, unfold accept in entered (accepted_order e bid order) g)
    accepted g ask a =
        (accepted_order e ask order, unfold accept in entered (accepted_order e ask order) g)

-- A cl_id is consumed by its first new order, accepted or rejected: over any history in which its
-- session does not end, a later new order with that cl_id is refused as a duplicate and changes
-- nothing.
pub cl_id_consumed :
    (e : OrderEngine) (session : ℕ) (order again : NewOrder) (cs : List Call) {e' : OrderEngine}
    → Inv e
    → again.cl_id ≡ order.cl_id
    → All (Leaves (session, order.cl_id)) cs
    → run (on_new e session order).0 cs ≡ some e'
    → on_new e' session again ≡ (e', duplicate again ∷ [])
cl_id_consumed e session order again cs {e'} v same l h =
    let (o, f) = on_new_uses e session order v in
    let (p, g, a) =
      run-Kept (on_new e session order).0 cs (session, order.cl_id) o (on_new-Inv session order v) f
        l h in
    let (e2, k, u) = run-Inv (on_new e session order).0 cs (on_new-Inv session order v) in
    on_new_used e' session again p (subst Inv (some_inj (sym k ∙ h)) u) (rw same g)

cancel_terminal :
    (e : OrderEngine) (session : ℕ) (c : CancelOrder) (o : Order)
    → find (session, c.cl_id) e.orders ≡ some o
    → is_live o.st ≡ false
    → on_cancel e session c
      ≡ (e, make_reject c.cl_id already_terminal (bytes "order is already terminal") ∷ [])
unfolding on_cancel cancel_found
cancel_terminal e session c o f d = rw (f, on_cancel, d, cancel_found) refl

-- Terminal states are absorbing: over any history in which its session does not end, a terminal
-- order stays exactly as it is, and every cancel of it is refused as already terminal and changes
-- nothing.
pub terminal_absorbing :
    (e : OrderEngine) (session : ℕ) (c : CancelOrder) (o : Order) (cs : List Call)
    {e' : OrderEngine}
    → Inv e
    → find (session, c.cl_id) e.orders ≡ some o
    → is_live o.st ≡ false
    → All (Leaves (session, c.cl_id)) cs
    → run e cs ≡ some e'
    → (find (session, c.cl_id) e'.orders ≡ some o)
      × (on_cancel e' session c
          ≡ (e', make_reject c.cl_id already_terminal (bytes "order is already terminal") ∷ []))
terminal_absorbing e session c o cs {e'} v f d l h =
    let (p, g, a) = run-Kept e cs (session, c.cl_id) o v f l h in
    let still : find (session, c.cl_id) e'.orders ≡ some o = rw (← a.absorbed d) g in
    (still, cancel_terminal e' session c o still d)
