-- ===== src/Engine/Invariant/Session.antt =====
-- OrderEngine::end_session (cpp/src/engine.cpp) keeps the engine well formed, and leaves nothing of
-- the session and everything of the others.
use market_maker_proto.Prelude.{
  ℕ, ◌≤◌, ◌≡◌, sym, ap, Bool, not, arith, ◌==◌, if◌then◌else◌, List, [], ◌∷◌, map, filter,
}
use market_maker_proto.Types.{Side, bid, ask}
use market_maker_proto.Engine.Keys.{OrderKey, IsSorted}
use market_maker_proto.Engine.Containers.{Map, keys, erase_range}
use market_maker_proto.Engine.State.{Order, OrderEngine, entry_count}
use market_maker_proto.Engine.Live.{live_keys}
use market_maker_proto.Engine.Ranges.{
  of_session, of_others, session_range_lem, erase_range_lem, filter-IsSorted, live_keys-filter,
  map_id,
}
use market_maker_proto.Engine.Counts.{
  count_where, in_session, live_in, All-filter, live_keys-IsSorted,
}
use market_maker_proto.Engine.Teardown.{end_acks, end_session}
use market_maker_proto.Engine.Invariant.{Inv, IsSound}

abbrev pub entry_key : OrderKey × Order → OrderKey
entry_key x = x.0

-- The entries of the other sessions.
abbrev pub others : ℕ → Map Order → Map Order
others session = filter (of_others entry_key session)

-- The entries of the session.
abbrev pub own : ℕ → Map Order → Map Order
own session = filter (of_session entry_key session)

count_others :
    (p : OrderKey → Order → Bool) (session : ℕ) (m : Map Order)
    → count_where p (others session m) ≤ count_where p m
count_others p session [] = omega arith
count_others p session ((k, o) ∷ m) = ground (arith, count_others p session m)

-- Erasing a session's entries takes its count to 0 and leaves the others'.
pub entries_others :
    (s session : ℕ) (m : Map Order)
    → count_where (in_session s) (others session m)
      ≡ (if s == session then 0 else count_where (in_session s) m)
entries_others s session [] = ground arith
entries_others s session ((k, o) ∷ m) = ground (arith, entries_others s session m)

pub live_others :
    (s session : ℕ) (m : Map Order)
    → count_where (live_in s) (others session m)
      ≡ (if s == session then 0 else count_where (live_in s) m)
live_others s session [] = ground arith
live_others s session ((k, o) ∷ m) = ground (arith, live_others s session m)

erased_index :
    (side : Side) (session : ℕ) (l : List OrderKey) (m : Map Order)
    → IsSorted (keys m)
    → l ≡ live_keys side m
    → erase_range (λ k. k) session l ≡ live_keys side (others session m)
erased_index side session l m s e =
    rw (e, erase_range_lem (λ k. k) session (live_keys side m) sorted)
      (sym (live_keys-filter side (λ k. not (k.0 == session)) m))
  where
    sorted : IsSorted (map (λ k. k) (live_keys side m))
    sorted = rw (map_id (live_keys side m)) (live_keys-IsSorted side m s)

module _ (session : ℕ) {e : OrderEngine} (v : Inv e) where
  -- The retained orders are those of the other sessions, unchanged, and there is one cancel-ack for
  -- each order of the session that is live, in key order.
  pub end_session_lem :
      ((end_session e session).0.orders ≡ others session e.orders)
      × ((end_session e session).1 ≡ end_acks (own session e.orders))
  unfolding end_session
  end_session_lem = (
    erase_range_lem entry_key session e.orders v.sorted,
    ap end_acks (session_range_lem entry_key session e.orders v.sorted),
  )

  pub end_session-Inv : Inv (end_session e session).0
  unfolding end_session entry_count
  end_session-Inv =
      let orders = erase_range_lem entry_key session e.orders v.sorted in
      record {
        sorted =
            rw orders
              (filter-IsSorted entry_key session (of_others entry_key session) e.orders v.sorted);
        bids = rw orders (erased_index bid session e.live_bids e.orders v.sorted v.bids);
        asks = rw orders (erased_index ask session e.live_asks e.orders v.sorted v.asks);
        counted = λ s. rw orders (ground (arith, v.counted s, entries_others s session e.orders));
        capped =
            λ s. rw orders (ground (arith, v.capped s, count_others (live_in s) session e.orders));
        sound =
            rw orders (All-filter (IsSound e.inst) (of_others entry_key session) e.orders v.sound);
      }
