-- ===== src/Engine/Counts.antt =====
-- How many entries of the order map meet a test, and what an insertion or a write does to that
-- number: entry_count and live_count of cpp/src/engine.cpp against the full map.
use market_maker_proto.Prelude.{
  ℕ, suc, ◌+◌, ◌≤◌, ◌≡◌, refl, Bool, true, ◌&&◌, arith, ◌==◌, if◌then◌else◌, Bool-cases, inl, inr,
  [], ◌∷◌, map, none, some, All, filter, length,
}
use market_maker_proto.Types.{Side, bid, ask}
use market_maker_proto.Engine.Keys.{OrderKey, key_lt, key_eq, IsSorted, key_eq→eq}
use market_maker_proto.Engine.Containers.{Map, keys, find, emplace, update_at}
use market_maker_proto.Engine.State.{Order, OrderEngine, is_live, live_count}
use market_maker_proto.Engine.Live.{live_keys, live_keys-Above, find_tail, find_ne, gt_of_ne}
use market_maker_proto.Engine.Ranges.{of_session, session_range_lem, map_id}

abbrev pub count_where : {V : Type 0} → (OrderKey → V → Bool) → Map V → ℕ
count_where p [] = 0
count_where p ((k, v) ∷ m) = let rest = count_where p m in if p k v then suc rest else rest

-- The entries of a session, and its live orders.
abbrev pub in_session : ℕ → OrderKey → Order → Bool
in_session session k o = k.0 == session

abbrev pub live_in : ℕ → OrderKey → Order → Bool
live_in session k o = k.0 == session && is_live o.st

module _ {V : Type 0} (p : OrderKey → V → Bool) where
  pub count_where-emplace :
      (k : OrderKey) (v : V) (m : Map V)
      → find k m ≡ none
      → count_where p (emplace k v m) ≡ (if p k v then suc (count_where p m) else count_where p m)
  unfolding emplace
  count_where-emplace k v [] f = refl
  count_where-emplace k v ((j, w) ∷ m) f = elim (Bool-cases (key_lt j k)) [
    | inl below ↦
        rw (below, emplace) (ground (arith, count_where-emplace k v m (find_tail j k w m f)))
    | inr above ↦ rw (above, gt_of_ne j k (find_ne j k w m f) above, emplace) refl
  ]

  -- A write that never makes the test pass does not raise the number.
  pub count_where-update_at_le :
      (k : OrderKey) (g : V → V) (m : Map V)
      → ((j : OrderKey) (v : V) → p j (g v) ≡ true → p j v ≡ true)
      → count_where p (update_at k g m) ≤ count_where p m
  unfolding update_at
  count_where-update_at_le k g [] h = omega arith
  count_where-update_at_le k g ((j, w) ∷ m) h =
      ground (arith, count_where-update_at_le k g m h, h j w)

  pub count_where-update_at :
      (k : OrderKey) (g : V → V) (m : Map V)
      → ((j : OrderKey) (v : V) → p j (g v) ≡ p j v)
      → count_where p (update_at k g m) ≡ count_where p m
  unfolding update_at
  count_where-update_at k g [] h = refl
  count_where-update_at k g ((j, w) ∷ m) h = ground (arith, count_where-update_at k g m h, h j w)

module _ {V : Type 0} (P : OrderKey × V → Type 0) where
  pub All-emplace : (k : OrderKey) (v : V) (m : Map V) → P (k, v) → All P m → All P (emplace k v m)
  unfolding emplace
  All-emplace k v [] h a = (h, tt)
  All-emplace k v ((j, w) ∷ m) h a = elim (Bool-cases (key_lt j k)) [
    | inl below ↦ rw (below, emplace) (a.0, All-emplace k v m h a.1)
    | inr above ↦ elim (Bool-cases (key_lt k j)) [
      | inl l ↦ rw (above, l, emplace) (h, a)
      | inr g ↦ rw (above, g, emplace) a
    ]
  ]

  pub All-update_at :
      (k : OrderKey) (g : V → V) (v : V) (m : Map V)
      → find k m ≡ some v
      → P (k, g v)
      → All P m
      → All P (update_at k g m)
  unfolding update_at find
  All-update_at k g v [] f h a = tt
  All-update_at k g v ((j, w) ∷ m) f h a = elim (Bool-cases (key_eq j k)) [
    | inl hit ↦
        let e = key_eq→eq j k hit in
        let same : w ≡ v = ground arith in rw (hit, update_at) (rw (e, same) h, a.1)
    | inr miss ↦
        let rest : find k m ≡ some v = ground arith in
        rw (miss, update_at) (a.0, All-update_at k g v m rest h a.1)
  ]

  pub All-find : (k : OrderKey) (v : V) (m : Map V) → All P m → find k m ≡ some v → P (k, v)
  unfolding find
  All-find k v [] a h = cc
  All-find k v ((j, w) ∷ m) a h = elim (Bool-cases (key_eq j k)) [
    | inl hit ↦
        let e = key_eq→eq j k hit in let same : w ≡ v = ground arith in rw (← same) (rw (← e) a.0)
    | inr miss ↦ All-find k v m a.1 (ground arith)
  ]

  pub All-filter : (p : OrderKey × V → Bool) (m : Map V) → All P m → All P (filter p m)
  All-filter p [] a = tt
  All-filter p (x ∷ m) a = elim (Bool-cases (p x)) [
    | inl y ↦ rw y (a.0, All-filter p m a.1)
    | inr n ↦ rw n (All-filter p m a.1)
  ]

pub live_keys-IsSorted :
    (side : Side) (m : Map Order) → IsSorted (keys m) → IsSorted (live_keys side m)
live_keys-IsSorted side [] s = tt
live_keys-IsSorted side ((k, o) ∷ m) s =
    ground (arith, live_keys-IsSorted side m s.1, live_keys-Above side k m s.0)

index_length :
    (session : ℕ) (m : Map Order)
    → length (filter (of_session (λ k. k) session) (live_keys bid m))
        + length (filter (of_session (λ k. k) session) (live_keys ask m))
      ≡ count_where (live_in session) m
index_length session [] = omega arith
index_length session ((k, o) ∷ m) = ground (arith, index_length session m)

-- The number that the live indexes give is that of the session's live orders in the full map.
pub live_count_lem :
    (e : OrderEngine) (session : ℕ)
    → IsSorted (keys e.orders)
    → e.live_bids ≡ live_keys bid e.orders
    → e.live_asks ≡ live_keys ask e.orders
    → live_count e session ≡ count_where (live_in session) e.orders
unfolding live_count
live_count_lem e session s b a =
    rw
      (
        b,
        a,
        session_range_lem (λ k. k) session (live_keys bid e.orders) (sorted bid),
        session_range_lem (λ k. k) session (live_keys ask e.orders) (sorted ask),
      )
      (index_length session e.orders)
  where
    sorted : (side : Side) → IsSorted (map (λ k. k) (live_keys side e.orders))
    sorted side = rw (map_id (live_keys side e.orders)) (live_keys-IsSorted side e.orders s)
