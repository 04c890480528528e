-- ===== src/Engine/Containers.antt =====
-- std::map and std::set by (session, cl_id), as the engine uses them, as lists in iteration order;
-- an iterator into the map is the key of its node. session_range of cpp/include/mm/engine.hpp.
use market_maker_proto.Prelude.{
  ℕ, Bool, false, ◌==◌, if◌then◌else◌, List, [], ◌∷◌, ◌++◌, map, Option, none, some,
}
use market_maker_proto.Engine.Keys.{OrderKey, key_lt, key_eq}

module _ {A : Type 0} where
  abbrev pub take_while : (A → Bool) → List A → List A
  take_while p [] = []
  take_while p (x ∷ xs) = let rest = take_while p xs in if p x then x ∷ rest else []

  abbrev pub drop_while : (A → Bool) → List A → List A
  drop_while p [] = []
  drop_while p (x ∷ xs) = let rest = drop_while p xs in if p x then rest else x ∷ xs

abbrev pub Map : Type 0 → Type 0
Map V = List (OrderKey × V)

abbrev pub keys : {V : Type 0} → Map V → List OrderKey
keys m = map (λ e. e.0) m

module _ {V : Type 0} where
  -- The iterator that lower_bound returns, as the entries from it on.
  unfoldable pub lower_bound : OrderKey → Map V → Map V
  lower_bound k m = drop_while (λ e. key_lt e.0 k) m

  -- The test of an iterator against end() and the key.
  unfoldable pub points_at : OrderKey → Map V → Bool
  points_at k [] = false
  points_at k ((j, v) ∷ m) = key_eq j k

  unfoldable pub find : OrderKey → Map V → Option V
  find k [] = none
  find k ((j, v) ∷ m) = let rest = find k m in if key_eq j k then some v else rest

  -- emplace_hint at the lower bound: a present key stays.
  unfoldable pub emplace : OrderKey → V → Map V → Map V
  emplace k v [] = (k, v) ∷ []
  emplace k v ((j, w) ∷ m) =
      let rest = emplace k v m in
      if key_lt j k then (j, w) ∷ rest else if key_lt k j then (k, v) ∷ (j, w) ∷ m else (j, w) ∷ m

  -- A write through the iterator at `k`.
  unfoldable pub update_at : OrderKey → (V → V) → Map V → Map V
  update_at k f [] = []
  update_at k f ((j, w) ∷ m) =
      let rest = update_at k f m in if key_eq j k then (j, f w) ∷ m else (j, w) ∷ rest

  abbrev pub map_vals : (V → V) → Map V → Map V
  map_vals f [] = []
  map_vals f ((k, v) ∷ m) = (k, f v) ∷ map_vals f m

unfoldable pub idx_insert : OrderKey → List OrderKey → List OrderKey
idx_insert k [] = k ∷ []
idx_insert k (j ∷ l) =
    let rest = idx_insert k l in
    if key_lt j k then j ∷ rest else if key_lt k j then k ∷ j ∷ l else j ∷ l

unfoldable pub idx_erase : OrderKey → List OrderKey → List OrderKey
idx_erase k [] = []
idx_erase k (j ∷ l) = let rest = idx_erase k l in if key_eq j k then l else j ∷ rest

abbrev pub session_floor : ℕ → OrderKey
session_floor session = (session, [])

-- [lo, hi) of a session's elements, and what stays when the range is erased.
module _ {A : Type 0} (key : A → OrderKey) (session : ℕ) where
  unfoldable pub from_floor : List A → List A
  from_floor c = drop_while (λ a. key_lt (key a) (session_floor session)) c

  unfoldable pub session_range : List A → List A
  unfolding from_floor
  session_range c = take_while (λ a. (key a).0 == session) (from_floor c)

  unfoldable pub erase_range : List A → List A
  unfolding from_floor
  erase_range c =
      take_while (λ a. key_lt (key a) (session_floor session)) c
      ++ drop_while (λ a. (key a).0 == session) (from_floor c)
