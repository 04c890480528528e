-- ===== src/Engine/Lookup.antt =====
-- Look-ups in the order map of cpp/src/engine.cpp after each of the writes that the engine makes.
use market_maker_proto.Prelude.{
  ◌≡◌, refl, Bool, false, arith, if◌then◌else◌, Bool-cases, inl, inr, [], ◌∷◌, Option, none, some,
  filter,
}
use market_maker_proto.Engine.Keys.{OrderKey, key_lt, key_eq, key_eq→eq, key_eq_refl}
use market_maker_proto.Engine.Containers.{Map, find, emplace, update_at, map_vals}
use market_maker_proto.Engine.Live.{find_tail, find_ne, gt_of_ne}

abbrev pub over : {V : Type 0} → (V → V) → Option V → Option V
over f none = none
over f (some v) = some (f v)

pub key_eq_sym : (a b : OrderKey) → key_eq a b ≡ key_eq b a
key_eq_sym a b = elim (Bool-cases (key_eq a b)) [
  | inl h ↦ rw (key_eq→eq a b h) refl
  | inr h ↦ elim (Bool-cases (key_eq b a)) [
    | inl k ↦ rw (key_eq→eq b a k) refl
    | inr k ↦ rw (h, k) refl
  ]
]

module _ {V : Type 0} where
  pub find-map_vals :
      (k : OrderKey) (f : V → V) (m : Map V) → find k (map_vals f m) ≡ over f (find k m)
  unfolding find
  find-map_vals k f [] = refl
  find-map_vals k f ((j, v) ∷ m) = ground (arith, find-map_vals k f m)

  -- A new key is found, and every other key as before.
  pub find-emplace :
      (j k : OrderKey) (v : V) (m : Map V)
      → find k m ≡ none
      → find j (emplace k v m) ≡ (if key_eq k j then some v else find j m)
  unfolding find emplace
  find-emplace j k v [] h = refl
  find-emplace j k v ((i, w) ∷ m) h = elim (Bool-cases (key_lt i k)) [
    | inr above ↦ rw (above, gt_of_ne i k (find_ne i k w m h) above, emplace) refl
    | inl below ↦ elim (Bool-cases (key_eq i j)) [
      | inl hit ↦
          let ne : key_eq k j ≡ false =
            rw (key_eq_sym k j, ← key_eq→eq i j hit) (find_ne i k w m h) in
          rw (below, emplace, hit, ne) refl
      | inr miss ↦ rw (below, emplace, miss) (find-emplace j k v m (find_tail i k w m h))
    ]
  ]

  pub find-update_at_ne :
      (j k : OrderKey) (f : V → V) (m : Map V)
      → key_eq k j ≡ false
      → find j (update_at k f m) ≡ find j m
  unfolding find update_at
  find-update_at_ne j k f [] h = refl
  find-update_at_ne j k f ((i, w) ∷ m) h = elim (Bool-cases (key_eq i k)) [
    | inl hit ↦
        let ne : key_eq i j ≡ false = rw (key_eq→eq i k hit) h in rw (hit, update_at, ne) refl
    | inr miss ↦ rw (miss, update_at) (ground (arith, find-update_at_ne j k f m h))
  ]

  pub find-update_at_self :
      (k : OrderKey) (f : V → V) (v : V) (m : Map V)
      → find k m ≡ some v
      → find k (update_at k f m) ≡ some (f v)
  unfolding find update_at
  find-update_at_self k f v [] h = cc
  find-update_at_self k f v ((i, w) ∷ m) h = elim (Bool-cases (key_eq i k)) [
    | inl hit ↦ rw (hit, update_at, hit) (ground arith)
    | inr miss ↦ rw (miss, update_at, miss) (find-update_at_self k f v m (ground arith))
  ]

  pub find-filter :
      (j : OrderKey) (p : OrderKey → Bool) (m : Map V)
      → find j (filter (λ x. p x.0) m) ≡ (if p j then find j m else none)
  unfolding find
  find-filter j p [] = ground arith
  find-filter j p ((k, v) ∷ m) = elim (Bool-cases (key_eq k j)) [
    | inl hit ↦ rw (key_eq→eq k j hit) (ground (arith, key_eq_refl j, find-filter j p m))
    | inr miss ↦ ground (arith, miss, find-filter j p m)
  ]
