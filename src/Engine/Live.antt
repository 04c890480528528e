-- ===== src/Engine/Live.antt =====
-- The live orders of a side in the full map, which a live index has to list, and how the writes of
-- cpp/src/engine.cpp to the map and to an index keep the two in step.
use market_maker_proto.Prelude.{
  ◌≡◌, refl, sym, Bool, true, false, ◌&&◌, arith, if◌then◌else◌, Bool-cases, inl, inr, List, [],
  ◌∷◌, none, some,
}
use market_maker_proto.Types.{Side}
use market_maker_proto.Engine.Keys.{
  OrderKey, key_lt, key_eq, Above, IsSorted, Above-trans, key_eq_refl, key_lt_total, key_eq_of_lt,
  key_eq_of_gt, key_lt_asymm,
}
use market_maker_proto.Engine.Containers.{
  Map, keys, find, emplace, update_at, idx_insert, idx_erase, lower_bound, points_at,
}
use market_maker_proto.Engine.State.{Order, same_side, is_live}

abbrev pub is_live_on : Side → Order → Bool
is_live_on side o = same_side o.side side && is_live o.st

abbrev pub live_keys : Side → Map Order → List OrderKey
live_keys side [] = []
live_keys side ((k, o) ∷ m) =
    let rest = live_keys side m in if is_live_on side o then k ∷ rest else rest

pub live_keys-Above :
    (side : Side) (k : OrderKey) (m : Map Order) → Above k (keys m) → Above k (live_keys side m)
live_keys-Above side k [] a = tt
live_keys-Above side k ((j, o) ∷ m) a = ground (arith, live_keys-Above side k m a.1)

module _ {V : Type 0} where
  pub emplace-Above :
      (j k : OrderKey) (v : V) (m : Map V)
      → key_lt j k ≡ true
      → Above j (keys m)
      → Above j (keys (emplace k v m))
  unfolding emplace
  emplace-Above j k v [] h a = (h, tt)
  emplace-Above j k v ((i, w) ∷ m) h a = ground (arith, emplace-Above j k v m)

  pub emplace-IsSorted :
      (k : OrderKey) (v : V) (m : Map V) → IsSorted (keys m) → IsSorted (keys (emplace k v m))
  unfolding emplace
  emplace-IsSorted k v [] s = (tt, tt)
  emplace-IsSorted k v ((j, w) ∷ m) s =
      ground (arith, emplace-IsSorted k v m, emplace-Above j k v m, Above-trans k j (keys m))

  pub keys-update_at : (k : OrderKey) (f : V → V) (m : Map V) → keys (update_at k f m) ≡ keys m
  unfolding update_at
  keys-update_at k f [] = refl
  keys-update_at k f ((j, w) ∷ m) = ground (arith, keys-update_at k f m)

  -- A key below every entry is not found.
  pub find-Above : (k : OrderKey) (m : Map V) → Above k (keys m) → find k m ≡ none
  unfolding find
  find-Above k [] a = refl
  find-Above k ((j, v) ∷ m) a = ground (arith, find-Above k m, key_eq_of_gt j k)

  -- The test at the lower bound decides whether the map has the key.
  pub points_at-lower_bound :
      (k : OrderKey) (m : Map V)
      → IsSorted (keys m)
      → points_at k (lower_bound k m) ≡ false
      → find k m ≡ none
  unfolding points_at lower_bound find
  points_at-lower_bound k [] s h = refl
  points_at-lower_bound k ((j, v) ∷ m) s h = ground (
    arith,
    points_at-lower_bound k m s.1,
    key_eq_of_lt j k,
    key_lt_total j k,
    find-Above k m,
    Above-trans k j (keys m),
    key_eq_refl j,
  )

idx_insert-Above : (k : OrderKey) (l : List OrderKey) → Above k l → idx_insert k l ≡ k ∷ l
unfolding idx_insert
idx_insert-Above k [] a = refl
idx_insert-Above k (j ∷ l) a = ground (arith, key_lt_asymm k j)

-- The two cases of an insertion, over the tests' values and the lists of live keys.
insert_below :
    (b c : Bool) (j k : OrderKey) (l r : List OrderKey)
    → key_lt j k ≡ true
    → r ≡ (if b then idx_insert k l else l)
    → (if c then j ∷ r else r)
      ≡ (if b then idx_insert k (if c then j ∷ l else l) else if c then j ∷ l else l)
unfolding idx_insert
insert_below b c j k l r h e = ground arith

insert_past :
    (b : Bool) (k : OrderKey) (l : List OrderKey)
    → Above k l
    → (if b then k ∷ l else l) ≡ (if b then idx_insert k l else l)
insert_past true k l a = sym (idx_insert-Above k l a)
insert_past false k l a = refl

if-Above :
    (c : Bool) (j k : OrderKey) (l : List OrderKey)
    → key_lt k j ≡ true
    → Above k l
    → Above k (if c then j ∷ l else l)
if-Above true j k l h a = (h, a)
if-Above false j k l h a = a

pub find_tail :
    {V : Type 0} (j k : OrderKey) (v : V) (m : Map V) → find k ((j, v) ∷ m) ≡ none → find k m ≡ none
unfolding find
find_tail j k v m h = ground arith

pub find_ne :
    {V : Type 0} (j k : OrderKey) (v : V) (m : Map V)
    → find k ((j, v) ∷ m) ≡ none
    → key_eq j k ≡ false
unfolding find
find_ne j k v m h = ground arith

pub gt_of_ne : (j k : OrderKey) → key_eq j k ≡ false → key_lt j k ≡ false → key_lt k j ≡ true
gt_of_ne j k n h = ground (arith, key_lt_total j k, key_eq_refl j)

-- Accepting an order under a new key inserts the key into its side's index.
pub live_keys-emplace :
    (side : Side) (k : OrderKey) (o : Order) (m : Map Order)
    → IsSorted (keys m)
    → find k m ≡ none
    → live_keys side (emplace k o m)
      ≡ (if is_live_on side o then idx_insert k (live_keys side m) else live_keys side m)
unfolding emplace
live_keys-emplace side k o [] s f = unfold idx_insert in refl
live_keys-emplace side k o ((j, w) ∷ m) s f = elim (Bool-cases (key_lt j k)) [
  | inl below ↦
      rw (below, emplace)
        (insert_below (is_live_on side o) (is_live_on side w) j k (live_keys side m) _ below
          (live_keys-emplace side k o m s.1 (find_tail j k w m f)))
  | inr at_or_above ↦
      let above = gt_of_ne j k (find_ne j k w m f) at_or_above in
      rw (at_or_above, above, emplace)
        (insert_past (is_live_on side o) k (live_keys side ((j, w) ∷ m)) (
          if-Above (is_live_on side w) j k (live_keys side m) above
            (live_keys-Above side k m (Above-trans k j (keys m) above s.0))))
]

-- A write that keeps the order live, or not live, on a side leaves that side's keys.
pub live_keys-update_at :
    (side : Side) (k : OrderKey) (f : Order → Order) (o : Order) (m : Map Order)
    → find k m ≡ some o
    → is_live_on side (f o) ≡ is_live_on side o
    → live_keys side (update_at k f m) ≡ live_keys side m
unfolding update_at find
live_keys-update_at side k f o [] h e = refl
live_keys-update_at side k f o ((j, w) ∷ m) h e = elim (Bool-cases (key_eq j k)) [
  | inl hit ↦ let same : w ≡ o = ground arith in rw (hit, update_at, same, e) refl
  | inr miss ↦
      let rest : find k m ≡ some o = ground arith in
      rw (miss, update_at, live_keys-update_at side k f o m rest e) refl
]

-- A write that ends a live order erases its key from the side's index.
pub live_keys-update_at_end :
    (side : Side) (k : OrderKey) (f : Order → Order) (o : Order) (m : Map Order)
    → find k m ≡ some o
    → is_live_on side o ≡ true
    → is_live_on side (f o) ≡ false
    → live_keys side (update_at k f m) ≡ idx_erase k (live_keys side m)
unfolding update_at find idx_erase
live_keys-update_at_end side k f o [] h l e = refl
live_keys-update_at_end side k f o ((j, w) ∷ m) h l e = elim (Bool-cases (key_eq j k)) [
  | inl hit ↦
      let same : w ≡ o = ground arith in rw (hit, update_at, same, e, l, idx_erase, hit) refl
  | inr miss ↦
      let rest : find k m ≡ some o = ground arith in
      rw (miss, update_at, live_keys-update_at_end side k f o m rest l e) (ground arith)
]
