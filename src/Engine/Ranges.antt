-- ===== src/Engine/Ranges.antt =====
-- session_range and the erasure of a session's range (cpp/include/mm/engine.hpp) on a sorted
-- container: the session's elements, and all the others.
use market_maker_proto.Prelude.{
  ℕ, suc, ◌≤◌, ◌≡◌, refl, ap, Bool, true, not, arith, ltb, ◌==◌, Bool-cases, inl, inr, List, [],
  ◌∷◌, map, All, filter,
}
use market_maker_proto.Prelude.Text.{bytes_lt}
use market_maker_proto.Types.{Side}
use market_maker_proto.Engine.Keys.{OrderKey, key_lt, Above, IsSorted}
use market_maker_proto.Engine.Containers.{
  Map, session_floor, take_while, drop_while, session_range, erase_range,
}
use market_maker_proto.Engine.State.{Order}
use market_maker_proto.Engine.Live.{live_keys}

-- A key is below a session's floor exactly when its session is smaller.
key_lt-session_floor :
    (k : OrderKey) (session : ℕ) → key_lt k (session_floor session) ≡ ltb k.0 session
unfolding key_lt bytes_lt
key_lt-session_floor (s, []) session = ground arith
key_lt-session_floor (s, b ∷ x) session = ground arith

key_lt-le : (j k : OrderKey) → key_lt j k ≡ true → j.0 ≤ k.0
unfolding key_lt
key_lt-le (s, x) (t, y) h = ground arith

module _ {A : Type 0} (key : A → OrderKey) (session : ℕ) where
  abbrev pub of_session : A → Bool
  of_session a = (key a).0 == session

  abbrev pub of_others : A → Bool
  of_others a = not ((key a).0 == session)

  abbrev FromSession : ℕ → List A → Type 0
  FromSession s = All (λ a. s ≤ (key a).0)

  Above-FromSession : (k : OrderKey) (c : List A) → Above k (map key c) → FromSession k.0 c
  Above-FromSession k [] a = tt
  Above-FromSession k (x ∷ c) a = (key_lt-le k (key x) a.0, Above-FromSession k c a.1)

  FromSession-mono : (s t : ℕ) (c : List A) → s ≤ t → FromSession t c → FromSession s c
  FromSession-mono s t [] h a = tt
  FromSession-mono s t (x ∷ c) h a = (omega arith, FromSession-mono s t c h a.1)

  -- Past the session nothing is of the session.
  filter_past :
      (c : List A)
      → FromSession (suc session) c
      → (filter of_session c ≡ []) × (filter of_others c ≡ c)
  filter_past [] a = (refl, refl)
  filter_past (x ∷ c) a = ground (arith, filter_past c)

  -- From the floor on, the session's elements come first.
  split_from :
      (c : List A)
      → IsSorted (map key c)
      → FromSession session c
      → (take_while of_session c ≡ filter of_session c)
        × (drop_while of_session c ≡ filter of_others c)
  split_from [] s a = (refl, refl)
  split_from (x ∷ c) s a = elim (Bool-cases ((key x).0 == session)) [
    | inl here ↦ ground (arith, split_from c s.1 a.1)
    | inr past ↦
        let above : FromSession (suc session) c =
          FromSession-mono (suc session) (key x).0 c (ground arith)
            (Above-FromSession (key x) c s.0) in
        ground (arith, filter_past c above)
  ]

  from_here :
      (x : A) (c : List A)
      → IsSorted (map key (x ∷ c))
      → session ≤ (key x).0
      → FromSession session (x ∷ c)
  from_here x c s h = (h, FromSession-mono session (key x).0 c h (Above-FromSession (key x) c s.0))

  -- On a sorted container the range is the session's elements, in order.
  pub session_range_lem :
      (c : List A) → IsSorted (map key c) → session_range key session c ≡ filter of_session c
  unfolding session_range
  session_range_lem [] s = refl
  session_range_lem (x ∷ c) s = elim (Bool-cases (key_lt (key x) (session_floor session))) [
    | inl below ↦
        rw (below, session_range)
          (ground (arith, session_range_lem c s.1, key_lt-session_floor (key x) session))
    | inr from ↦
        let h : session ≤ (key x).0 = ground (arith, key_lt-session_floor (key x) session) in
        rw (from, session_range) (split_from (x ∷ c) s (from_here x c s h)).0
  ]

  -- Erasing the range keeps all the other elements, in order.
  pub erase_range_lem :
      (c : List A) → IsSorted (map key c) → erase_range key session c ≡ filter of_others c
  unfolding erase_range
  erase_range_lem [] s = refl
  erase_range_lem (x ∷ c) s = elim (Bool-cases (key_lt (key x) (session_floor session))) [
    | inl below ↦
        rw (below, erase_range)
          (ground (arith, erase_range_lem c s.1, key_lt-session_floor (key x) session))
    | inr from ↦
        let h : session ≤ (key x).0 = ground (arith, key_lt-session_floor (key x) session) in
        rw (from, erase_range) (split_from (x ∷ c) s (from_here x c s h)).1
  ]

  filter-Above :
      (p : A → Bool) (k : OrderKey) (c : List A)
      → Above k (map key c)
      → Above k (map key (filter p c))
  filter-Above p k [] a = tt
  filter-Above p k (x ∷ c) a = ground (arith, filter-Above p k c a.1)

  pub filter-IsSorted :
      (p : A → Bool) (c : List A) → IsSorted (map key c) → IsSorted (map key (filter p c))
  filter-IsSorted p [] s = tt
  filter-IsSorted p (x ∷ c) s =
      ground (arith, filter-IsSorted p c s.1, filter-Above p (key x) c s.0)

-- The live keys of the other sessions are the other sessions' live keys.
pub live_keys-filter :
    (side : Side) (p : OrderKey → Bool) (m : Map Order)
    → live_keys side (filter (λ x. p x.0) m) ≡ filter p (live_keys side m)
live_keys-filter side p [] = refl
live_keys-filter side p ((k, o) ∷ m) = elim (Bool-cases (p k)) [
  | inl y ↦ rw y (ground (arith, live_keys-filter side p m))
  | inr n ↦ rw n (ground (arith, live_keys-filter side p m))
]

pub map_id : (l : List OrderKey) → map (λ k. k) l ≡ l
map_id [] = refl
map_id (k ∷ l) = ap (◌∷◌ k) (map_id l)
