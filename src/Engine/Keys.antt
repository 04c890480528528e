-- ===== src/Engine/Keys.antt =====
-- OrderKey and KeyLess of cpp/include/mm/engine.hpp: the (session, cl_id) key, its equality and its
-- strict total order.
use market_maker_proto.Prelude.{
  ℕ, ◌≡◌, Bool, true, false, ◌&&◌, arith, ltb, ◌==◌, if◌then◌else◌, List, [], ◌∷◌, All,
}
use market_maker_proto.Prelude.Text.{
  Bytes, bytes_eq, bytes_lt, bytes_eq→eq, bytes_eq_refl, bytes_lt_irrefl, bytes_lt_trans,
  bytes_lt_total,
}

abbrev pub OrderKey : Type 0
OrderKey = ℕ × Bytes

unfoldable pub key_lt : OrderKey → OrderKey → Bool
key_lt a b = if a.0 == b.0 then bytes_lt a.1 b.1 else ltb a.0 b.0

unfoldable pub key_eq : OrderKey → OrderKey → Bool
key_eq a b = a.0 == b.0 && bytes_eq a.1 b.1

pub key_eq→eq : (a b : OrderKey) → key_eq a b ≡ true → a ≡ b
unfolding key_eq
key_eq→eq (s, x) (t, y) h = ground (arith, bytes_eq→eq x y)

pub key_eq_refl : (a : OrderKey) → key_eq a a ≡ true
unfolding key_eq
key_eq_refl (s, x) = ground (arith, bytes_eq_refl x)

pub key_lt_irrefl : (a : OrderKey) → key_lt a a ≡ false
unfolding key_lt
key_lt_irrefl (s, x) = ground (arith, bytes_lt_irrefl x)

pub key_lt_trans : (a b c : OrderKey) → key_lt a b ≡ true → key_lt b c ≡ true → key_lt a c ≡ true
unfolding key_lt
key_lt_trans (s, x) (t, y) (u, z) h k = ground (arith, bytes_lt_trans x y z)

pub key_lt_total : (a b : OrderKey) → key_lt a b ≡ false → key_lt b a ≡ false → a ≡ b
unfolding key_lt
key_lt_total (s, x) (t, y) h k = ground (arith, bytes_lt_total x y)

pub key_eq_of_lt : (a b : OrderKey) → key_lt a b ≡ true → key_eq a b ≡ false
key_eq_of_lt a b h = ground (arith, key_eq→eq a b, key_lt_irrefl a)

pub key_eq_of_gt : (a b : OrderKey) → key_lt b a ≡ true → key_eq a b ≡ false
key_eq_of_gt a b h = ground (arith, key_eq→eq a b, key_lt_irrefl a)

pub key_lt_asymm : (a b : OrderKey) → key_lt a b ≡ true → key_lt b a ≡ false
key_lt_asymm a b h = ground (arith, key_lt_trans a b a, key_lt_irrefl a)

-- Every key of the list is above `k`.
abbrev pub Above : OrderKey → List OrderKey → Type 0
Above k = All (λ j. key_lt k j ≡ true)

pub Above-trans : (j k : OrderKey) (l : List OrderKey) → key_lt j k ≡ true → Above k l → Above j l
Above-trans j k [] h a = tt
Above-trans j k (i ∷ l) h a = (key_lt_trans j k i h a.0, Above-trans j k l h a.1)

-- Strictly ascending: the iteration order of a map or a set.
abbrev pub IsSorted : List OrderKey → Type 0
IsSorted [] = Unit {0}
IsSorted (k ∷ l) = Above k l × IsSorted l
