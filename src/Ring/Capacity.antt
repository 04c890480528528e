-- ===== src/Ring/Capacity.antt =====
-- The capacities of the rings (cpp/include/mm/telemetry_ring.hpp): the rounding up to a power of two,
-- and a ring as it is constructed.
use native.Mathlib.Nat.{mul_assoc}
use market_maker_proto.Prelude.{
  ℕ, zero, suc, ◌≡◌, ◌≢◌, refl, sym, ap, subst, ◌∙◌, ◌+◌, ◌-◌, ◌*◌, ◌^◌, ◌≤◌, ◌<◌, ◌⊎◌, ◌==◌, ltb,
  leb, arith, Bool-cases, inl, inr, false, some, [], length,
}
use market_maker_proto.Ring.Spsc.{
  SpscTelemetryRing, bit_ceil_from, checked_capacity, spsc_telemetry_ring, replicate, capacity,
}
use market_maker_proto.Ring.Queue.{IsCapacity, Refines}

pow_sum : (a b : ℕ) → 2 ^ (a + b) ≡ 2 ^ a * 2 ^ b
pow_sum a zero = let e : a + 0 ≡ a = omega arith in ap (λ x. 2 ^ x) e ∙ omega arith
pow_sum a (suc b) =
    let e : a + suc b ≡ suc (a + b) = omega arith in
    let d : 2 ^ suc b ≡ 2 ^ b * 2 = omega arith in
    let u : 2 ^ suc (a + b) ≡ 2 ^ (a + b) * 2 = omega arith in
    ap (λ x. 2 ^ x) e
    ∙ u
    ∙ ap (λ x. x * 2) (pow_sum a b)
    ∙ mul_assoc (2 ^ a) (2 ^ b) 2
    ∙ ap (λ x. 2 ^ a * x) (sym d)

-- The power of two that the search from `2 ^ j` finds.
ceil_from :
    (fuel j n : ℕ)
    → n ≤ 2 ^ (j + fuel)
    → (k : ℕ) × (bit_ceil_from fuel (2 ^ j) n ≡ 2 ^ k)
      × (k ≤ j + fuel)
      × (n ≤ 2 ^ k)
      × ((k ≡ j) ⊎ (2 ^ k < 2 * n))
unfolding bit_ceil_from
ceil_from zero j n h = (
  j,
  refl,
  omega arith,
  (let e : j + 0 ≡ j = omega arith in subst (λ x. n ≤ 2 ^ x) e h),
  inl refl,
)
ceil_from (suc fuel) j n h = elim (Bool-cases (leb n (2 ^ j))) [
  | inl e ↦ rw (bit_ceil_from, e) (j, refl, omega arith, ground arith, inl refl)
  | inr e ↦
      let bound : n ≤ 2 ^ (suc j + fuel) =
        let d : j + suc fuel ≡ suc j + fuel = omega arith in subst (λ x. n ≤ 2 ^ x) d h in
      let doubled : 2 ^ j * 2 ≡ 2 ^ suc j = omega arith in
      let (k, f, l, m, t) = ceil_from fuel (suc j) n bound in
      rw (bit_ceil_from, e)
        (k, ap (λ x. bit_ceil_from fuel x n) doubled ∙ f, omega arith, m, inr (tight k t e))
]
  where
    tight : (k : ℕ) → (k ≡ suc j) ⊎ (2 ^ k < 2 * n) → leb n (2 ^ j) ≡ false → 2 ^ k < 2 * n
    tight k (inl a) e =
        let p : 2 ^ k ≡ 2 ^ suc j = ap (λ x. 2 ^ x) a in
        let q : 2 ^ j < n = ground arith in omega arith
    tight k (inr b) e = b

checked :
    (n : ℕ)
    → n ≢ 0
    → n ≤ 2 ^ 63
    → (cap : ℕ) × (checked_capacity n ≡ some cap) × IsCapacity cap × (n ≤ cap) × (cap < 2 * n)
unfolding checked_capacity
checked n z h =
    let (k, f, l, m, t) = ceil_from 64 0 n (omega arith) in
    let positive : (n == 0) ≡ false = ground arith in
    let small : ltb (2 ^ 63) n ≡ false = ground arith in
    let below : 2 ^ k < 2 * n = least k t in
    let split : 64 ≡ 64 - k + k = omega arith in
    (
      2 ^ k,
      rw (positive, small) (ap some f),
      record {
        log = k;
        rounds = 2 ^ (64 - k);
        power = refl;
        word = ap (λ x. 2 ^ x) split ∙ pow_sum (64 - k) k;
        bound = omega arith;
      },
      m,
      below,
    )
  where
    least : (k : ℕ) → (k ≡ 0) ⊎ (2 ^ k < 2 * n) → 2 ^ k < 2 * n
    least k (inl a) = let p : 2 ^ k ≡ 2 ^ 0 = ap (λ x. 2 ^ x) a in omega arith
    least k (inr b) = b

length-replicate : {A : Type 0} (n : ℕ) (a : A) → length (replicate n a) ≡ n
length-replicate zero a = refl
length-replicate (suc n) a = ap suc (length-replicate n a)

-- A ring asked for at least one slot and at most 2^63 is constructed: its capacity is a power of two,
-- no less than what was asked for and less than twice that, and it stands for the empty queue.
pub spsc_telemetry_ring-Refines :
    {A : Type 0} (blank : A) (n : ℕ)
    → n ≢ 0
    → n ≤ 2 ^ 63
    → (r : SpscTelemetryRing A) × (spsc_telemetry_ring blank n ≡ some r)
      × IsCapacity (capacity r)
      × (n ≤ capacity r)
      × (capacity r < 2 * n)
      × Refines (capacity r) 0 [] r
unfolding spsc_telemetry_ring capacity
spsc_telemetry_ring-Refines blank n z h =
    let (cap, f, c, m, t) = checked n z h in
    let ring : SpscTelemetryRing _ = record {
      head = 0;
      tail = 0;
      dropped = 0;
      slots = replicate cap blank;
    } in
    let e : length (replicate cap blank) ≡ cap = length-replicate cap blank in
    (
      ring,
      rw (spsc_telemetry_ring, f) refl,
      rw e c,
      rw e m,
      rw e t,
      record { size = refl; head_at = refl; tail_at = refl; room = omega arith; holds = tt },
    )
