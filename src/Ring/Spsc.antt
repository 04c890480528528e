-- ===== src/Ring/Spsc.antt =====
-- SpscTelemetryRing (cpp/include/mm/telemetry_ring.hpp), over any type of record.
use Prim.Native.Nat.{bit_and}
use market_maker_proto.Prelude.{
  ℕ, zero, suc, ◌+◌, ◌-◌, ◌*◌, ◌%◌, ◌^◌, Bool, true, false, ◌==◌, ltb, leb, inc_u64, if◌then◌else◌,
  Option, none, some, List, [], ◌∷◌, length, get_elem?, set,
}

-- a - b on std::uint64_t.
abbrev pub sub_u64 : ℕ → ℕ → ℕ
sub_u64 a b = (a + (2 ^ 64 - b)) % 2 ^ 64

pub record SpscTelemetryRing {ℓ} (A : Type ℓ) : Type ℓ where
  pub head : ℕ
  pub tail : ℕ
  pub dropped : ℕ
  pub slots : List A

-- The least power of two that is at least `n`, sought from `p` in at most `fuel` doublings.
unfoldable pub bit_ceil_from : ℕ → ℕ → ℕ → ℕ
bit_ceil_from zero p n = p
bit_ceil_from (suc fuel) p n =
    let next = bit_ceil_from fuel (p * 2) n in if leb n p then p else next

abbrev pub bit_ceil : ℕ → ℕ
bit_ceil n = bit_ceil_from 64 1 n

-- `none` is std::invalid_argument.
unfoldable pub checked_capacity : ℕ → Option ℕ
checked_capacity min_capacity =
    if min_capacity == 0
    then none
    else if ltb (2 ^ 63) min_capacity
    then none
    else some (bit_ceil min_capacity)

module _ {ℓ} {A : Type ℓ} where
  abbrev pub replicate : ℕ → A → List A
  replicate zero a = []
  replicate (suc n) a = a ∷ replicate n a

  -- `blank` is a value-initialised record.
  unfoldable pub spsc_telemetry_ring : A → ℕ → Option (SpscTelemetryRing A)
  spsc_telemetry_ring blank min_capacity = elim (checked_capacity min_capacity) [
    | none ↦ none
    | some capacity ↦
        some (record { head = 0; tail = 0; dropped = 0; slots = replicate capacity blank })
  ]

  unfoldable pub is_full : SpscTelemetryRing A → Bool
  is_full r = sub_u64 r.tail r.head == length r.slots

  unfoldable pub try_push : SpscTelemetryRing A → A → SpscTelemetryRing A × Bool
  try_push r rec = if is_full r then (record r { dropped = inc_u64 r.dropped }, false) else (
    record r {
      slots = set r.slots (bit_and r.tail (length r.slots - 1)) rec;
      tail = inc_u64 r.tail;
    },
    true,
  )

  -- `none` leaves the caller's record untouched.
  unfoldable pub try_pop : SpscTelemetryRing A → SpscTelemetryRing A × Option A
  try_pop r = if r.tail == r.head then (r, none) else (
    record r { head = inc_u64 r.head },
    get_elem? r.slots (bit_and r.head (length r.slots - 1)),
  )

  unfoldable pub pending : SpscTelemetryRing A → ℕ
  pending r = sub_u64 r.tail r.head

  unfoldable pub capacity : SpscTelemetryRing A → ℕ
  capacity r = length r.slots
