-- ===== src/Ring/Shared.antt =====
-- ShmRing (cpp/include/mm/shm_ring.hpp): the header and the slots of a mapped segment, the calls of the
-- producer and the consumer, and the bounded queue they work on. The segment is mapped here.
pub mod Newest
use Prim.Native.Nat.{bit_and}
use market_maker_proto.Prelude.{
  ℕ, zero, suc, ◌≡◌, refl, sym, ap, subst, ◌∙◌, ◌+◌, ◌-◌, ◌%◌, ◌^◌, ◌≤◌, ◌<◌, Bool, true, false,
  not, ◌==◌, leb, ltb, arith, inc_u64, if◌then◌else◌, Bool-cases, inl, inr, Option, none, some,
  List, [], ◌∷◌, ◌++◌, length, length-append, get_elem?, set,
}
use market_maker_proto.Ring.Spsc.{SpscTelemetryRing, sub_u64, bit_ceil, replicate}
use market_maker_proto.Ring.Queue.{
  IsCapacity, Holds, Refines, fill_level, accepts, queue_push, queue_pop, slot_of,
}

abbrev pub magic : ℕ
magic = 0x53484d52

pub record ShmRing {ℓ} (A : Type ℓ) : Type ℓ where
  pub head : ℕ
  pub tail : ℕ
  pub dropped : ℕ
  pub capacity : ℕ
  pub capacity_mask : ℕ
  pub slots : List A

-- `none` is std::invalid_argument.
unfoldable pub segment_capacity : ℕ → Option ℕ
segment_capacity min_capacity =
    if min_capacity == 0
    then none
    else if ltb 1048576 min_capacity
    then none
    else some (bit_ceil min_capacity)

module _ {ℓ} {A : Type ℓ} where
  -- What `create` writes to the zeroed segment.
  unfoldable pub fresh_segment : A → ℕ → Option (ShmRing A)
  fresh_segment blank min_capacity = elim (segment_capacity min_capacity) [
    | none ↦ none
    | some capacity ↦ some (record {
      head = 0;
      tail = 0;
      dropped = 0;
      capacity = capacity;
      capacity_mask = capacity - 1;
      slots = replicate capacity blank;
    })
  ]

  unfoldable pub is_full : ShmRing A → Bool
  is_full r = leb r.capacity (sub_u64 r.tail r.head)

  unfoldable pub write_slot : ShmRing A → A → ShmRing A
  write_slot r slot = record r {
    slots = set r.slots (bit_and r.tail r.capacity_mask) slot;
    tail = inc_u64 r.tail;
  }

  unfoldable pub try_push : ShmRing A → A → Bool → ShmRing A × Bool
  try_push r slot count_drop =
      if is_full r
      then (if count_drop then record r { dropped = inc_u64 r.dropped } else r, false)
      else (write_slot r slot, true)

  unfoldable pub push_overwrite : ShmRing A → A → ShmRing A
  push_overwrite r slot =
      let r' =
        if is_full r then record r { head = inc_u64 r.head; dropped = inc_u64 r.dropped } else r in
      write_slot r' slot

  unfoldable pub try_pop : ShmRing A → ShmRing A × Option A
  try_pop r =
      if r.tail == r.head
      then (r, none)
      else (record r { head = inc_u64 r.head }, get_elem? r.slots (bit_and r.head r.capacity_mask))

  unfoldable pub pending : ShmRing A → ℕ
  pending r = sub_u64 r.tail r.head

  -- The two indices and the slots.
  abbrev pub window : ShmRing A → SpscTelemetryRing A
  window r = record { head = r.head; tail = r.tail; dropped = r.dropped; slots = r.slots }
