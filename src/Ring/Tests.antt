-- ===== src/Ring/Tests.antt =====
-- A concrete ring of cpp/include/mm/telemetry_ring.hpp.
use market_maker_proto.Prelude.{
  ℕ, ◌≡◌, refl, ◌+◌, ◌-◌, ◌%◌, ◌^◌, arith, true, some, List, [], ◌∷◌, length,
}
use market_maker_proto.Ring.Spsc.{SpscTelemetryRing, checked_capacity, bit_ceil_from, pending}
use market_maker_proto.Ring.Shared.{ShmRing, try_push, try_pop}
use market_maker_proto.Ring.Shared.Newest.{Stands, calls_refine, overwrite_all, overwrite_all_keeps}
use market_maker_proto.Ring.Queue.{
  IsCapacity, Refines, Call, push, take, ring_run, queue_run, queue_push, queue_pop, refused,
  ring_run-Refines,
}

-- An empty ring of two slots whose indices are about to wrap.
abbrev wrapping : SpscTelemetryRing ℕ
wrapping = record { head = 2 ^ 64 - 1; tail = 2 ^ 64 - 1; dropped = 0; slots = 0 ∷ 0 ∷ [] }

two_slots : IsCapacity 2
two_slots = record { log = 1; rounds = 2 ^ 63; power = refl; word = refl; bound = omega arith }

wrapping-Refines : Refines 2 (2 ^ 64 - 1) [] wrapping
wrapping-Refines = record {
  size = refl;
  head_at = refl;
  tail_at = refl;
  room = omega arith;
  holds = tt;
}

abbrev calls : List (Call ℕ)
calls = push 5 ∷ push 6 ∷ push 7 ∷ take ∷ push 8 ∷ take ∷ take ∷ take ∷ []

ring_run-Refines_example :
    let s = queue_run 2 [] calls in
    ((p : ℕ) × Refines 2 p s.0 (ring_run wrapping calls).0)
    × ((ring_run wrapping calls).1 ≡ s.1)
    × (pending (ring_run wrapping calls).0 ≡ length s.0)
    × ((ring_run wrapping calls).0.dropped % 2 ^ 64 ≡ (0 + refused s.1) % 2 ^ 64)
ring_run-Refines_example =
    ring_run-Refines two_slots (2 ^ 64 - 1) [] wrapping calls wrapping-Refines

rounds_up : checked_capacity 5 ≡ some 8
unfolding checked_capacity bit_ceil_from
rounds_up = refl

-- The same window in a mapped segment.
abbrev mapped : ShmRing ℕ
mapped = record {
  head = 2 ^ 64 - 1;
  tail = 2 ^ 64 - 1;
  dropped = 0;
  capacity = 2;
  capacity_mask = 1;
  slots = 0 ∷ 0 ∷ [];
}

mapped-Stands : Stands 2 (2 ^ 64 - 1) [] mapped
mapped-Stands = record { capacity_is = refl; mask_is = refl; refines = wrapping-Refines }

calls_refine_example :
    (Stands 2 (2 ^ 64 - 1) (queue_push {A = ℕ} 2 [] 9).0 (try_push mapped 9 true).0
      × ((try_push mapped 9 true).1 ≡ (queue_push {A = ℕ} 2 [] 9).1))
    × (((p' : ℕ) × Stands 2 p' (queue_pop {A = ℕ} []).0 (try_pop mapped).0)
        × ((try_pop mapped).1 ≡ (queue_pop {A = ℕ} []).1))
calls_refine_example = calls_refine two_slots (2 ^ 64 - 1) [] mapped 9 true mapped-Stands

overwrite_all_keeps_example :
    ((p' : ℕ) × Stands 2 p' (8 ∷ 9 ∷ []) (overwrite_all mapped (6 ∷ 7 ∷ 8 ∷ 9 ∷ [])))
    × ((overwrite_all mapped (6 ∷ 7 ∷ 8 ∷ 9 ∷ [])).dropped % 2 ^ 64 ≡ 2)
overwrite_all_keeps_example =
    overwrite_all_keeps two_slots (2 ^ 64 - 1) [] mapped (6 ∷ 7 ∷ 8 ∷ 9 ∷ []) mapped-Stands
