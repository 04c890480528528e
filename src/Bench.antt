-- ===== src/Bench.antt =====
-- BenchRecorder (cpp/include/mm/bench_recorder.hpp): the correlation window of the published ticks and
-- the four streams of samples. The slots, 65536 of them, are a function of the index.
pub mod Samples
pub mod Capacity
pub mod Dump
mod Tests
use market_maker_proto.Prelude.{
  ℕ, zero, suc, ◌+◌, ◌/◌, ◌%◌, ◌^◌, Bool, true, false, not, ◌||◌, ◌==◌, if◌then◌else◌, Option, none,
  some, List, [], ◌∷◌, ◌++◌, length, inc_u64, leb,
}
use market_maker_proto.Prelude.Int.{ℤ, pos, ◌-ℤ◌, eqb_ℤ, to_u64}
use market_maker_proto.Prelude.Text.{Bytes}

pub record Slot : Type 0 where
  pub md_seq : ℕ
  pub m0_ns : ℤ
  pub m0p_ns : ℤ
  pub m3_taken : Bool

pub record BenchRecorder : Type 0 where
  pub slots : ℕ → Slot
  pub capacity : ℕ
  pub svc_samples : List ℤ
  pub m0_m0p : List ℤ
  pub m0p_m3 : List ℤ
  pub m0_m3 : List ℤ
  pub saturated : ℕ

abbrev pub correlation_slots : ℕ
correlation_slots = 65536

abbrev pub empty_slot : Slot
empty_slot = record { md_seq = 0; m0_ns = pos 0; m0p_ns = pos 0; m3_taken = false }

-- `none` is std::invalid_argument.
unfoldable pub bench_recorder : ℕ → Option BenchRecorder
bench_recorder capacity =
    if capacity == 0
    then none
    else some (record {
      slots = λ _. empty_slot;
      capacity = capacity;
      svc_samples = [];
      m0_m0p = [];
      m0p_m3 = [];
      m0_m3 = [];
      saturated = 0;
    })

-- slots_[md_seq % slots_.size()] = slot.
abbrev pub put_slot : (ℕ → Slot) → ℕ → Slot → ℕ → Slot
put_slot slots md_seq slot i = if i == md_seq % correlation_slots then slot else slots i

unfoldable pub md_published : BenchRecorder → ℕ → ℤ → BenchRecorder
md_published r md_seq m0_ns = if md_seq == 0 then r else record r {
  slots =
      put_slot r.slots md_seq
        (record { md_seq = md_seq; m0_ns = m0_ns; m0p_ns = pos 0; m3_taken = false });
}

unfoldable pub find : BenchRecorder → ℕ → Option Slot
find r md_seq =
    let slot = r.slots (md_seq % correlation_slots) in
    if md_seq == 0 then none else if slot.md_seq == md_seq then some slot else none

-- The stream after the sample, and 1 for a sample that it refuses.
unfoldable pub append : ℕ → List ℤ → ℤ → List ℤ × Bool
append capacity stream sample =
    if length stream == capacity then (stream, false) else (stream ++ (sample ∷ []), true)

-- The increment of a refusal.
abbrev pub count_refusal : Bool → ℕ → ℕ
count_refusal true n = n
count_refusal false n = inc_u64 n

abbrev pub append_m0_m0p : BenchRecorder → ℤ → BenchRecorder
append_m0_m0p r sample =
    let a = append r.capacity r.m0_m0p sample in
    record r { m0_m0p = a.0; saturated = count_refusal a.1 r.saturated }

abbrev pub append_m0p_m3 : BenchRecorder → ℤ → BenchRecorder
append_m0p_m3 r sample =
    let a = append r.capacity r.m0p_m3 sample in
    record r { m0p_m3 = a.0; saturated = count_refusal a.1 r.saturated }

abbrev pub append_m0_m3 : BenchRecorder → ℤ → BenchRecorder
append_m0_m3 r sample =
    let a = append r.capacity r.m0_m3 sample in
    record r { m0_m3 = a.0; saturated = count_refusal a.1 r.saturated }

unfoldable pub write_tick : BenchRecorder → ℕ → ℤ → Slot → BenchRecorder
write_tick r md_seq m0p_ns slot =
    if not (eqb_ℤ slot.m0p_ns (pos 0))
    then r
    else append_m0_m0p
        (record r { slots = put_slot r.slots md_seq (record slot { m0p_ns = m0p_ns }) })
        (m0p_ns -ℤ slot.m0_ns)

unfoldable pub md_written : BenchRecorder → ℕ → ℤ → BenchRecorder
md_written r md_seq m0p_ns = elim (find r md_seq) [
  | none ↦ r
  | some slot ↦ write_tick r md_seq m0p_ns slot
]

unfoldable pub take_order : BenchRecorder → ℕ → ℤ → Slot → BenchRecorder
take_order r md_seq m3_ns slot =
    let marked : BenchRecorder = record r {
      slots = put_slot r.slots md_seq (record slot { m3_taken = true });
    } in
    if slot.m3_taken
    then r
    else if not (eqb_ℤ slot.m0p_ns (pos 0))
    then append_m0_m3 (append_m0p_m3 marked (m3_ns -ℤ slot.m0p_ns)) (m3_ns -ℤ slot.m0_ns)
    else append_m0_m3 marked (m3_ns -ℤ slot.m0_ns)

unfoldable pub order_for : BenchRecorder → ℕ → ℤ → BenchRecorder
order_for r md_seq m3_ns = elim (find r md_seq) [
  | none ↦ r
  | some slot ↦ take_order r md_seq m3_ns slot
]

unfoldable pub svc : BenchRecorder → ℤ → BenchRecorder
svc r sample =
    let a = append r.capacity r.svc_samples sample in
    record r { svc_samples = a.0; saturated = count_refusal a.1 r.saturated }

-- The bytes of a 64-bit word in memory, the lowest first.
unfoldable pub word_bytes : ℕ → ℕ → Bytes
word_bytes zero n = []
word_bytes (suc k) n = (n % 256) ∷ word_bytes k (n / 256)

abbrev pub header_bytes : List ℕ → Bytes
header_bytes [] = []
header_bytes (n ∷ ns) = word_bytes 8 n ++ header_bytes ns

abbrev pub stream_bytes : List ℤ → Bytes
stream_bytes [] = []
stream_bytes (s ∷ ss) = word_bytes 8 (to_u64 s) ++ stream_bytes ss

unfoldable pub serialize : BenchRecorder → ℕ → Bytes
serialize r peak_sessions =
    header_bytes (
      length r.svc_samples
      ∷ length r.m0_m0p
      ∷ length r.m0p_m3
      ∷ length r.m0_m3
      ∷ r.saturated
      ∷ peak_sessions
      ∷ [])
    ++ (stream_bytes r.svc_samples
        ++ (stream_bytes r.m0_m0p ++ (stream_bytes r.m0p_m3 ++ stream_bytes r.m0_m3)))

-- `none` is std::runtime_error, when the stream has failed after the write and the flush.
unfoldable pub dump : BenchRecorder → ℕ → Bool → Option Bytes
dump r peak_sessions ok = if ok then some (serialize r peak_sessions) else none
