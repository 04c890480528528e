-- ===== src/Bench/Capacity.antt =====
-- The streams of a BenchRecorder (cpp/include/mm/bench_recorder.hpp) stay within its capacity.
use market_maker_proto.Prelude.{
  ℕ, ◌≤◌, not, ◌==◌, arith, List, [], ◌∷◌, length, length-append, Bool-cases, Option-cases, inl,
  inr,
}
use market_maker_proto.Prelude.Int.{ℤ, pos, ◌-ℤ◌, eqb_ℤ}
use market_maker_proto.Bench.{
  BenchRecorder, Slot, md_published, md_written, order_for, svc, find, append, write_tick,
  take_order,
}

pub data Call : Type 0 where
  published written order : ℕ → ℤ → Call
  service : ℤ → Call

unfoldable pub step : BenchRecorder → Call → BenchRecorder
step r (published md_seq t) = md_published r md_seq t
step r (written md_seq t) = md_written r md_seq t
step r (order md_seq t) = order_for r md_seq t
step r (service t) = svc r t

unfoldable pub run : BenchRecorder → List Call → BenchRecorder
run r [] = r
run r (c ∷ cs) = run (step r c) cs

-- No stream is past the capacity.
pub record Within (r : BenchRecorder) : Type 0 where
  pub svc_fits : length r.svc_samples ≤ r.capacity
  pub m0_m0p_fits : length r.m0_m0p ≤ r.capacity
  pub m0p_m3_fits : length r.m0p_m3 ≤ r.capacity
  pub m0_m3_fits : length r.m0_m3 ≤ r.capacity

append_fits :
    (capacity : ℕ) (stream : List ℤ) (sample : ℤ)
    → length stream ≤ capacity
    → length (append capacity stream sample).0 ≤ capacity
unfolding append
append_fits capacity stream sample h = ground (arith, length-append stream (sample ∷ []))

write_tick-Within :
    (r : BenchRecorder) (md_seq : ℕ) (t : ℤ) (slot : Slot)
    → Within r
    → Within (write_tick r md_seq t slot)
unfolding write_tick
write_tick-Within r md_seq t slot w = elim (Bool-cases (not (eqb_ℤ slot.m0p_ns (pos 0)))) [
  | inl e ↦ rw e w
  | inr e ↦ rw e (record {
    svc_fits = w.svc_fits;
    m0_m0p_fits = append_fits r.capacity r.m0_m0p (t -ℤ slot.m0_ns) w.m0_m0p_fits;
    m0p_m3_fits = w.m0p_m3_fits;
    m0_m3_fits = w.m0_m3_fits;
  })
]

take_order-Within :
    (r : BenchRecorder) (md_seq : ℕ) (t : ℤ) (slot : Slot)
    → Within r
    → Within (take_order r md_seq t slot)
unfolding take_order
take_order-Within r md_seq t slot w = elim (Bool-cases slot.m3_taken) [
  | inl e ↦ rw e w
  | inr e ↦ elim (Bool-cases (not (eqb_ℤ slot.m0p_ns (pos 0)))) [
    | inl f ↦
        rw (e, f)
          (record {
            svc_fits = w.svc_fits;
            m0_m0p_fits = w.m0_m0p_fits;
            m0p_m3_fits = append_fits r.capacity r.m0p_m3 (t -ℤ slot.m0p_ns) w.m0p_m3_fits;
            m0_m3_fits = append_fits r.capacity r.m0_m3 (t -ℤ slot.m0_ns) w.m0_m3_fits;
          })
    | inr f ↦
        rw (e, f)
          (record {
            svc_fits = w.svc_fits;
            m0_m0p_fits = w.m0_m0p_fits;
            m0p_m3_fits = w.m0p_m3_fits;
            m0_m3_fits = append_fits r.capacity r.m0_m3 (t -ℤ slot.m0_ns) w.m0_m3_fits;
          })
  ]
]

step-Within : (r : BenchRecorder) (c : Call) → Within r → Within (step r c)
unfolding step md_published md_written order_for svc
step-Within r (published md_seq t) w = elim (Bool-cases (md_seq == 0)) [
  | inl e ↦ rw e w
  | inr e ↦ rw e (record {
    svc_fits = w.svc_fits;
    m0_m0p_fits = w.m0_m0p_fits;
    m0p_m3_fits = w.m0p_m3_fits;
    m0_m3_fits = w.m0_m3_fits;
  })
]
step-Within r (written md_seq t) w = elim (Option-cases (find r md_seq)) [
  | inl e ↦ rw (md_written, e) w
  | inr (slot, e) ↦ rw (md_written, e) (write_tick-Within r md_seq t slot w)
]
step-Within r (order md_seq t) w = elim (Option-cases (find r md_seq)) [
  | inl e ↦ rw (order_for, e) w
  | inr (slot, e) ↦ rw (order_for, e) (take_order-Within r md_seq t slot w)
]
step-Within r (service t) w = record {
  svc_fits = append_fits r.capacity r.svc_samples t w.svc_fits;
  m0_m0p_fits = w.m0_m0p_fits;
  m0p_m3_fits = w.m0p_m3_fits;
  m0_m3_fits = w.m0_m3_fits;
}

-- No call grows a stream past the capacity, so no stream is reallocated: after any sequence of calls
-- on a recorder whose four streams are within the capacity, they still are.
pub run-Within : (r : BenchRecorder) (cs : List Call) → Within r → Within (run r cs)
unfolding run
run-Within r [] w = w
run-Within r (c ∷ cs) w = run-Within (step r c) cs (step-Within r c w)
