-- ===== src/Bench/Tests.antt =====
-- A bench recorder (cpp/include/mm/bench_recorder.hpp) on a concrete tick.
use market_maker_proto.Prelude.{◌≡◌, refl, some, [], ◌∷◌, ◌++◌, arith}
use market_maker_proto.Prelude.Int.{pos, negsuc, ◌+ℤ◌, ◌-ℤ◌}
use market_maker_proto.Bench.{
  BenchRecorder, empty_slot, md_published, md_written, order_for, serialize,
}
use market_maker_proto.Bench.Samples.{tick_to_order}
use market_maker_proto.Bench.Dump.{Fits, read_dump, dump_of, read-serialize}

abbrev recorder : BenchRecorder
recorder = record {
  slots = λ _. empty_slot;
  capacity = 4;
  svc_samples = pos 300 ∷ negsuc 4 ∷ [];
  m0_m0p = [];
  m0p_m3 = pos 70000 ∷ [];
  m0_m3 = [];
  saturated = 1;
}

tick_to_order_example :
    let s =
      order_for (md_written (md_published recorder 65537 (pos 10)) 65537 (pos 14)) 65537 (pos 31) in
    (s.m0_m0p ≡ [] ++ ((pos 14 -ℤ pos 10) ∷ []))
    × (s.m0p_m3 ≡ (pos 70000 ∷ []) ++ ((pos 31 -ℤ pos 14) ∷ []))
    × (s.m0_m3 ≡ [] ++ (((pos 14 -ℤ pos 10) +ℤ (pos 31 -ℤ pos 14)) ∷ []))
    × (s.saturated ≡ 1)
tick_to_order_example =
    tick_to_order recorder 65537 (pos 10) (pos 14) (pos 31) refl refl
      (record { m0_m0p_room = refl; m0p_m3_room = refl; m0_m3_room = refl })

small : Fits recorder
small = record {
  svc_count = omega arith;
  m0_m0p_count = omega arith;
  m0p_m3_count = omega arith;
  m0_m3_count = omega arith;
  saturated_word = omega arith;
  svc_words = ((omega arith, omega arith), ((omega arith, omega arith), tt));
  m0_m0p_words = tt;
  m0p_m3_words = ((omega arith, omega arith), tt);
  m0_m3_words = tt;
}

read-serialize_example : read_dump (serialize recorder 2) ≡ some (dump_of recorder 2)
read-serialize_example = read-serialize recorder 2 small (omega arith)
