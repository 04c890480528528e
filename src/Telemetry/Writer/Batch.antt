-- ===== src/Telemetry/Writer/Batch.antt =====
-- What one batch of TelemetryWriter::drain (cpp/include/mm/telemetry.hpp) does to the ring and to the
-- stream.
use market_maker_proto.Prelude.{
  ℕ, suc, ◌≡◌, refl, sym, ◌∙◌, ◌+◌, ◌%◌, ◌^◌, Bool, true, not, ◌&&◌, ◌||◌, arith, if◌then◌else◌,
  some, List, [], ◌∷◌, ◌++◌, map, length, append-nil, append_assoc, Bool-cases, inl, inr,
}
use market_maker_proto.Ring.Spsc.{SpscTelemetryRing, try_pop, pending}
use market_maker_proto.Ring.Queue.{IsCapacity, Refines, queue_pop, try_pop-Refines, fill_level}
use market_maker_proto.Telemetry.{TelemetryRecord}
use market_maker_proto.Telemetry.Writer.{TelemetryWriter, emit_line, take_record, drain_loop, drain}

-- What a batch of the records `q` leaves.
pub record Drained (cap : ℕ) (q : List TelemetryRecord) (w d : TelemetryWriter) : Type 0 where
  pub position : ℕ
  pub emptied : Refines cap position [] d.ring
  pub lines : d.out ≡ w.out ++ (if w.output_failed then [] else map (emit_line w.ring.dropped) q)
  pub losses :
      d.lost_lines % 2 ^ 64 ≡ (w.lost_lines + (if w.output_failed then length q else 0)) % 2 ^ 64

loop_round :
    (n : ℕ) (w v : TelemetryWriter) (rec : TelemetryRecord)
    → (try_pop w.ring).1 ≡ some rec
    → take_record (record w { ring = (try_pop w.ring).0 }) rec ≡ v
    → drain_loop (suc n) w ≡ drain_loop n v
unfolding drain_loop
loop_round n w v rec e f = rw (drain_loop, e, f) refl

-- A batch over the rest of the queue, after one record counted or written.
next_round :
    (cap : ℕ) (rec : TelemetryRecord) (q : List TelemetryRecord) (w v d : TelemetryWriter)
    → v.ring.dropped ≡ w.ring.dropped
    → v.output_failed ≡ w.output_failed
    → v.out ≡ w.out ++ (if w.output_failed then [] else emit_line w.ring.dropped rec ∷ [])
    → v.lost_lines % 2 ^ 64 ≡ (w.lost_lines + (if w.output_failed then 1 else 0)) % 2 ^ 64
    → Drained cap q v d
    → Drained cap (rec ∷ q) w d
next_round cap rec q w v d e f g h b = record {
  position = b.position;
  emptied = b.emptied;
  lines = elim (Bool-cases w.output_failed) [
    | inl k ↦ ground (arith, b.lines, append-nil w.out)
    | inr k ↦ ground (
      arith,
      b.lines,
      append_assoc w.out (emit_line w.ring.dropped rec ∷ []) (map (emit_line w.ring.dropped) q),
    )
  ];
  losses = ground (arith, b.losses);
}

taken :
    (w : TelemetryWriter) (ring : SpscTelemetryRing TelemetryRecord) (rec : TelemetryRecord)
    → ring.dropped ≡ w.ring.dropped
    → let v = take_record (record w { ring = ring }) rec in
      (v.ring ≡ ring)
      × (v.output_failed ≡ w.output_failed)
      × (v.out ≡ w.out ++ (if w.output_failed then [] else emit_line w.ring.dropped rec ∷ []))
      × (v.lost_lines % 2 ^ 64 ≡ (w.lost_lines + (if w.output_failed then 1 else 0)) % 2 ^ 64)
unfolding take_record
taken w ring rec e = elim (Bool-cases w.output_failed) [
  | inl k ↦ rw k (refl, refl, sym (append-nil w.out), omega arith)
  | inr k ↦ rw k (refl, refl, rw e refl, omega arith)
]

latched :
    (cap : ℕ) (q : List TelemetryRecord) (w d : TelemetryWriter) (fail : Bool)
    → Drained cap q w d
    → d.output_failed ≡ w.output_failed
    → let e = if not d.output_failed && fail then record d { output_failed = true } else d in
      Drained cap q w e × (e.output_failed ≡ (w.output_failed || fail))
latched cap q w d fail b f = elim (Bool-cases (not d.output_failed && fail)) [
  | inl k ↦ rw k (
    record { position = b.position; emptied = b.emptied; lines = b.lines; losses = b.losses },
    ground (arith, f),
  )
  | inr k ↦ rw k (b, ground (arith, f))
]

module _ {cap : ℕ} (c : IsCapacity cap) where
  drained :
      (p : ℕ) (q : List TelemetryRecord) (w : TelemetryWriter)
      → Refines cap p q w.ring
      → Drained cap q w (drain_loop (length q) w)
        × ((drain_loop (length q) w).output_failed ≡ w.output_failed)
  unfolding queue_pop drain_loop
  drained p [] w r = (
    record {
      position = p;
      emptied = r;
      lines = ground (arith, append-nil w.out);
      losses = ground arith;
    },
    refl,
  )
  drained p (rec ∷ q) w r =
      let s = try_pop-Refines c p (rec ∷ q) w.ring r in
      let kept = s.2 in
      let head = s.1 in
      let v = take_record (record w { ring = (try_pop w.ring).0 }) rec in
      let t = taken w (try_pop w.ring).0 rec kept in
      let ih = drained s.0.0 q v (rw t.0 s.0.1) in
      rw (loop_round (length q) w v rec head refl) (
        next_round cap rec q w v (drain_loop (length q) v) (rw t.0 kept) t.1 t.2 t.3 ih.0,
        ih.1 ∙ t.1,
      )

  -- A batch takes every record that was pending when it began and leaves the ring empty. Each record
  -- becomes one line, in order, on a stream that has not failed, and one counted loss (modulo 2^64)
  -- on one that has; the failure latch is never cleared, and is set when the stream fails.
  pub drain_accounts :
      (p : ℕ) (q : List TelemetryRecord) (w : TelemetryWriter) (fail : Bool)
      → Refines cap p q w.ring
      → Drained cap q w (drain w fail) × ((drain w fail).output_failed ≡ (w.output_failed || fail))
  unfolding drain pending
  drain_accounts p q w fail r =
      let d = drained p q w r in
      rw (fill_level c r) (latched cap q w (drain_loop (length q) w) fail d.0 d.1)
