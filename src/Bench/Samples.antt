-- ===== src/Bench/Samples.antt =====
-- What the samples of a BenchRecorder (cpp/include/mm/bench_recorder.hpp) measure.
use market_maker_proto.Prelude.{
  ℕ, ◌≡◌, refl, ◌∙◌, ◌%◌, true, false, not, ◌==◌, ==_refl, arith, none, some, [], ◌∷◌, ◌++◌, length,
  Bool-cases, Option-cases, inl, inr,
}
use market_maker_proto.Prelude.Int.{ℤ, pos, ◌-ℤ◌, ◌+ℤ◌, eqb_ℤ, int_laws}
use market_maker_proto.Bench.{
  BenchRecorder, Slot, correlation_slots, md_published, md_written, order_for, find, append,
  put_slot, write_tick, take_order,
}

-- The slot of `md_seq` holds its own tick.
found :
    (r : BenchRecorder) (slots : ℕ → Slot) (md_seq : ℕ) (slot : Slot)
    → (md_seq == 0) ≡ false
    → slot.md_seq ≡ md_seq
    → r.slots ≡ put_slot slots md_seq slot
    → find r md_seq ≡ some slot
unfolding find
found r slots md_seq slot h e f =
    rw (h, f, ==_refl (md_seq % correlation_slots), e, ==_refl md_seq) refl

find_owner :
    (r : BenchRecorder) (md_seq : ℕ) (slot : Slot)
    → find r md_seq ≡ some slot
    → ((md_seq == 0) ≡ false) × (slot.md_seq ≡ md_seq)
unfolding find
find_owner r md_seq slot h = (ground arith, ground arith)

order_for_found :
    (r : BenchRecorder) (md_seq : ℕ) (t : ℤ) (slot : Slot)
    → find r md_seq ≡ some slot
    → order_for r md_seq t ≡ take_order r md_seq t slot
unfolding order_for
order_for_found r md_seq t slot e = rw (order_for, e) refl

order_for_missing :
    (r : BenchRecorder) (md_seq : ℕ) (t : ℤ) → find r md_seq ≡ none → order_for r md_seq t ≡ r
unfolding order_for
order_for_missing r md_seq t e = rw (order_for, e) refl

take_order_taken :
    (r : BenchRecorder) (md_seq : ℕ) (t : ℤ) (slot : Slot)
    → slot.m3_taken ≡ true
    → take_order r md_seq t slot ≡ r
unfolding take_order
take_order_taken r md_seq t slot e = rw (take_order, e) refl

take_order_slots :
    (r : BenchRecorder) (md_seq : ℕ) (t : ℤ) (slot : Slot)
    → slot.m3_taken ≡ false
    → (take_order r md_seq t slot).slots ≡ put_slot r.slots md_seq (record slot { m3_taken = true })
unfolding take_order
take_order_slots r md_seq t slot e = elim (Bool-cases (not (eqb_ℤ slot.m0p_ns (pos 0)))) [
  | inl f ↦ rw (e, f) refl
  | inr f ↦ rw (e, f) refl
]

-- Only the first order that echoes a tick is a sample: after an order for a tick, another order for
-- the same tick changes nothing.
pub order_for_first :
    (r : BenchRecorder) (md_seq : ℕ) (t u : ℤ)
    → order_for (order_for r md_seq t) md_seq u ≡ order_for r md_seq t
order_for_first r md_seq t u = elim (Option-cases (find r md_seq)) [
  | inl e ↦ rw (order_for_missing r md_seq t e) (order_for_missing r md_seq u e)
  | inr (slot, e) ↦
      let r' = take_order r md_seq t slot in
      let marked : Slot = record slot { m3_taken = true } in
      let o = find_owner r md_seq slot e in
      rw (order_for_found r md_seq t slot e) (elim (Bool-cases slot.m3_taken) [
        | inl f ↦
            rw (take_order_taken r md_seq t slot f)
              (order_for_found r md_seq u slot e ∙ take_order_taken r md_seq u slot f)
        | inr f ↦
            order_for_found r' md_seq u marked
              (found r' r.slots md_seq marked o.0 o.1 (take_order_slots r md_seq t slot f))
            ∙ take_order_taken r' md_seq u marked refl
      ])
]

-- Room for one more sample in each stream of intervals.
pub record Room (r : BenchRecorder) : Type 0 where
  pub m0_m0p_room : (length r.m0_m0p == r.capacity) ≡ false
  pub m0p_m3_room : (length r.m0p_m3 == r.capacity) ≡ false
  pub m0_m3_room : (length r.m0_m3 == r.capacity) ≡ false

abbrev fresh : ℕ → ℤ → Slot
fresh md_seq m0 = record { md_seq = md_seq; m0_ns = m0; m0p_ns = pos 0; m3_taken = false }

written_fresh :
    (r : BenchRecorder) (slots : ℕ → Slot) (md_seq : ℕ) (m0 m0p : ℤ)
    → (md_seq == 0) ≡ false
    → (length r.m0_m0p == r.capacity) ≡ false
    → r.slots ≡ put_slot slots md_seq (fresh md_seq m0)
    → md_written r md_seq m0p ≡ record r {
      slots = put_slot r.slots md_seq (record (fresh md_seq m0) { m0p_ns = m0p });
      m0_m0p = r.m0_m0p ++ ((m0p -ℤ m0) ∷ []);
    }
unfolding md_written write_tick append
written_fresh r slots md_seq m0 m0p h room e =
    rw (md_written, found r slots md_seq (fresh md_seq m0) h refl e, room) refl

order_handed :
    (r : BenchRecorder) (slots : ℕ → Slot) (md_seq : ℕ) (m3 : ℤ) (slot : Slot)
    → (md_seq == 0) ≡ false
    → slot.md_seq ≡ md_seq
    → slot.m3_taken ≡ false
    → eqb_ℤ slot.m0p_ns (pos 0) ≡ false
    → (length r.m0p_m3 == r.capacity) ≡ false
    → (length r.m0_m3 == r.capacity) ≡ false
    → r.slots ≡ put_slot slots md_seq slot
    → order_for r md_seq m3 ≡ record r {
      slots = put_slot r.slots md_seq (record slot { m3_taken = true });
      m0p_m3 = r.m0p_m3 ++ ((m3 -ℤ slot.m0p_ns) ∷ []);
      m0_m3 = r.m0_m3 ++ ((m3 -ℤ slot.m0_ns) ∷ []);
    }
unfolding take_order append
order_handed r slots md_seq m3 slot h e f g k l s =
    order_for_found r md_seq m3 slot (found r slots md_seq slot h e s) ∙ rw (f, g, k, l) refl

split_interval : (a b c : ℤ) → (c -ℤ a) ≡ ((b -ℤ a) +ℤ (c -ℤ b))
split_interval a b c = omega int_laws

-- A tick that is published, handed to a write and echoed by an order, with room in the streams and a
-- write time that is not 0, gives one sample of each of the three intervals, and the third is the
-- sum of the other two.
pub tick_to_order :
    (r : BenchRecorder) (md_seq : ℕ) (m0 m0p m3 : ℤ)
    → (md_seq == 0) ≡ false
    → eqb_ℤ m0p (pos 0) ≡ false
    → Room r
    → let s = order_for (md_written (md_published r md_seq m0) md_seq m0p) md_seq m3 in
      (s.m0_m0p ≡ r.m0_m0p ++ ((m0p -ℤ m0) ∷ []))
      × (s.m0p_m3 ≡ r.m0p_m3 ++ ((m3 -ℤ m0p) ∷ []))
      × (s.m0_m3 ≡ r.m0_m3 ++ (((m0p -ℤ m0) +ℤ (m3 -ℤ m0p)) ∷ []))
      × (s.saturated ≡ r.saturated)
unfolding md_published
tick_to_order r md_seq m0 m0p m3 h n room =
    let a : BenchRecorder = record r { slots = put_slot r.slots md_seq (fresh md_seq m0) } in
    let handed : Slot = record (fresh md_seq m0) { m0p_ns = m0p } in
    let b : BenchRecorder = record a {
      slots = put_slot a.slots md_seq handed;
      m0_m0p = r.m0_m0p ++ ((m0p -ℤ m0) ∷ []);
    } in
    let published : md_published r md_seq m0 ≡ a = rw h refl in
    rw
      (
        published,
        written_fresh a r.slots md_seq m0 m0p h room.m0_m0p_room refl,
        order_handed b a.slots md_seq m3 handed h refl refl n room.m0p_m3_room room.m0_m3_room refl,
        split_interval m0 m0p m3,
      )
      (refl, refl, refl, refl)
