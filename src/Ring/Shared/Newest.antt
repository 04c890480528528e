-- ===== src/Ring/Shared/Newest.antt =====
-- What ShmRing (cpp/include/mm/shm_ring.hpp) keeps: its calls as calls on a bounded queue, and the
-- newest slots under overwriting pushes.
use Prim.Native.Nat.{bit_and}
use market_maker_proto.Prelude.{
  ℕ, zero, suc, ◌≡◌, refl, sym, ap, subst, ◌∙◌, ◌+◌, ◌-◌, ◌%◌, ◌^◌, ◌≤◌, ◌<◌, Bool, true, false,
  ◌==◌, arith, inc_u64, if◌then◌else◌, Bool-cases, inl, inr, List, [], ◌∷◌, ◌++◌, length,
  length-append, append-nil, append_assoc, set,
}
use market_maker_proto.Ring.Queue.{
  IsCapacity, IsCapacity-pos, Refines, fill_level, accepts, advances, queue_push, queue_pop,
  slot_of,
}
use market_maker_proto.Ring.Shared.{
  ShmRing, is_full, write_slot, try_push, push_overwrite, try_pop, window,
}

-- A mapped ring at position `p` that stands for the queue `q`.
pub record Stands {ℓ} {A : Type ℓ} (cap p : ℕ) (q : List A) (r : ShmRing A) : Type ℓ where
  pub capacity_is : r.capacity ≡ cap
  pub mask_is : r.capacity_mask ≡ cap - 1
  pub refines : Refines cap p q (window r)

abbrev pub rest_of {ℓ} : {A : Type ℓ} → List A → List A
rest_of [] = []
rest_of (x ∷ xs) = xs

module _ {ℓ} {A : Type ℓ} {cap : ℕ} (c : IsCapacity cap) where
  full_when :
      (p : ℕ) (q : List A) (r : ShmRing A) → Stands cap p q r → is_full r ≡ (length q == cap)
  unfolding is_full
  full_when p q r w =
      let f = fill_level c w.refines in
      let m = w.refines.room in rw (w.capacity_is, f) (ground arith)

  writes :
      (p : ℕ) (q : List A) (r : ShmRing A) (x : A)
      → Stands cap p q r
      → length q < cap
      → Stands cap p (q ++ (x ∷ [])) (write_slot r x)
  unfolding write_slot
  writes p q r x w h = record {
    capacity_is = w.capacity_is;
    mask_is = w.mask_is;
    refines =
        subst
          (λ m.
            Refines cap p (q ++ (x ∷ [])) (record (window r) {
              slots = set r.slots (bit_and r.tail m) x;
              tail = inc_u64 r.tail;
            }))
          (ap (λ n. n - 1) w.refines.size ∙ sym w.mask_is) (accepts c p q (window r) x w.refines h);
  }

  advance :
      (p : ℕ) (x : A) (q : List A) (r : ShmRing A) (d : ℕ)
      → Stands cap p (x ∷ q) r
      → Stands cap (suc p) q (record r { head = inc_u64 r.head; dropped = d })
  advance p x q r d w = record {
    capacity_is = w.capacity_is;
    mask_is = w.mask_is;
    refines = advances c p x q (window r) d w.refines;
  }

  redropped :
      (p : ℕ) (q : List A) (r : ShmRing A) (d : ℕ)
      → Stands cap p q r
      → Stands cap p q (record r { dropped = d })
  redropped p q r d w = record {
    capacity_is = w.capacity_is;
    mask_is = w.mask_is;
    refines = record {
      size = w.refines.size;
      head_at = w.refines.head_at;
      tail_at = w.refines.tail_at;
      room = w.refines.room;
      holds = w.refines.holds;
    };
  }

  pushes :
      (p : ℕ) (q : List A) (r : ShmRing A) (x : A) (count_drop : Bool)
      → Stands cap p q r
      → Stands cap p (queue_push cap q x).0 (try_push r x count_drop).0
        × ((try_push r x count_drop).1 ≡ (queue_push cap q x).1)
  unfolding try_push queue_push
  pushes p q r x count_drop w = elim (Bool-cases (length q == cap)) [
    | inl e ↦ rw (full_when p q r w, e) (dropping count_drop, refl)
    | inr e ↦
        rw (full_when p q r w, e) (writes p q r x w (let m = w.refines.room in ground arith), refl)
  ]
    where
      dropping :
          (b : Bool) → Stands cap p q (if b then record r { dropped = inc_u64 r.dropped } else r)
      dropping true = redropped p q r (inc_u64 r.dropped) w
      dropping false = w

  pops :
      (p : ℕ) (q : List A) (r : ShmRing A)
      → Stands cap p q r
      → ((p' : ℕ) × Stands cap p' (queue_pop q).0 (try_pop r).0) × ((try_pop r).1 ≡ (queue_pop q).1)
  unfolding try_pop queue_pop
  pops p [] r w =
      let empty : (r.tail == r.head) ≡ true =
        let a = w.refines.head_at in let b = w.refines.tail_at in ground arith in
      rw empty ((p, w), refl)
  pops p (x ∷ q) r w =
      let waiting : (r.tail == r.head) ≡ false =
        let a = w.refines.head_at in
        let b = w.refines.tail_at in let m = w.refines.room in let k = c.bound in ground arith in
      let at : bit_and r.head r.capacity_mask ≡ p % cap =
        rw (w.mask_is, w.refines.head_at) (slot_of c p) in
      rw (waiting, at) ((suc p, advance p x q r r.dropped w), w.refines.holds.0)

  -- On a mapped ring that stands for a queue, a push and a pop do to it what they do to the bounded
  -- queue of the ring's capacity and answer the same, whether or not drops are counted.
  pub calls_refine :
      (p : ℕ) (q : List A) (r : ShmRing A) (x : A) (count_drop : Bool)
      → Stands cap p q r
      → (Stands cap p (queue_push cap q x).0 (try_push r x count_drop).0
          × ((try_push r x count_drop).1 ≡ (queue_push cap q x).1))
        × (((p' : ℕ) × Stands cap p' (queue_pop q).0 (try_pop r).0)
            × ((try_pop r).1 ≡ (queue_pop q).1))
  calls_refine p q r x count_drop w = (pushes p q r x count_drop w, pops p q r w)

module _ {ℓ} {A : Type ℓ} where
  abbrev pub drop : ℕ → List A → List A
  drop zero xs = xs
  drop (suc n) [] = []
  drop (suc n) (x ∷ xs) = drop n xs

  -- The last `n` elements.
  abbrev pub newest : ℕ → List A → List A
  newest n xs = drop (length xs - n) xs

  unfoldable pub overwrite_all : ShmRing A → List A → ShmRing A
  overwrite_all r [] = r
  overwrite_all r (x ∷ xs) = overwrite_all (push_overwrite r x) xs

  drop-append : (n : ℕ) (xs ys : List A) → n ≤ length xs → drop n (xs ++ ys) ≡ drop n xs ++ ys
  drop-append zero xs ys h = refl
  drop-append (suc n) [] ys h = absurd (omega arith)
  drop-append (suc n) (x ∷ xs) ys h = drop-append n xs ys (omega arith)

  drop-nil : (n : ℕ) → drop n [] ≡ []
  drop-nil zero = refl
  drop-nil (suc n) = refl

  drop-drop : (m n : ℕ) (xs : List A) → drop m (drop n xs) ≡ drop (n + m) xs
  drop-drop m zero xs = let e : m ≡ 0 + m = omega arith in ap (λ k. drop k xs) e
  drop-drop m (suc n) [] = drop-nil m ∙ sym (drop-nil (suc n + m))
  drop-drop m (suc n) (x ∷ xs) =
      let e : suc (n + m) ≡ suc n + m = omega arith in
      drop-drop m n xs ∙ ap (λ k. drop k (x ∷ xs)) e

  length-drop : (n : ℕ) (xs : List A) → length (drop n xs) ≡ length xs - n
  length-drop zero xs = omega arith
  length-drop (suc n) [] = omega arith
  length-drop (suc n) (x ∷ xs) = omega (arith, length-drop n xs)

  newest-newest : (n : ℕ) (xs ys : List A) → newest n (newest n xs ++ ys) ≡ newest n (xs ++ ys)
  newest-newest n xs ys =
      let k = length xs - n in
      let joined : newest n xs ++ ys ≡ drop k (xs ++ ys) =
        sym (drop-append k xs ys (omega arith)) in
      rw joined (
        drop-drop _ k (xs ++ ys)
        ∙ ap (λ m. drop m (xs ++ ys))
            (omega (arith, length-drop k (xs ++ ys), length-append xs ys)))

module _ {ℓ} {A : Type ℓ} {cap : ℕ} (c : IsCapacity cap) where
  overwrites :
      (p : ℕ) (q : List A) (r : ShmRing A) (x : A)
      → Stands cap p q r
      → ((p' : ℕ) × Stands cap p' (newest cap (q ++ (x ∷ []))) (push_overwrite r x))
        × ((push_overwrite r x).dropped % 2 ^ 64 ≡ (r.dropped + (length q + 1 - cap)) % 2 ^ 64)
  unfolding push_overwrite write_slot
  overwrites p q r x w = elim (Bool-cases (length q == cap)) [
    | inl e ↦ rw (full_when c p q r w, e) (at_full q (ground arith) w)
    | inr e ↦
        let below : length q < cap = let m = w.refines.room in ground arith in
        let none_lost : length (q ++ (x ∷ [])) - cap ≡ 0 =
          omega (arith, length-append q (x ∷ [])) in
        rw (full_when c p q r w, e, none_lost) ((p, writes c p q r x w below), omega arith)
  ]
    where
      at_full :
          (q : List A)
          → length q ≡ cap
          → Stands cap p q r
          → ((p' : ℕ) × Stands cap p'
                (newest cap (q ++ (x ∷ [])))
                (write_slot (record r { head = inc_u64 r.head; dropped = inc_u64 r.dropped }) x))
            × (inc_u64 r.dropped % 2 ^ 64 ≡ (r.dropped + (length q + 1 - cap)) % 2 ^ 64)
      at_full [] e v = let z = IsCapacity-pos c in absurd (omega arith)
      at_full (y ∷ q') e v =
          let one_lost : length (y ∷ (q' ++ (x ∷ []))) - cap ≡ 1 =
            omega (arith, length-append q' (x ∷ [])) in
          rw one_lost (
            (
              suc p,
              writes c (suc p) q' _ x (advance c p y q' r (inc_u64 r.dropped) v) (omega arith),
            ),
            omega arith,
          )

  -- Overwriting pushes always succeed and the newest slots win: after pushing any list onto a mapped
  -- ring that stands for a queue, the ring stands for the last elements, as many as its capacity, of
  -- that queue followed by the list, and the drop counter has grown, modulo 2^64, by the number of
  -- elements that were overwritten.
  pub overwrite_all_keeps :
      (p : ℕ) (q : List A) (r : ShmRing A) (xs : List A)
      → Stands cap p q r
      → ((p' : ℕ) × Stands cap p' (newest cap (q ++ xs)) (overwrite_all r xs))
        × ((overwrite_all r xs).dropped % 2 ^ 64
            ≡ (r.dropped + (length q + length xs - cap)) % 2 ^ 64)
  unfolding overwrite_all
  overwrite_all_keeps p q r [] w =
      let none_lost : length q - cap ≡ 0 = let m = w.refines.room in omega arith in
      rw (append-nil q, none_lost) ((p, w), omega (arith, w.refines.room))
  overwrite_all_keeps p q r (x ∷ xs) w =
      let ((p1, v), d) = overwrites p q r x w in
      let (u, e) = overwrite_all_keeps p1 (newest cap (q ++ (x ∷ []))) (push_overwrite r x) xs v in
      let all : newest cap (newest cap (q ++ (x ∷ [])) ++ xs) ≡ newest cap (q ++ (x ∷ xs)) =
        newest-newest cap (q ++ (x ∷ [])) xs ∙ ap (newest cap) (append_assoc q (x ∷ []) xs) in
      let n : length (newest cap (q ++ (x ∷ []))) ≡ length q + 1 - (length q + 1 - cap) = omega (
        arith,
        length-drop (length (q ++ (x ∷ [])) - cap) (q ++ (x ∷ [])),
        length-append q (x ∷ []),
      ) in
      (
        subst (λ l. (p' : ℕ) × Stands cap p' l (overwrite_all (push_overwrite r x) xs)) all u,
        omega (arith, d, e, n, w.refines.room),
      )
