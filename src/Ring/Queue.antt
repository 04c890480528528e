-- ===== src/Ring/Queue.antt =====
-- SpscTelemetryRing (cpp/include/mm/telemetry_ring.hpp) as a bounded queue: the slots between the two
-- indices hold the queue, and each call does what the queue does.
use Prim.Native.Nat.{bit_and}
use native.Mathlib.Nat.{div-add-mod', mul-add-mod_self_right, mul_assoc, mod-lt}
use market_maker_proto.Prelude.{
  ℕ, suc, ◌≡◌, ◌≢◌, refl, sym, ap, subst, ◌∙◌, ◌+◌, ◌-◌, ◌*◌, ◌/◌, ◌%◌, ◌^◌, ◌≤◌, ◌<◌, Bool, true,
  false, ◌==◌, arith, inc_u64, if◌then◌else◌, Bool-cases, inl, inr, Option, none, some, List, [],
  ◌∷◌, ◌++◌, length, length-append, get_elem?, set, length-set, get_elem?-set_self,
  get_elem?-set_ne,
}
use market_maker_proto.Prelude.Mask.{bit_and-mask, mod_apart, two_pow_pos}
use market_maker_proto.Ring.Spsc.{SpscTelemetryRing, sub_u64, is_full, try_push, try_pop, pending}

-- A capacity: a power of two that a 64-bit word counts in full rounds.
pub record IsCapacity (cap : ℕ) : Type 0 where
  pub log : ℕ
  pub rounds : ℕ
  pub power : cap ≡ 2 ^ log
  pub word : 2 ^ 64 ≡ rounds * cap
  pub bound : cap < 2 ^ 64

module _ {cap : ℕ} (c : IsCapacity cap) where
  pub IsCapacity-pos : 0 < cap
  IsCapacity-pos = rw c.power (two_pow_pos c.log)

  -- The masked 64-bit index of the position `p` is `p` modulo the capacity.
  pub slot_of : (p : ℕ) → bit_and (p % 2 ^ 64) (cap - 1) ≡ p % cap
  slot_of p =
      let masked : bit_and (p % 2 ^ 64) (cap - 1) ≡ p % 2 ^ 64 % cap =
        rw c.power (bit_and-mask c.log (p % 2 ^ 64)) in
      let q = p / 2 ^ 64 in
      let e : p ≡ q * c.rounds * cap + p % 2 ^ 64 = sym (
        ap (λ x. x + p % 2 ^ 64) (mul_assoc q c.rounds cap ∙ ap (λ w. q * w) (sym c.word))
        ∙ div-add-mod' p (2 ^ 64)) in
      masked ∙ sym (ap (λ x. x % cap) e ∙ mul-add-mod_self_right (q * c.rounds) cap (p % 2 ^ 64))

pub data Call {ℓ} (A : Type ℓ) : Type ℓ where
  push : A → Call A
  take : Call A

pub data Answer {ℓ} (A : Type ℓ) : Type ℓ where
  pushed : Bool → Answer A
  taken : Option A → Answer A

module _ {ℓ} {A : Type ℓ} where
  unfoldable pub ring_run :
      SpscTelemetryRing A → List (Call A) → SpscTelemetryRing A × List (Answer A)
  ring_run r [] = (r, [])
  ring_run r (push x ∷ cs) =
      let s = try_push r x in let rest = ring_run s.0 cs in (rest.0, pushed s.1 ∷ rest.1)
  ring_run r (take ∷ cs) =
      let s = try_pop r in let rest = ring_run s.0 cs in (rest.0, taken s.1 ∷ rest.1)

  unfoldable pub queue_pop : List A → List A × Option A
  queue_pop [] = ([], none)
  queue_pop (x ∷ q) = (q, some x)

  abbrev pub refused : List (Answer A) → ℕ
  refused [] = 0
  refused (pushed true ∷ rest) = refused rest
  refused (pushed false ∷ rest) = suc (refused rest)
  refused (taken o ∷ rest) = refused rest

module _ {ℓ} {A : Type ℓ} (cap : ℕ) where
  -- From position `p` on, the slots hold `q`.
  abbrev pub Holds : ℕ → List A → List A → Type ℓ
  Holds p slots [] = Unit
  Holds p slots (x ∷ q) = (get_elem? slots (p % cap) ≡ some x) × Holds (suc p) slots q

  Holds-set :
      (p e : ℕ) (slots q : List A) (x : A)
      → p + length q ≤ e
      → e < p + cap
      → Holds p slots q
      → Holds p (set slots (e % cap) x) q
  Holds-set p e slots [] x h k w = tt
  Holds-set p e slots (y ∷ q) x h k (g, w) =
      let apart : e % cap ≢ p % cap =
        subst (λ n. n % cap ≢ p % cap) (omega arith)
          (mod_apart p (e - p) cap (omega arith) (omega arith)) in
      (
        get_elem?-set_ne slots (e % cap) (p % cap) x apart ∙ g,
        Holds-set (suc p) e slots q x (omega arith) (omega arith) w,
      )

  Holds-snoc :
      (p : ℕ) (slots q : List A) (x : A)
      → Holds p slots q
      → get_elem? slots ((p + length q) % cap) ≡ some x
      → Holds p slots (q ++ (x ∷ []))
  Holds-snoc p slots [] x w g =
      (subst (λ n. get_elem? slots (n % cap) ≡ some x) (omega arith) g, tt)
  Holds-snoc p slots (y ∷ q) x (h, w) g = (
    h,
    Holds-snoc (suc p) slots q x w
        (subst (λ n. get_elem? slots (n % cap) ≡ some x) (omega arith) g),
  )

  -- A ring at position `p` that stands for the queue `q`.
  pub record Refines (p : ℕ) (q : List A) (r : SpscTelemetryRing A) : Type ℓ where
    pub size : length r.slots ≡ cap
    pub head_at : r.head ≡ p % 2 ^ 64
    pub tail_at : r.tail ≡ (p + length q) % 2 ^ 64
    pub room : length q ≤ cap
    pub holds : Holds p r.slots q

  -- The bounded queue.
  unfoldable pub queue_push : List A → A → List A × Bool
  queue_push q x = if length q == cap then (q, false) else (q ++ (x ∷ []), true)

  unfoldable pub queue_run : List A → List (Call A) → List A × List (Answer A)
  queue_run q [] = (q, [])
  queue_run q (push x ∷ cs) =
      let s = queue_push q x in let rest = queue_run s.0 cs in (rest.0, pushed s.1 ∷ rest.1)
  queue_run q (take ∷ cs) =
      let s = queue_pop q in let rest = queue_run s.0 cs in (rest.0, taken s.1 ∷ rest.1)

module _ {ℓ} {A : Type ℓ} {cap : ℕ} (c : IsCapacity cap) where
  pub fill_level :
      {p : ℕ} {q : List A} {r : SpscTelemetryRing A}
      → Refines cap p q r
      → sub_u64 r.tail r.head ≡ length q
  fill_level {p} {q} w = rw (w.head_at, w.tail_at) (omega (arith, w.room, c.bound))

  refuses :
      (p : ℕ) (q : List A) (r : SpscTelemetryRing A)
      → Refines cap p q r
      → is_full r ≡ (length q == cap)
  unfolding is_full
  refuses p q r w = rw (fill_level w, w.size) refl

  pub accepts :
      (p : ℕ) (q : List A) (r : SpscTelemetryRing A) (x : A)
      → Refines cap p q r
      → length q < cap
      → Refines cap p (q ++ (x ∷ [])) (record r {
        slots = set r.slots (bit_and r.tail (length r.slots - 1)) x;
        tail = inc_u64 r.tail;
      })
  accepts p q r x w h =
      let at : bit_and r.tail (length r.slots - 1) ≡ (p + length q) % cap =
        rw (w.size, w.tail_at) (slot_of c (p + length q)) in
      rw at (record {
        size = length-set r.slots _ x ∙ w.size;
        head_at = w.head_at;
        tail_at = let t = w.tail_at in omega (arith, length-append q (x ∷ []), t);
        room = omega (arith, length-append q (x ∷ []));
        holds =
            Holds-snoc cap p _ q x
              (Holds-set cap p (p + length q) r.slots q x (omega arith) (omega arith) w.holds)
              (get_elem?-set_self r.slots _ x
                (rw w.size (mod-lt (p + length q) (IsCapacity-pos c))));
      })

  pub advances :
      (p : ℕ) (x : A) (q : List A) (r : SpscTelemetryRing A) (d : ℕ)
      → Refines cap p (x ∷ q) r
      → Refines cap (suc p) q (record r { head = inc_u64 r.head; dropped = d })
  advances p x q r d w = record {
    size = w.size;
    head_at = let a = w.head_at in omega arith;
    tail_at = let b = w.tail_at in omega arith;
    room = let m = w.room in omega arith;
    holds = w.holds.1;
  }

  -- A push does to a ring what it does to the bounded queue that the ring stands for, answers the
  -- same, and counts a drop exactly when it is refused.
  pub try_push-Refines :
      (p : ℕ) (q : List A) (r : SpscTelemetryRing A) (x : A)
      → Refines cap p q r
      → let s = queue_push cap q x in
        Refines cap p s.0 (try_push r x).0
        × ((try_push r x).1 ≡ s.1)
        × ((try_push r x).0.dropped ≡ (if s.1 then r.dropped else inc_u64 r.dropped))
  unfolding try_push queue_push
  try_push-Refines p q r x w = elim (Bool-cases (length q == cap)) [
    | inl e ↦
        rw (refuses p q r w, e)
          (
            record {
              size = w.size;
              head_at = w.head_at;
              tail_at = w.tail_at;
              room = w.room;
              holds = w.holds;
            },
            refl,
            refl,
          )
    | inr e ↦
        rw (refuses p q r w, e) (accepts p q r x w (let m = w.room in ground arith), refl, refl)
  ]

  pub try_pop-Refines :
      (p : ℕ) (q : List A) (r : SpscTelemetryRing A)
      → Refines cap p q r
      → let s = queue_pop q in
        ((p' : ℕ) × Refines cap p' s.0 (try_pop r).0)
        × ((try_pop r).1 ≡ s.1)
        × ((try_pop r).0.dropped ≡ r.dropped)
  unfolding try_pop queue_pop
  try_pop-Refines p [] r w =
      let empty : (r.tail == r.head) ≡ true =
        let a = w.head_at in let b = w.tail_at in ground arith in
      rw empty ((p, w), refl, refl)
  try_pop-Refines p (x ∷ q) r w =
      let waiting : (r.tail == r.head) ≡ false =
        let a = w.head_at in
        let b = w.tail_at in let m = w.room in let k = c.bound in ground arith in
      let at : bit_and r.head (length r.slots - 1) ≡ p % cap =
        rw (w.size, w.head_at) (slot_of c p) in
      rw (waiting, at) ((suc p, advances p x q r r.dropped w), w.holds.0, refl)

  pub pending-Refines :
      (p : ℕ) (q : List A) (r : SpscTelemetryRing A) → Refines cap p q r → pending r ≡ length q
  unfolding pending
  pending-Refines p q r w = fill_level w

  -- A ring is a bounded queue: any sequence of pushes and pops on a ring that stands for a queue
  -- answers what the bounded queue answers, ends standing for the queue that it ends with and holding
  -- that many pending records, and adds to the drop counter, modulo 2^64, the number of refusals.
  pub ring_run-Refines :
      (p : ℕ) (q : List A) (r : SpscTelemetryRing A) (cs : List (Call A))
      → Refines cap p q r
      → let s = queue_run cap q cs in
        ((p' : ℕ) × Refines cap p' s.0 (ring_run r cs).0)
        × ((ring_run r cs).1 ≡ s.1)
        × (pending (ring_run r cs).0 ≡ length s.0)
        × ((ring_run r cs).0.dropped % 2 ^ 64 ≡ (r.dropped + refused s.1) % 2 ^ 64)
  unfolding ring_run queue_run
  ring_run-Refines p q r [] w = ((p, w), refl, pending-Refines p q r w, omega arith)
  ring_run-Refines p q r (push x ∷ cs) w =
      let (v, a, d) = try_push-Refines p q r x w in
      let (u, b, n, m) = ring_run-Refines p (queue_push cap q x).0 (try_push r x).0 cs v in
      (u, rw (a, b) refl, n, m ∙ counted (queue_push cap q x).1 d)
    where
      counted :
          (b : Bool)
          → (try_push r x).0.dropped ≡ (if b then r.dropped else inc_u64 r.dropped)
          → ((try_push r x).0.dropped + refused (queue_run cap (queue_push cap q x).0 cs).1)
              % 2 ^ 64
            ≡ (r.dropped + refused (pushed b ∷ (queue_run cap (queue_push cap q x).0 cs).1))
              % 2 ^ 64
      counted true d = omega arith
      counted false d = omega arith
  ring_run-Refines p q r (take ∷ cs) w =
      let ((p', v), a, d) = try_pop-Refines p q r w in
      let (u, b, n, m) = ring_run-Refines p' (queue_pop q).0 (try_pop r).0 cs v in
      (u, rw (a, b) refl, n, omega arith)
