-- ===== src/Engine/Reports.antt =====
-- The fill reports of on_book (cpp/src/engine.cpp), one by one: execution ids are consecutive, and a
-- fill keeps within the displayed quantity and the order's own limit.
use market_maker_proto.Prelude.{
  ℕ, zero, suc, ◌+◌, ◌≡◌, refl, sym, ap, ◌∙◌, subst, true, false, arith, inc_u64, Bool-cases, inl,
  inr, List, [], ◌∷◌, ◌++◌, some, some_inj, length, length-append, All,
}
use market_maker_proto.Prelude.Int.{ℤ, pos, ◌≤ℤ◌, ◌<ℤ◌, ◌-ℤ◌, ◌*ℤ◌}
use market_maker_proto.Types.{Side, bid, ask, Instrument}
use market_maker_proto.Protocol.{Fill, fill}
use market_maker_proto.Engine.Keys.{OrderKey}
use market_maker_proto.Engine.Containers.{Map, find}
use market_maker_proto.Engine.State.{Order, Book, Routed, OrderEngine, is_live, same_side}
use market_maker_proto.Engine.Entry.{to_raw_px}
use market_maker_proto.Engine.Live.{is_live_on}
use market_maker_proto.Engine.Sweep.{
  is_crossed, fill_qty, fill_report, is_absent, on_book, leaves_after,
}
use market_maker_proto.Engine.Sweep.Reference.{
  is_hit, stage_all, Found, Found-self, reference_side, reference_bids, reference_asks,
  reference_reports,
}
use market_maker_proto.Engine.Sweep.Swept.{swept}
use market_maker_proto.Engine.Invariant.{Inv, IsSound}
use market_maker_proto.Engine.Invariant.Sweep.{
  is_stale, on_book-swept, on_book_refines, live_leaves, leaves_after_bounds,
}

-- The execution ids of a list of reports.
abbrev pub exec_ids : List Routed → List ℕ
exec_ids [] = []
exec_ids (r ∷ rs) = let rest = exec_ids rs in elim r.msg [ fill f ↦ f.exec_id ∷ rest | _ ↦ rest ]

-- `n` ids from `x` on, and the id after them, as `exec_id++` gives them.
abbrev pub consecutive : ℕ → ℕ → List ℕ
consecutive x zero = []
consecutive x (suc n) = x ∷ consecutive (inc_u64 x) n

abbrev pub advance : ℕ → ℕ → ℕ
advance x zero = x
advance x (suc n) = advance (inc_u64 x) n

consecutive-add :
    (x n m : ℕ) → consecutive x n ++ consecutive (advance x n) m ≡ consecutive x (n + m)
consecutive-add x zero m = ap (consecutive x) (omega arith)
consecutive-add x (suc n) m =
    ap (◌∷◌ x) (consecutive-add (inc_u64 x) n m)
    ∙ ap (consecutive x) (let e : suc (n + m) ≡ suc n + m = omega arith in e)

advance-add : (x n m : ℕ) → advance (advance x n) m ≡ advance x (n + m)
advance-add x zero m = ap (advance x) (let e : m ≡ 0 + m = omega arith in e)
advance-add x (suc n) m =
    advance-add (inc_u64 x) n m
    ∙ ap (advance x) (let e : suc (n + m) ≡ suc n + m = omega arith in e)

stage_all-ids :
    (inst : Instrument) (side : Side) (book : Book) (m : Map Order) (x : ℕ)
    → (exec_ids (stage_all inst side book m x).1
        ≡ consecutive x (length (stage_all inst side book m x).1))
      × ((stage_all inst side book m x).2 ≡ advance x (length (stage_all inst side book m x).1))
unfolding stage_all fill_report
stage_all-ids inst side book [] x = (refl, refl)
stage_all-ids inst side book ((k, o) ∷ m) x = elim (Bool-cases (is_hit inst side book o)) [
  | inl hit ↦
      let (ids, next) = stage_all-ids inst side book m (inc_u64 x) in
      rw (hit, stage_all) (ap (◌∷◌ x) ids, next)
  | inr miss ↦ rw (miss, stage_all) (stage_all-ids inst side book m x)
]

reference_side-ids :
    (e : OrderEngine) (side : Side) (book : Book) (x : ℕ)
    → (exec_ids (reference_side e side book x).1
        ≡ consecutive x (length (reference_side e side book x).1))
      × ((reference_side e side book x).2 ≡ advance x (length (reference_side e side book x).1))
unfolding reference_side
reference_side-ids e side book x = elim (Bool-cases (is_absent side book)) [
  | inl gone ↦ rw (gone, reference_side) (refl, refl)
  | inr there ↦ rw (there, reference_side) (stage_all-ids e.inst side book e.orders x)
]

exec_ids-append : (xs ys : List Routed) → exec_ids (xs ++ ys) ≡ exec_ids xs ++ exec_ids ys
exec_ids-append [] ys = refl
exec_ids-append (x ∷ xs) ys = ground (arith, exec_ids-append xs ys)

-- The reports of a fresh book carry consecutive execution ids from the next one on, and the engine
-- goes on from the id after the last.
pub on_book-exec_ids :
    (e : OrderEngine) (book : Book)
    → Inv e
    → is_stale e book ≡ false
    → (r : OrderEngine × List Routed) × (on_book e book ≡ some r)
      × (exec_ids r.1 ≡ consecutive e.next_exec_id (length r.1))
      × (r.0.next_exec_id ≡ advance e.next_exec_id (length r.1))
on_book-exec_ids e book v h =
    let (r, eq, orders, reports, b, seen, next, stale) = on_book_refines e book v h in
    let (bid_ids, bid_next) = reference_side-ids e bid book e.next_exec_id in
    let (ask_ids, ask_next) = reference_side-ids e ask book (reference_bids e book).2 in
    (
      r,
      eq,
      rw
          (
            reports,
            exec_ids-append (reference_bids e book).1 (reference_asks e book).1,
            length-append (reference_bids e book).1 (reference_asks e book).1,
            ask_ids,
            bid_ids,
            bid_next,
          )
          (consecutive-add e.next_exec_id (length (reference_bids e book).1) _),
      rw
          (
            next,
            reports,
            length-append (reference_bids e book).1 (reference_asks e book).1,
            ask_next,
            bid_next,
          )
          (advance-add e.next_exec_id (length (reference_bids e book).1) _),
    )

-- The opposite side has reached a price and displays a quantity.
abbrev pub Tradable : Side → Book → ℤ → ℤ → Type 0
Tradable bid book px qty = (book.ask_px ≤ℤ px) × (qty ≤ℤ book.ask_qty)
Tradable ask book px qty = (px ≤ℤ book.bid_px) × (qty ≤ℤ book.bid_qty)

-- The fill of one retained order: its id, its limit price, and a positive quantity that the opposite
-- side displays and the order has.
pub record FillWithin (e : OrderEngine) (book : Book) (r : Routed) : Type 0 where
  pub report : Fill
  pub is_fill : r.msg ≡ fill report
  pub order : Order
  pub retained : find (r.session, report.cl_id) e.orders ≡ some order
  pub was_live : is_live order.st ≡ true
  pub its_id : report.eng_id ≡ order.eng_id
  pub at_limit : report.px ≡ (order.px.v *ℤ e.inst.tick_size)
  pub positive : pos 0 <ℤ report.qty
  pub no_overfill : pos 0 ≤ℤ report.leaves
  pub remainder : report.leaves ≡ (order.leaves -ℤ report.qty)
  pub reached : Tradable order.side book report.px report.qty

live_side :
    (side : Side) (o : Order) → is_live_on side o ≡ true → (o.side ≡ side) × (is_live o.st ≡ true)
live_side side o h = (same o.side side (ground arith), ground arith)
  where
    same : (a b : Side) → same_side a b ≡ true → a ≡ b
    same bid bid g = refl
    same bid ask g = absurd (ground (arith, g))
    same ask bid g = absurd (ground (arith, g))
    same ask ask g = refl

fill_reached :
    (inst : Instrument) (side : Side) (book : Book) (o : Order)
    → is_absent side book ≡ false
    → is_crossed inst side book o ≡ true
    → pos 0 <ℤ o.leaves
    → (pos 0 <ℤ fill_qty side book o)
      × Tradable side book (to_raw_px inst o.px) (fill_qty side book o)
unfolding fill_qty is_crossed is_absent
fill_reached inst bid book o there c p = ground arith
fill_reached inst ask book o there c p = ground arith

module _ (e : OrderEngine) (side : Side) (book : Book) (there : is_absent side book ≡ false) where
  fill_report-FillWithin :
      (k : OrderKey) (o : Order) (x : ℕ)
      → find k e.orders ≡ some o
      → is_hit e.inst side book o ≡ true
      → pos 0 <ℤ o.leaves
      → FillWithin e book (fill_report e.inst side book k o x)
  unfolding fill_report leaves_after to_raw_px
  fill_report-FillWithin k o x f hit p =
      let (s, l) = live_side side o (ground arith) in
      let (q, r) = fill_reached e.inst side book o there (ground arith) p in
      record {
        report = _;
        is_fill = refl;
        order = o;
        retained = f;
        was_live = l;
        its_id = refl;
        at_limit = refl;
        positive = q;
        no_overfill = (leaves_after_bounds side book o there p).0;
        remainder = refl;
        reached = rw s r;
      }

  stage_all-FillWithin :
      (m : Map Order) (x : ℕ)
      → Found e.orders m
      → All (IsSound e.inst) m
      → All (FillWithin e book) (stage_all e.inst side book m x).1
  unfolding stage_all
  stage_all-FillWithin [] x f a = tt
  stage_all-FillWithin ((k, o) ∷ m) x f a = elim (Bool-cases (is_hit e.inst side book o)) [
    | inl hit ↦
        let l : is_live o.st ≡ true = ground arith in
        rw (hit, stage_all)
          (
            fill_report-FillWithin k o x f.0 hit (live_leaves e.inst k o l a.0),
            stage_all-FillWithin m (inc_u64 x) f.1 a.1,
          )
    | inr miss ↦ rw (miss, stage_all) (stage_all-FillWithin m x f.1 a.1)
  ]

All-append : (P : Routed → Type 0) (xs ys : List Routed) → All P xs → All P ys → All P (xs ++ ys)
All-append P [] ys a b = b
All-append P (x ∷ xs) ys a b = (a.0, All-append P xs ys a.1 b)

reference_side-FillWithin :
    (e : OrderEngine) (side : Side) (book : Book) (x : ℕ)
    → Inv e
    → All (FillWithin e book) (reference_side e side book x).1
unfolding reference_side
reference_side-FillWithin e side book x v = elim (Bool-cases (is_absent side book)) [
  | inl gone ↦ rw (gone, reference_side) tt
  | inr there ↦
      rw (there, reference_side)
        (stage_all-FillWithin e side book there e.orders x (Found-self e.orders v.sorted) v.sound)
]

-- Every report of a fresh book is a fill of an order that was retained and live, under its session
-- and cl_id, with its engine id and at its own limit price, which the opposite side has reached; its
-- quantity is positive and no more than the opposite side displays, and the remainder that it names
-- is the order's less that quantity, which is not negative.
pub on_book_within :
    (e : OrderEngine) (book : Book) {r : OrderEngine × List Routed}
    → Inv e
    → is_stale e book ≡ false
    → on_book e book ≡ some r
    → All (FillWithin e book) r.1
on_book_within e book {r} v h b =
    subst (λ x. All (FillWithin e book) x.1) same
      (All-append (FillWithin e book) (reference_bids e book).1 (reference_asks e book).1
        (reference_side-FillWithin e bid book e.next_exec_id v)
        (reference_side-FillWithin e ask book (reference_bids e book).2 v))
  where
    same : (swept e book, reference_reports e book) ≡ r
    same = some_inj (sym (on_book-swept e book v h) ∙ b)
