-- ===== src/Engine/Fills.antt =====
-- The quantities of the fill reports of on_book (cpp/src/engine.cpp): what the reports fill of an
-- order is what the order loses.
use market_maker_proto.Prelude.{
  ℕ, ◌≡◌, refl, sym, ◌∙◌, subst, false, not, ◌&&◌, arith, inc_u64, if◌then◌else◌, Bool-cases, inl,
  inr, List, [], ◌∷◌, ◌++◌, none, some, some_inj,
}
use market_maker_proto.Prelude.Int.{ℤ, pos, ◌+ℤ◌, ◌-ℤ◌, int_laws, eqb_ℤ}
use market_maker_proto.Types.{Side, bid, ask, Instrument}
use market_maker_proto.Protocol.{OutMsg, tob, order_ack, cancel_ack, reject, fill}
use market_maker_proto.Engine.Keys.{OrderKey, key_eq, IsSorted, key_eq→eq}
use market_maker_proto.Engine.Containers.{Map, keys, find}
use market_maker_proto.Engine.State.{Order, Book, Routed, OrderEngine}
use market_maker_proto.Engine.Live.{find-Above}
use market_maker_proto.Engine.Lookup.{find-map_vals}
use market_maker_proto.Engine.Sweep.{
  fill_qty, leaves_after, fill_report, is_absent, settle, on_book,
}
use market_maker_proto.Engine.Sweep.Reference.{
  is_hit, fill_order, fill_both, stage_all, reference_side, reference_bids, reference_asks,
  reference_reports,
}
use market_maker_proto.Engine.Sweep.Swept.{swept, swept-orders}
use market_maker_proto.Engine.Invariant.{Inv}
use market_maker_proto.Engine.Invariant.Sweep.{is_stale, on_book-swept}

-- The quantity that a list of reports fills of the order at `k`.
abbrev pub filled_qty : OrderKey → List Routed → ℤ
filled_qty k [] = pos 0
filled_qty k (r ∷ rs) =
    let rest = filled_qty k rs in
    elim r.msg [ fill f ↦ if key_eq (r.session, f.cl_id) k then f.qty +ℤ rest else rest | _ ↦ rest ]

zero_add : (a : ℤ) → pos 0 +ℤ a ≡ a
zero_add a = omega int_laws

add_zero : (a : ℤ) → a +ℤ pos 0 ≡ a
add_zero a = omega int_laws

add_assoc_ℤ : (a b c : ℤ) → a +ℤ b +ℤ c ≡ a +ℤ (b +ℤ c)
add_assoc_ℤ a b c = omega int_laws

filled_qty-fills :
    (inst : Instrument) (side : Side) (book : Book) (k j : OrderKey) (o : Order) (x : ℕ)
    (rs : List Routed)
    → filled_qty k (fill_report inst side book j o x ∷ rs)
      ≡ (if key_eq j k then fill_qty side book o +ℤ filled_qty k rs else filled_qty k rs)
unfolding fill_report
filled_qty-fills inst side book k j o x rs = refl

module _ (inst : Instrument) (side : Side) (book : Book) (k : OrderKey) where
  filled_none :
      (m : Map Order) (x : ℕ)
      → find k m ≡ none
      → filled_qty k (stage_all inst side book m x).1 ≡ pos 0
  unfolding stage_all find
  filled_none [] x f = refl
  filled_none ((j, o) ∷ m) x f =
      let ne : key_eq j k ≡ false = ground arith in
      let rest : find k m ≡ none = ground arith in
      elim (Bool-cases (is_hit inst side book o)) [
        | inl hit ↦
            rw (hit, stage_all)
              (filled_qty-fills inst side book k j o x (stage_all inst side book m (inc_u64 x)).1
                ∙ rw ne (filled_none m (inc_u64 x) rest))
        | inr miss ↦ rw (miss, stage_all) (filled_none m x rest)
      ]

  filled_some :
      (o : Order) (m : Map Order) (x : ℕ)
      → IsSorted (keys m)
      → find k m ≡ some o
      → filled_qty k (stage_all inst side book m x).1
        ≡ (if is_hit inst side book o then fill_qty side book o else pos 0)
  unfolding stage_all find
  filled_some o [] x s f = cc
  filled_some o ((j, p) ∷ m) x s f = elim (Bool-cases (key_eq j k)) [
    | inl here ↦
        let same : p ≡ o = ground arith in
        let gone : find k m ≡ none = rw (← key_eq→eq j k here) (find-Above j m s.0) in
        elim (Bool-cases (is_hit inst side book o)) [
          | inl hit ↦
              rw (same, hit, stage_all)
                (filled_qty-fills inst side book k j o x (stage_all inst side book m (inc_u64 x)).1
                  ∙ rw (here, filled_none m (inc_u64 x) gone) (add_zero (fill_qty side book o)))
          | inr miss ↦ rw (same, miss, stage_all) (filled_none m x gone)
        ]
    | inr past ↦
        let rest : find k m ≡ some o = ground arith in
        elim (Bool-cases (is_hit inst side book p)) [
          | inl hit ↦
              rw (hit, stage_all)
                (filled_qty-fills inst side book k j p x (stage_all inst side book m (inc_u64 x)).1
                  ∙ rw past (filled_some o m (inc_u64 x) s.1 rest))
          | inr miss ↦ rw (miss, stage_all) (filled_some o m x s.1 rest)
        ]
  ]

module _ (e : OrderEngine) (book : Book) (k : OrderKey) (o : Order) (s : IsSorted (keys e.orders))
    (f : find k e.orders ≡ some o) where
  filled_side :
      (side : Side) (x : ℕ)
      → filled_qty k (reference_side e side book x).1 ≡ (
          if not (is_absent side book) && is_hit e.inst side book o
          then fill_qty side book o
          else pos 0)
  unfolding reference_side
  filled_side side x = elim (Bool-cases (is_absent side book)) [
    | inl gone ↦ rw (gone, reference_side) refl
    | inr there ↦ rw (there, reference_side) (filled_some e.inst side book k o e.orders x s f)
  ]

filled_qty-append :
    (k : OrderKey) (xs ys : List Routed)
    → filled_qty k (xs ++ ys) ≡ filled_qty k xs +ℤ filled_qty k ys
filled_qty-append k [] ys = sym (zero_add (filled_qty k ys))
filled_qty-append k (x ∷ xs) ys = one x.msg (filled_qty-append k xs ys)
  where
    one :
        (m : OutMsg)
        → filled_qty k (xs ++ ys) ≡ filled_qty k xs +ℤ filled_qty k ys
        → filled_qty k (record { session = x.session; msg = m } ∷ xs ++ ys)
          ≡ filled_qty k (record { session = x.session; msg = m } ∷ xs) +ℤ filled_qty k ys
    one (fill g) ih = elim (Bool-cases (key_eq (x.session, g.cl_id) k)) [
      | inl hit ↦ rw (hit, ih) (sym (add_assoc_ℤ g.qty (filled_qty k xs) (filled_qty k ys)))
      | inr miss ↦ rw miss ih
    ]
    one (tob t) ih = ih
    one (order_ack t) ih = ih
    one (cancel_ack t) ih = ih
    one (reject t) ih = ih

-- What one side takes, and what it leaves.
fill_side_conserves :
    (inst : Instrument) (side : Side) (book : Book) (o : Order)
    → (if not (is_absent side book) && is_hit inst side book o then fill_qty side book o else pos 0)
        +ℤ (fill_order inst side book o).leaves
      ≡ o.leaves
unfolding fill_order settle leaves_after
fill_side_conserves inst side book o =
    elim (Bool-cases (not (is_absent side book) && is_hit inst side book o)) [
      | inl hit ↦ rw (hit, fill_order) (take_and_leave o.leaves (fill_qty side book o))
      | inr miss ↦ rw (miss, fill_order) (zero_add o.leaves)
    ]
  where
    take_and_leave : (a b : ℤ) → b +ℤ (settle (a -ℤ b) o).leaves ≡ a
    take_and_leave a b = elim (Bool-cases (eqb_ℤ (a -ℤ b) (pos 0))) [
      | inl z ↦ rw (z, settle) (omega int_laws)
      | inr z ↦ rw (z, settle) (omega int_laws)
    ]

-- An order that the asks' sweep sees is as it was before the bids'.
ask_after_bid :
    (inst : Instrument) (book : Book) (o : Order)
    → (if not (is_absent ask book) && is_hit inst ask book o then fill_qty ask book o else pos 0)
      ≡ (if not (is_absent ask book) && is_hit inst ask book (fill_order inst bid book o)
          then fill_qty ask book (fill_order inst bid book o)
          else pos 0)
unfolding fill_order settle
ask_after_bid inst book o = ground arith

-- A fresh book neither loses nor makes up quantity: for every retained order, what its fill reports
-- fill and what is left of it make up what was left before.
pub on_book_conserves :
    (e : OrderEngine) (book : Book) (k : OrderKey) (o : Order) {r : OrderEngine × List Routed}
    → Inv e
    → is_stale e book ≡ false
    → find k e.orders ≡ some o
    → on_book e book ≡ some r
    → (p : Order) × (find k r.0.orders ≡ some p) × (filled_qty k r.1 +ℤ p.leaves ≡ o.leaves)
on_book_conserves e book k o {r} v h f b =
    subst
      (λ x. (p : Order) × (find k x.0.orders ≡ some p) × (filled_qty k x.1 +ℤ p.leaves ≡ o.leaves))
      same
      (
        fill_both e.inst book o,
        rw (swept-orders e book v.sorted, find-map_vals k (fill_both e.inst book) e.orders, f) refl,
        rw
            (
              filled_qty-append k (reference_bids e book).1 (reference_asks e book).1,
              filled_side e book k o v.sorted f bid e.next_exec_id,
              filled_side e book k o v.sorted f ask (reference_bids e book).2,
              ask_after_bid e.inst book o,
              add_assoc_ℤ,
              fill_side_conserves e.inst ask book (fill_order e.inst bid book o),
            )
            (fill_side_conserves e.inst bid book o),
      )
  where
    same : (swept e book, reference_reports e book) ≡ r
    same = some_inj (sym (on_book-swept e book v h) ∙ b)
