-- ===== src/Engine/Invariant/Sweep.antt =====
-- OrderEngine::on_book (cpp/src/engine.cpp) on a well-formed engine: it refines the reference sweep
-- of the full map, never meets a dead iterator, and keeps the engine well formed.
use market_maker_proto.Prelude.{
  ℕ, ◌%◌, ◌^◌, ◌≤◌, ◌≡◌, refl, sym, ap, ◌∙◌, Bool, true, false, not, ◌&&◌, arith, inc_u64, leb,
  Bool-cases, inl, inr, List, [], ◌∷◌, ◌++◌, some, All,
}
use market_maker_proto.Prelude.Int.{ℤ, pos, ◌≤ℤ◌, ◌<ℤ◌, min_ℤ, -ℤ_parts, eqb_ℤ, eq_of_parts}
use market_maker_proto.Types.{Side, bid, ask, Instrument}
use market_maker_proto.Engine.Keys.{OrderKey}
use market_maker_proto.Engine.Containers.{Map, keys, map_vals}
use market_maker_proto.Engine.State.{Order, Book, Routed, OrderEngine, is_live, entry_count}
use market_maker_proto.Engine.Counts.{count_where, in_session, live_in}
use market_maker_proto.Engine.Sweep.{fill_qty, leaves_after, is_absent, settle, install, on_book}
use market_maker_proto.Engine.Sweep.Reference.{
  is_hit, fill_order, fill_both, reference_bids, reference_asks, reference_reports, sweep_side_lem,
}
use market_maker_proto.Engine.Sweep.Commit.{SameRest, commit-SameRest}
use market_maker_proto.Engine.Sweep.Swept.{swept, swept-orders, swept-live_bids, swept-live_asks}
use market_maker_proto.Engine.Invariant.{Inv, IsSound}

abbrev pub is_stale : OrderEngine → Book → Bool
is_stale e book = e.book_seen && leb book.md_seq e.book.md_seq

-- A fresh book gives the engine `swept` and the reports of the reference sweep.
pub on_book-swept :
    (e : OrderEngine) (book : Book)
    → Inv e
    → is_stale e book ≡ false
    → on_book e book ≡ some (swept e book, reference_reports e book)
unfolding on_book
on_book-swept e book v h =
    rw
      (
        h,
        on_book,
        sweep_side_lem e bid book e.next_exec_id v.sorted v.bids,
        sweep_side_lem e ask book (reference_bids e book).2 v.sorted v.asks,
      )
      refl

keys-map_vals : (f : Order → Order) (m : Map Order) → keys (map_vals f m) ≡ keys m
keys-map_vals f [] = refl
keys-map_vals f ((k, o) ∷ m) = ap (◌∷◌ k) (keys-map_vals f m)

count-map_vals :
    (s : ℕ) (f : Order → Order) (m : Map Order)
    → ((o : Order) → is_live (f o).st ≡ true → is_live o.st ≡ true)
    → (count_where (in_session s) (map_vals f m) ≡ count_where (in_session s) m)
      × (count_where (live_in s) (map_vals f m) ≤ count_where (live_in s) m)
count-map_vals s f [] h = (refl, omega arith)
count-map_vals s f ((k, o) ∷ m) h = ground (arith, count-map_vals s f m h, h o)

fill_live :
    (inst : Instrument) (side : Side) (book : Book) (o : Order)
    → is_live (fill_order inst side book o).st ≡ true
    → is_live o.st ≡ true
unfolding fill_order settle
fill_live inst side book o h = ground arith

-- What is left of a live order after a fill from a side that is present.
pub leaves_after_bounds :
    (side : Side) (book : Book) (o : Order)
    → is_absent side book ≡ false
    → pos 0 <ℤ o.leaves
    → (pos 0 ≤ℤ leaves_after side book o) × (leaves_after side book o <ℤ o.leaves)
unfolding leaves_after fill_qty is_absent
leaves_after_bounds bid book o h p =
    ground (arith, -ℤ_parts o.leaves (min_ℤ o.leaves book.ask_qty), h, p)
leaves_after_bounds ask book o h p =
    ground (arith, -ℤ_parts o.leaves (min_ℤ o.leaves book.bid_qty), h, p)

settle-IsSound :
    (inst : Instrument) (k : OrderKey) (rest : ℤ) (o : Order)
    → is_live o.st ≡ true
    → pos 0 ≤ℤ rest
    → rest <ℤ o.leaves
    → IsSound inst (k, o)
    → IsSound inst (k, settle rest o)
unfolding settle
settle-IsSound inst k rest o l a b s = elim (Bool-cases (eqb_ℤ rest (pos 0))) [
  | inl none_left ↦ rw (none_left, settle) (eq_of_parts rest (pos 0) (ground arith))
  | inr some_left ↦ rw (some_left, settle) (ground arith)
]

pub live_leaves :
    (inst : Instrument) (k : OrderKey) (o : Order)
    → is_live o.st ≡ true
    → IsSound inst (k, o)
    → pos 0 <ℤ o.leaves
live_leaves inst k o l s = ground arith

pub fill-IsSound :
    (inst : Instrument) (side : Side) (book : Book) (k : OrderKey) (o : Order)
    → IsSound inst (k, o)
    → IsSound inst (k, fill_order inst side book o)
unfolding fill_order
fill-IsSound inst side book k o s =
    elim (Bool-cases (not (is_absent side book) && is_hit inst side book o)) [
      | inr miss ↦ rw (miss, fill_order) s
      | inl hit ↦
          let l : is_live o.st ≡ true = ground arith in
          let (low, high) =
            leaves_after_bounds side book o (ground arith) (live_leaves inst k o l s) in
          rw (hit, fill_order) (settle-IsSound inst k (leaves_after side book o) o l low high s)
    ]

All-map_vals :
    (P : OrderKey × Order → Type 0) (f : Order → Order) (m : Map Order)
    → ((k : OrderKey) (o : Order) → P (k, o) → P (k, f o))
    → All P m
    → All P (map_vals f m)
All-map_vals P f [] h a = tt
All-map_vals P f ((k, o) ∷ m) h a = (h k o a.0, All-map_vals P f m h a.1)

pub swept-SameRest :
    (e : OrderEngine) (book : Book)
    → SameRest (swept e book) (install e book (reference_asks e book).2)
swept-SameRest e book = commit-SameRest _ ((reference_bids e book).0 ++ (reference_asks e book).0)

pub swept-Inv : {e : OrderEngine} (book : Book) → Inv e → Inv (swept e book)
unfolding install entry_count
swept-Inv {e} book v =
    let orders = swept-orders e book v.sorted in
    let rest = swept-SameRest e book in
    let live = λ (o : Order) (h : is_live (fill_both e.inst book o).st ≡ true).
      fill_live e.inst bid book o (fill_live e.inst ask book (fill_order e.inst bid book o) h) in
    record {
      sorted = rw (orders, keys-map_vals (fill_both e.inst book) e.orders) v.sorted;
      bids = rw orders (swept-live_bids e book v.sorted v.bids);
      asks = rw orders (swept-live_asks e book v.sorted v.asks);
      counted = λ s.
          rw (orders, rest.entries)
            (v.counted s
              ∙ ap (λ n. n % 2 ^ 64)
                  (sym (count-map_vals s (fill_both e.inst book) e.orders live).0));
      capped = λ s.
          rw (orders, rest.inst)
            (omega (arith, v.capped s, (count-map_vals s (fill_both e.inst book) e.orders live).1));
      sound =
          rw (orders, rest.inst)
            (All-map_vals (IsSound e.inst) (fill_both e.inst book) e.orders
              (λ k o h.
                fill-IsSound e.inst ask book k (fill_order e.inst bid book o)
                  (fill-IsSound e.inst bid book k o h))
              v.sound);
    }

-- What on_book returns on a well-formed engine, stale or fresh.
pub on_book-Inv :
    {e : OrderEngine} (book : Book)
    → Inv e
    → (r : OrderEngine × List Routed) × (on_book e book ≡ some r) × Inv r.0
unfolding on_book entry_count
on_book-Inv {e} book v = elim (Bool-cases (is_stale e book)) [
  | inl stale ↦ (
    (record e { stale_books_ignored = inc_u64 e.stale_books_ignored }, []),
    rw (stale, on_book) refl,
    record {
      sorted = v.sorted;
      bids = v.bids;
      asks = v.asks;
      counted = v.counted;
      capped = v.capped;
      sound = v.sound;
    },
  )
  | inr fresh ↦
      ((swept e book, reference_reports e book), on_book-swept e book v fresh, swept-Inv book v)
]

-- Refinement: a fresh book fills each order of the full map on its own, reports the bids before the
-- asks in key order, installs the book, and burns the exec_ids.
pub on_book_refines :
    (e : OrderEngine) (book : Book)
    → Inv e
    → is_stale e book ≡ false
    → (r : OrderEngine × List Routed) × (on_book e book ≡ some r)
      × (r.0.orders ≡ map_vals (fill_both e.inst book) e.orders)
      × (r.1 ≡ reference_reports e book)
      × (r.0.book ≡ book)
      × (r.0.book_seen ≡ true)
      × (r.0.next_exec_id ≡ (reference_asks e book).2)
      × (r.0.stale_books_ignored ≡ e.stale_books_ignored)
unfolding install
on_book_refines e book v h =
    let rest = swept-SameRest e book in
    (
      (swept e book, reference_reports e book),
      on_book-swept e book v h,
      swept-orders e book v.sorted,
      refl,
      rest.book,
      rest.book_seen,
      rest.next_exec_id,
      rest.stale,
    )
