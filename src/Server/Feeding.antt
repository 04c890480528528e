-- ===== src/Server/Feeding.antt =====
-- The feed, the engine and the sessions together (ServerImpl::publish_book in cpp/src/server.cpp): every
-- book that the feed publishes reaches the engine fresh.
use market_maker_proto.Prelude.{
  ℕ, ◌≡◌, refl, sym, ap, subst, ◌∙◌, ◌+◌, ◌^◌, ◌≤◌, ◌<◌, true, false, Bool-cases, Option-cases,
  some, some_inj, List, [], ◌∷◌, inl, inr, inc_u64, arith,
}
use market_maker_proto.Engine.State.{Book, Routed, OrderEngine}
use market_maker_proto.Engine.Sweep.{on_book}
use market_maker_proto.Engine.Teardown.{end_session}
use market_maker_proto.Engine.Invariant.{Inv}
use market_maker_proto.Engine.Invariant.Session.{end_session-Inv}
use market_maker_proto.Engine.Invariant.Sweep.{is_stale, on_book_refines, on_book-Inv}
use market_maker_proto.Feed.{FeedSet}
use market_maker_proto.Session.State.{ServerImpl, Turn, tick, steady_ns}
use market_maker_proto.Session.Reports.{deliver_report, deliver_tob}
use market_maker_proto.Session.Spares.{
  Retires, same, retired, Spares, deliver_report-Spares, deliver_tob-Spares,
}
use market_maker_proto.Server.Driver.{
  find_session, in_turn, each_session, epochs, count_fill, route, tob_of, next_book, record_publish,
  fan_out, publish_book,
}

-- What the sessions leave of the engine and of the feed.
pub record Settled (e f : OrderEngine) : Type 0 where
  pub book_kept : f.book ≡ e.book
  pub seen_kept : f.book_seen ≡ e.book_seen
  pub stale_kept : f.stale_books_ignored ≡ e.stale_books_ignored
  pub inv_kept : Inv e → Inv f

Settled-refl : (e : OrderEngine) → Settled e e
Settled-refl e = record { book_kept = refl; seen_kept = refl; stale_kept = refl; inv_kept = λ v. v }

Settled-trans : (e f g : OrderEngine) → Settled e f → Settled f g → Settled e g
Settled-trans e f g a b = record {
  book_kept = b.book_kept ∙ a.book_kept;
  seen_kept = b.seen_kept ∙ a.seen_kept;
  stale_kept = b.stale_kept ∙ a.stale_kept;
  inv_kept = λ v. b.inv_kept (a.inv_kept v);
}

ended : (e : OrderEngine) (epoch : ℕ) → Settled e (end_session e epoch).0
unfolding end_session
ended e epoch = record {
  book_kept = refl;
  seen_kept = refl;
  stale_kept = refl;
  inv_kept = λ v. end_session-Inv epoch v;
}

Retires-Settled : {epoch : ℕ} {e f : OrderEngine} → Retires epoch e f → Settled e f
Retires-Settled {epoch} {e} same = Settled-refl e
Retires-Settled {epoch} {e} {f} (retired p) =
    Settled-trans e (end_session e epoch).0 f (ended e epoch) (Retires-Settled p)

-- The feed's counter and the engine's book are as before.
pub record Follows (s u : ServerImpl) : Type 0 where
  pub next_kept : u.next_md_seq ≡ s.next_md_seq
  pub engine_settled : Settled s.engine u.engine

Follows-trans : (s t u : ServerImpl) → Follows s t → Follows t u → Follows s u
Follows-trans s t u a b = record {
  next_kept = b.next_kept ∙ a.next_kept;
  engine_settled = Settled-trans s.engine t.engine u.engine a.engine_settled b.engine_settled;
}

Follows-refl : (s : ServerImpl) → Follows s s
Follows-refl s = record { next_kept = refl; engine_settled = Settled-refl s.engine }

module _ (call : Turn → Turn) (spares : (t : Turn) → Spares t (call t)) where
  in_turn-Follows : (s : ServerImpl) (epoch : ℕ) → Follows s (in_turn s epoch call)
  unfolding in_turn
  in_turn-Follows s epoch = elim (Option-cases (find_session s.sessions epoch)) [
    | inl e ↦ rw (in_turn, e) (Follows-refl s)
    | inr (x, e) ↦
        let a = spares (record { srv = s; self = x }) in
        rw (in_turn, e)
          (record { next_kept = a.feed_kept; engine_settled = Retires-Settled a.engine_spared })
  ]

  each-Follows : (s : ServerImpl) (ks : List ℕ) → Follows s (each_session s ks call)
  unfolding each_session
  each-Follows s [] = Follows-refl s
  each-Follows s (k ∷ ks) =
      Follows-trans s (in_turn s k call) _ (in_turn-Follows s k)
        (each-Follows (in_turn s k call) ks)

route-Follows : (s : ServerImpl) (rs : List Routed) → Follows s (route s rs)
unfolding route count_fill
route-Follows s [] = Follows-refl s
route-Follows s (r ∷ rs) =
    let counted = count_fill s r.msg in
    let call : Turn → Turn = λ t. deliver_report t r.msg in
    let told = in_turn counted r.session call in
    let first : Follows s counted = record {
      next_kept = refl;
      engine_settled = Settled-refl s.engine;
    } in
    Follows-trans s counted _ first (
      Follows-trans counted told _
        (in_turn-Follows call (λ t. deliver_report-Spares t r.msg) counted r.session)
        (route-Follows told rs))

fan_out-Follows : (s : ServerImpl) (book : Book) (rs : List Routed) → Follows s (fan_out s book rs)
unfolding fan_out
fan_out-Follows s book rs =
    let told = route s rs in
    Follows-trans s told _ (route-Follows s rs) (
      each-Follows (λ t. deliver_tob t (tob_of told book))
        (λ t. deliver_tob-Spares t (tob_of told book)) told (epochs told))

-- The engine is sound, and has seen no book later than the feed's last.
pub record Feeds (s : ServerImpl) : Type 0 where
  pub engine_sound : Inv s.engine
  pub book_behind : s.engine.book_seen ≡ true → s.engine.book.md_seq ≤ s.next_md_seq

never_stale :
    (s : ServerImpl) (set : FeedSet)
    → Feeds s
    → s.next_md_seq + 1 < 2 ^ 64
    → is_stale s.engine (next_book s set) ≡ false
never_stale s set f h = elim (Bool-cases s.engine.book_seen) [
  | inl e ↦ let b = f.book_behind e in ground (arith, e, b, h)
  | inr e ↦ rw e refl
]

publish_book_lem :
    (s : ServerImpl) (set : FeedSet) (r : OrderEngine × List Routed)
    → on_book s.engine (next_book s set) ≡ some r
    → publish_book s set
      ≡ some (
          fan_out
            (record (tick s) {
              next_md_seq = inc_u64 s.next_md_seq;
              recorder = record_publish s.recorder (next_book s set).md_seq (steady_ns s);
              engine = r.0;
            })
            (next_book s set)
            r.1)
unfolding publish_book
publish_book_lem s set r e = rw (publish_book, e) refl

-- A published book is never stale: while the counter is below 2^64 - 1, publishing succeeds, gives the
-- book the next md_seq and installs it in the engine, leaves the count of ignored books as it is,
-- and, after all the fills and ticks that it sends to the sessions, leaves the server ready for the
-- next one.
pub publish_book_fresh :
    (s : ServerImpl) (set : FeedSet)
    → Feeds s
    → s.next_md_seq + 1 < 2 ^ 64
    → (u : ServerImpl) × (publish_book s set ≡ some u)
      × (u.next_md_seq ≡ s.next_md_seq + 1)
      × (u.engine.book ≡ next_book s set)
      × (u.engine.stale_books_ignored ≡ s.engine.stale_books_ignored)
      × Feeds u
publish_book_fresh s set f h =
    let book = next_book s set in
    let fresh = never_stale s set f h in
    let (r, answer, orders, reports, installed, seen, execs, stale) =
      on_book_refines s.engine book f.engine_sound fresh in
    let (q, same_answer, sound) = on_book-Inv book f.engine_sound in
    let t : ServerImpl = record (tick s) {
      next_md_seq = inc_u64 s.next_md_seq;
      recorder = record_publish s.recorder book.md_seq (steady_ns s);
      engine = r.0;
    } in
    let u = fan_out t book r.1 in
    let a = fan_out-Follows t book r.1 in
    let z = a.engine_settled in
    let one_more : inc_u64 s.next_md_seq ≡ s.next_md_seq + 1 = omega arith in
    let same_r : q ≡ r = some_inj (sym same_answer ∙ answer) in
    let at : u.engine.book.md_seq ≡ u.next_md_seq =
      ap (λ (b : Book). b.md_seq) (z.book_kept ∙ installed) ∙ sym a.next_kept in
    (
      u,
      publish_book_lem s set r answer,
      a.next_kept ∙ one_more,
      z.book_kept ∙ installed,
      z.stale_kept ∙ stale,
      record {
        engine_sound = z.inv_kept (subst (λ (x : OrderEngine × List Routed). Inv x.0) same_r sound);
        book_behind = λ e. omega (arith, at);
      },
    )
