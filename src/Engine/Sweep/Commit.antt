-- ===== src/Engine/Sweep/Commit.antt =====
-- The commit of on_book (cpp/src/engine.cpp): applying the staged batch to the map and the indexes
-- fills the same orders as visiting the full map.
use market_maker_proto.Prelude.{
  ℕ, ◌≡◌, refl, ap, ◌∙◌, true, false, ◌&&◌, arith, inc_u64, if◌then◌else◌, Bool-cases, inl, inr,
  List, [], ◌∷◌, ◌++◌, All,
}
use market_maker_proto.Prelude.Int.{pos, eqb_ℤ}
use market_maker_proto.Types.{Side, bid, ask, Instrument}
use market_maker_proto.Engine.Keys.{
  OrderKey, key_lt, Above, key_eq_refl, key_eq_of_lt, key_lt_trans,
}
use market_maker_proto.Engine.Containers.{Map, keys, update_at, idx_erase}
use market_maker_proto.Engine.State.{Order, Book, OrderEngine, live_index, same_side}
use market_maker_proto.Engine.Sweep.{StagedFill, settle, commit_fill, commit}
use market_maker_proto.Engine.Sweep.Reference.{is_hit, stage_all}

-- The commit, seen by the map and by one index.
unfoldable pub commit_orders : List StagedFill → Map Order → Map Order
commit_orders [] m = m
commit_orders (s ∷ staged) m = commit_orders staged (update_at s.lit (settle s.leaves_after) m)

unfoldable pub commit_index : Side → List StagedFill → List OrderKey → List OrderKey
commit_index side [] l = l
commit_index side (s ∷ staged) l =
    commit_index side staged
      (if same_side s.side side && eqb_ℤ s.leaves_after (pos 0) then idx_erase s.lit l else l)

commit_fill-orders :
    (e : OrderEngine) (side : Side) (s : StagedFill)
    → s.side ≡ side
    → (commit_fill e s).orders ≡ update_at s.lit (settle s.leaves_after) e.orders
unfolding commit_fill
commit_fill-orders e bid s h = ground arith
commit_fill-orders e ask s h = ground arith

commit_fill-index :
    (e : OrderEngine) (side on : Side) (s : StagedFill)
    → s.side ≡ on
    → live_index side (commit_fill e s) ≡ (
        if same_side s.side side && eqb_ℤ s.leaves_after (pos 0)
        then idx_erase s.lit (live_index side e)
        else live_index side e)
unfolding commit_fill
commit_fill-index e bid bid s h = ground arith
commit_fill-index e bid ask s h = ground arith
commit_fill-index e ask bid s h = ground arith
commit_fill-index e ask ask s h = ground arith

pub commit-orders :
    (e : OrderEngine) (staged : List StagedFill)
    → (commit e staged).orders ≡ commit_orders staged e.orders
unfolding commit commit_orders
commit-orders e [] = refl
commit-orders e (s ∷ staged) =
    commit-orders (commit_fill e s) staged
    ∙ ap (commit_orders staged) (commit_fill-orders e s.side s refl)

pub commit-index :
    (e : OrderEngine) (side : Side) (staged : List StagedFill)
    → live_index side (commit e staged) ≡ commit_index side staged (live_index side e)
unfolding commit commit_index
commit-index e side [] = refl
commit-index e side (s ∷ staged) =
    commit-index (commit_fill e s) side staged
    ∙ ap (commit_index side staged) (commit_fill-index e side s.side s refl)

pub commit_orders-append :
    (xs ys : List StagedFill) (m : Map Order)
    → commit_orders (xs ++ ys) m ≡ commit_orders ys (commit_orders xs m)
unfolding commit_orders
commit_orders-append [] ys m = refl
commit_orders-append (x ∷ xs) ys m =
    commit_orders-append xs ys (update_at x.lit (settle x.leaves_after) m)

pub commit_index-append :
    (side : Side) (xs ys : List StagedFill) (l : List OrderKey)
    → commit_index side (xs ++ ys) l ≡ commit_index side ys (commit_index side xs l)
unfolding commit_index
commit_index-append side [] ys l = refl
commit_index-append side (x ∷ xs) ys l = commit_index-append side xs ys _

-- Every staged fill is of the side, at a key above `k`.
abbrev pub StagedAbove : OrderKey → Side → List StagedFill → Type 0
StagedAbove k side = All (λ s. (key_lt k s.lit ≡ true) × (s.side ≡ side))

StagedAbove-trans :
    (j k : OrderKey) (side : Side) (l : List StagedFill)
    → key_lt j k ≡ true
    → StagedAbove k side l
    → StagedAbove j side l
StagedAbove-trans j k side [] h a = tt
StagedAbove-trans j k side (s ∷ l) h a =
    ((key_lt_trans j k s.lit h a.0.0, a.0.1), StagedAbove-trans j k side l h a.1)

pub stage_all-Above :
    (inst : Instrument) (side : Side) (book : Book) (k : OrderKey) (m : Map Order) (x : ℕ)
    → Above k (keys m)
    → StagedAbove k side (stage_all inst side book m x).0
unfolding stage_all
stage_all-Above inst side book k [] x a = tt
stage_all-Above inst side book k ((j, o) ∷ m) x a = elim (Bool-cases (is_hit inst side book o)) [
  | inl hit ↦ rw (hit, stage_all) ((a.0, refl), stage_all-Above inst side book k m (inc_u64 x) a.1)
  | inr miss ↦ rw (miss, stage_all) (stage_all-Above inst side book k m x a.1)
]

-- Fills above a key leave the entry at the key.
pub commit_orders-Above :
    (side : Side) (k : OrderKey) (o : Order) (staged : List StagedFill) (m : Map Order)
    → StagedAbove k side staged
    → commit_orders staged ((k, o) ∷ m) ≡ (k, o) ∷ commit_orders staged m
unfolding commit_orders update_at
commit_orders-Above side k o [] m a = refl
commit_orders-Above side k o (s ∷ staged) m a =
    rw (key_eq_of_lt k s.lit a.0.0, update_at)
      (commit_orders-Above side k o staged (update_at s.lit (settle s.leaves_after) m) a.1)

pub commit_index-Above :
    (side : Side) (k : OrderKey) (staged : List StagedFill) (l : List OrderKey)
    → StagedAbove k side staged
    → commit_index side staged (k ∷ l) ≡ k ∷ commit_index side staged l
unfolding commit_index idx_erase
commit_index-Above side k [] l a = refl
commit_index-Above side k (s ∷ staged) l a =
    elim (Bool-cases (same_side s.side side && eqb_ℤ s.leaves_after (pos 0))) [
      | inl gone ↦
          rw (gone, commit_index, key_eq_of_lt k s.lit a.0.0, idx_erase)
            (commit_index-Above side k staged (idx_erase s.lit l) a.1)
      | inr there ↦ rw (there, commit_index) (commit_index-Above side k staged l a.1)
    ]

pub same_side_refl : (s : Side) → same_side s s ≡ true
same_side_refl bid = refl
same_side_refl ask = refl

-- A fill of the first entry.
pub commit_orders-hit :
    (side : Side) (s : StagedFill) (o : Order) (staged : List StagedFill) (m : Map Order)
    → StagedAbove s.lit side staged
    → commit_orders (s ∷ staged) ((s.lit, o) ∷ m)
      ≡ (s.lit, settle s.leaves_after o) ∷ commit_orders staged m
unfolding commit_orders update_at
commit_orders-hit side s o staged m a =
    ap (commit_orders staged) written ∙ commit_orders-Above side s.lit _ staged m a
  where
    written :
        update_at s.lit (settle s.leaves_after) ((s.lit, o) ∷ m)
        ≡ (s.lit, settle s.leaves_after o) ∷ m
    written = rw (key_eq_refl s.lit, update_at)

pub commit_index-hit :
    (side : Side) (s : StagedFill) (staged : List StagedFill) (l : List OrderKey)
    → same_side s.side side ≡ true
    → StagedAbove s.lit side staged
    → commit_index side (s ∷ staged) (s.lit ∷ l) ≡ (
        if eqb_ℤ s.leaves_after (pos 0)
        then commit_index side staged l
        else s.lit ∷ commit_index side staged l)
unfolding commit_index idx_erase
commit_index-hit side s staged l h a = elim (Bool-cases (eqb_ℤ s.leaves_after (pos 0))) [
  | inl gone ↦ rw (h, gone, commit_index, key_eq_refl s.lit, idx_erase)
  | inr there ↦ rw (h, there, commit_index) (commit_index-Above side s.lit staged l a)
]

abbrev pub OnSide : Side → List StagedFill → Type 0
OnSide side = All (λ s. s.side ≡ side)

pub stage_all-OnSide :
    (inst : Instrument) (side : Side) (book : Book) (m : Map Order) (x : ℕ)
    → OnSide side (stage_all inst side book m x).0
unfolding stage_all
stage_all-OnSide inst side book [] x = tt
stage_all-OnSide inst side book ((j, o) ∷ m) x = elim (Bool-cases (is_hit inst side book o)) [
  | inl hit ↦ rw (hit, stage_all) (refl, stage_all-OnSide inst side book m (inc_u64 x))
  | inr miss ↦ rw (miss, stage_all) (stage_all-OnSide inst side book m x)
]

-- Fills of one side leave the other side's index.
pub commit_index_other :
    (side on : Side) (staged : List StagedFill) (l : List OrderKey)
    → same_side on side ≡ false
    → OnSide on staged
    → commit_index side staged l ≡ l
unfolding commit_index
commit_index_other side on [] l h a = refl
commit_index_other side on (s ∷ staged) l h a =
    let e : same_side s.side side ≡ false = rw a.0 h in
    rw (e, commit_index) (commit_index_other side on staged l h a.1)

-- What a commit leaves alone.
pub record SameRest (e f : OrderEngine) : Type 0 where
  pub inst : e.inst ≡ f.inst
  pub book : e.book ≡ f.book
  pub book_seen : e.book_seen ≡ f.book_seen
  pub next_eng_id : e.next_eng_id ≡ f.next_eng_id
  pub next_exec_id : e.next_exec_id ≡ f.next_exec_id
  pub stale : e.stale_books_ignored ≡ f.stale_books_ignored
  pub cap : e.max_session_entries ≡ f.max_session_entries
  pub entries : e.entries_by_session ≡ f.entries_by_session

SameRest-trans : {e f g : OrderEngine} → SameRest e f → SameRest f g → SameRest e g
SameRest-trans a b = record {
  inst = a.inst ∙ b.inst;
  book = a.book ∙ b.book;
  book_seen = a.book_seen ∙ b.book_seen;
  next_eng_id = a.next_eng_id ∙ b.next_eng_id;
  next_exec_id = a.next_exec_id ∙ b.next_exec_id;
  stale = a.stale ∙ b.stale;
  cap = a.cap ∙ b.cap;
  entries = a.entries ∙ b.entries;
}

commit_fill-SameRest :
    (e : OrderEngine) (side : Side) (s : StagedFill) → s.side ≡ side → SameRest (commit_fill e s) e
unfolding commit_fill
commit_fill-SameRest e bid s h = ground arith
commit_fill-SameRest e ask s h = ground arith

pub commit-SameRest : (e : OrderEngine) (staged : List StagedFill) → SameRest (commit e staged) e
unfolding commit
commit-SameRest e [] = record {
  inst = refl;
  book = refl;
  book_seen = refl;
  next_eng_id = refl;
  next_exec_id = refl;
  stale = refl;
  cap = refl;
  entries = refl;
}
commit-SameRest e (s ∷ staged) =
    SameRest-trans (commit-SameRest (commit_fill e s) staged) (commit_fill-SameRest e s.side s refl)
