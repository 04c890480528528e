-- ===== src/Server/Tests.antt =====
-- The server of cpp/src/server.cpp with two sessions on concrete events.
use market_maker_proto.Prelude.{◌≡◌, refl, some, [], ◌∷◌, inl, inr, arith}
use market_maker_proto.Prelude.Int.{pos}
use market_maker_proto.Engine.State.{initial}
use market_maker_proto.Engine.Invariant.{initial-Inv}
use market_maker_proto.Feed.{FeedSet}
use market_maker_proto.Session.State.{Session, ServerImpl}
use market_maker_proto.Session.Tests.{mock, server_at, fresh}
use market_maker_proto.Server.Shutdown.{session_closed}
use market_maker_proto.Server.Driver.{publish_book, next_book}
use market_maker_proto.Server.Feeding.{Feeds, publish_book_fresh}
use market_maker_proto.Server.Aggregate.{aggregate, session_closed_keeps}

-- A session of epoch 8 that has conflated three ticks.
abbrev slow : Session
slow = record fresh { epoch = 8; outbox = record fresh.outbox { conflated = 3 } }

abbrev two_sessions : ServerImpl
two_sessions = record (server_at 5) { sessions = (7, fresh) ∷ (8, slow) ∷ []; conflated_base = 4 }

session_closed_keeps_example :
    aggregate (session_closed two_sessions 8 1001 3) ≡ aggregate two_sessions
session_closed_keeps_example =
    session_closed_keeps two_sessions 8 1001 3 (inr (refl, inl (refl, refl, tt)))

abbrev quotes : FeedSet
quotes = record { bid_px = pos 100; bid_qty = pos 5; ask_px = pos 105; ask_qty = pos 5 }

sound : Feeds two_sessions
unfolding initial
sound = record {
  engine_sound = initial-Inv mock 100;
  book_behind = λ e. absurd (ground (arith, e));
}

publish_book_fresh_example :
    (u : ServerImpl) × (publish_book two_sessions quotes ≡ some u)
    × (u.next_md_seq ≡ 3)
    × (u.engine.book ≡ next_book two_sessions quotes)
    × (u.engine.stale_books_ignored ≡ two_sessions.engine.stale_books_ignored)
    × Feeds u
publish_book_fresh_example = publish_book_fresh two_sessions quotes sound (omega arith)
