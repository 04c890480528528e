-- ===== src/Session/Wire.antt =====
-- What a session puts on its wire through its life (cpp/src/session.cpp, cpp/src/session_close.cpp), by
-- induction on the steps of Session/Machine.
use market_maker_proto.Prelude.{
  ℕ, ◌≡◌, ◌⊎◌, refl, sym, ap, ◌∙◌, true, false, List, [], ◌∷◌, ◌++◌, append-nil, append_assoc,
  inc_u64, inl, inr, All, arith,
}
use market_maker_proto.Protocol.{OutMsg}
use market_maker_proto.Outbox.{holds_tob}
use market_maker_proto.Session.State.{Session, ServerImpl}
use market_maker_proto.Session.Runs.{Event, run}
use market_maker_proto.Session.Machine.{
  View, view, writes, wire_seq, wire_epoch, ◌⟶◌, ◌⟶*◌, here, more, latch, frame, write, spend, land,
  tear,
}
use market_maker_proto.Session.Refines.Handlers.{run-⟶*}

-- The sequence number after those of `ms`, the first of which is `k`.
abbrev pub next_seq : ℕ → List OutMsg → ℕ
next_seq k [] = k
next_seq k (m ∷ ms) = next_seq (inc_u64 k) ms

-- The messages are numbered from `k` on without a gap, and each is of the epoch.
abbrev pub Numbered : ℕ → ℕ → List OutMsg → Type 0
Numbered epoch k [] = Unit
Numbered epoch k (m ∷ ms) =
    (wire_seq m ≡ k) × (wire_epoch m ≡ epoch) × Numbered epoch (inc_u64 k) ms

Numbered-snoc :
    (epoch k : ℕ) (ms : List OutMsg) (m : OutMsg)
    → Numbered epoch k ms
    → wire_seq m ≡ next_seq k ms
    → wire_epoch m ≡ epoch
    → Numbered epoch k (ms ++ (m ∷ []))
Numbered-snoc epoch k [] m h s e = (s, e, tt)
Numbered-snoc epoch k (x ∷ ms) m (a, b, h) s e = (a, b, Numbered-snoc epoch (inc_u64 k) ms m h s e)

next_seq-snoc :
    (k : ℕ) (ms : List OutMsg) (m : OutMsg) → next_seq k (ms ++ (m ∷ [])) ≡ inc_u64 (next_seq k ms)
next_seq-snoc k [] m = refl
next_seq-snoc k (x ∷ ms) m = next_seq-snoc (inc_u64 k) ms m

-- The wire is numbered from 1, and the next number is the session's unless its close frame is out.
pub record Wired (v : View) : Type 0 where
  pub numbered : Numbered v.epoch 1 v.sent
  pub next : (v.out_seq ≡ next_seq 1 v.sent) ⊎ (v.close_frame_sent ≡ true)

step-Wired : {v w : View} → v ⟶ w → Wired v → Wired w
step-Wired (latch code c d) h = record { numbered = h.numbered; next = h.next }
step-Wired (frame c d i) h = record { numbered = h.numbered; next = inr refl }
step-Wired {v} (write m i d f c s e) h =
    let at : v.out_seq ≡ next_seq 1 v.sent = elim h.next [
      | inl n ↦ n
      | inr n ↦ absurd (ground (arith, n, f))
    ] in
    record {
      numbered = Numbered-snoc v.epoch 1 v.sent m h.numbered (s ∙ at) e;
      next = inl (ap inc_u64 at ∙ sym (next_seq-snoc 1 v.sent m));
    }
step-Wired (spend i d c) h = record { numbered = h.numbered; next = inr refl }
step-Wired land h = record { numbered = h.numbered; next = h.next }
step-Wired (tear d) h = record { numbered = h.numbered; next = h.next }

path-Wired : {v w : View} → v ⟶* w → Wired v → Wired w
path-Wired here h = h
path-Wired (more s p) h = path-Wired p (step-Wired s h)

-- The wire never gaps: from a session whose wire is numbered, as a fresh one's is, after any sequence
-- of events the messages handed to the stream are numbered from 1 without a gap or a repetition
-- (modulo 2^64), each with the session's epoch.
pub run-Wired :
    (s : Session) (es : List (ServerImpl × Event)) → Wired (view s) → Wired (view (run s es))
run-Wired s es h = path-Wired (run-⟶* s es) h

-- What `w` has written beyond `v`, all of it reports if `v` is closing, and nothing if its close frame
-- is out.
pub record Added (v w : View) : Type 0 where
  pub added : List OutMsg
  pub sent_is : w.sent ≡ v.sent ++ added
  pub closing_kept : v.closing ≡ true → w.closing ≡ true
  pub frame_kept : v.close_frame_sent ≡ true → w.close_frame_sent ≡ true
  pub reports_only : v.closing ≡ true → All (λ m. holds_tob m ≡ false) added
  pub silent : v.close_frame_sent ≡ true → added ≡ []

nothing-Added :
    (v w : View)
    → w.sent ≡ v.sent
    → (v.closing ≡ true → w.closing ≡ true)
    → (v.close_frame_sent ≡ true → w.close_frame_sent ≡ true)
    → Added v w
nothing-Added v w e c f = record {
  added = [];
  sent_is = e ∙ sym (append-nil v.sent);
  closing_kept = c;
  frame_kept = f;
  reports_only = λ g. tt;
  silent = λ g. refl;
}

step-Added : {v w : View} → v ⟶ w → Added v w
step-Added (latch code c d) = nothing-Added _ _ refl (λ e. refl) (λ e. e)
step-Added (frame c d i) = nothing-Added _ _ refl (λ e. e) (λ e. refl)
step-Added {v} (write m i d f c s e) = record {
  added = m ∷ [];
  sent_is = refl;
  closing_kept = λ g. g;
  frame_kept = λ g. g;
  reports_only = λ g. (elim c [ inl n ↦ absurd (ground (arith, n, g)) | inr n ↦ n ], tt);
  silent = λ g. absurd (ground (arith, f, g));
}
step-Added (spend i d c) = nothing-Added _ _ refl (λ e. e) (λ e. refl)
step-Added land = nothing-Added _ _ refl (λ e. e) (λ e. e)
step-Added (tear d) = nothing-Added _ _ refl (λ e. e) (λ e. e)

All-append :
    (xs ys : List OutMsg)
    → All (λ m. holds_tob m ≡ false) xs
    → All (λ m. holds_tob m ≡ false) ys
    → All (λ m. holds_tob m ≡ false) (xs ++ ys)
All-append [] ys a b = b
All-append (x ∷ xs) ys (e, a) b = (e, All-append xs ys a b)

Added-trans : {u v w : View} → Added u v → Added v w → Added u w
Added-trans {u} a b = record {
  added = a.added ++ b.added;
  sent_is = b.sent_is ∙ (ap (λ ms. ms ++ b.added) a.sent_is ∙ append_assoc u.sent a.added b.added);
  closing_kept = λ e. b.closing_kept (a.closing_kept e);
  frame_kept = λ e. b.frame_kept (a.frame_kept e);
  reports_only =
      λ e. All-append a.added b.added (a.reports_only e) (b.reports_only (a.closing_kept e));
  silent = λ e. rw (a.silent e) (b.silent (a.frame_kept e));
}

path-Added : {v w : View} → v ⟶* w → Added v w
path-Added here = nothing-Added _ _ refl (λ e. e) (λ e. e)
path-Added (more s p) = Added-trans (step-Added s) (path-Added p)

-- What a session still writes once it is closing. After any sequence of events, what has been handed
-- to the stream is what was handed to it before and then some messages: none of them is a tick if the
-- session was closing, and there are none if its close frame was out, so the close frame is the last.
pub closing_wire :
    (s : Session) (es : List (ServerImpl × Event))
    → (ms : List OutMsg) × (writes (run s es).io ≡ writes s.io ++ ms)
      × (s.closing ≡ true → All (λ m. holds_tob m ≡ false) ms)
      × (s.close_frame_sent ≡ true → ms ≡ [])
closing_wire s es =
    let a = path-Added (run-⟶* s es) in (a.added, a.sent_is, a.reports_only, a.silent)
