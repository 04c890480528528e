-- ===== src/Server/Aggregate.antt =====
-- The conflated count of the whole server (cpp/src/server.cpp): what a closing session has counted is not
-- lost when it leaves the sum.
use market_maker_proto.Prelude.{
  ℕ, zero, suc, ◌≡◌, ◌⊎◌, refl, ap, ap₂, ◌∙◌, ◌+◌, ◌%◌, ◌^◌, true, false, ◌&&◌, ◌==◌, if_cases,
  Bool-cases, Option, none, some, List, [], ◌∷◌, All, inl, inr, arith,
}
use market_maker_proto.Telemetry.{TelemetryRecord, session_close}
use market_maker_proto.Session.State.{Session, ServerImpl}
use market_maker_proto.Session.Events.{emit_event, sample_ring_pending}
use market_maker_proto.Server.Snapshot.{
  sum_conflated, settle_snapshot_counters, publish_record, offer_fault, publish_held,
  publish_pending_fault, push_final_snapshot,
}
use market_maker_proto.Server.Shutdown.{finalize, session_closed, erase, is_none_open}

-- What the conflated lane of a snapshot would be.
abbrev pub aggregate : ServerImpl → ℕ
aggregate srv = sum_conflated srv.sessions srv.conflated_base

abbrev pub Absent : List (ℕ × Session) → ℕ → Type 0
Absent sessions epoch = All (λ x. (x.0 == epoch) ≡ false) sessions

-- The map has one entry of the epoch, whose session has conflated `c` ticks.
abbrev pub Once : List (ℕ × Session) → ℕ → ℕ → Type 0
Once [] epoch c = ⊥
Once ((k, s) ∷ sessions) epoch c =
    (((k == epoch) ≡ true) × (s.outbox.conflated ≡ c) × Absent sessions epoch)
    ⊎ (((k == epoch) ≡ false) × Once sessions epoch c)

erase-Absent : (ss : List (ℕ × Session)) (epoch : ℕ) → Absent ss epoch → erase ss epoch ≡ ss
unfolding erase
erase-Absent [] epoch h = refl
erase-Absent ((k, s) ∷ ss) epoch (e, h) =
    rw e (ap (λ rest. (k, s) ∷ rest) (erase-Absent ss epoch h))

fold_into :
    (ss : List (ℕ × Session)) (epoch c b : ℕ)
    → Once ss epoch c
    → sum_conflated (erase ss epoch) ((b + c) % 2 ^ 64) ≡ sum_conflated ss b
unfolding sum_conflated erase
fold_into [] epoch c b h = absurd h
fold_into ((k, s) ∷ ss) epoch c b (inl (e, f, a)) = rw (e, erase-Absent ss epoch a, f) refl
fold_into ((k, s) ∷ ss) epoch c b (inr (e, h)) =
    let n = s.outbox.conflated in
    let swap : ((b + c) % 2 ^ 64 + n) % 2 ^ 64 ≡ ((b + n) % 2 ^ 64 + c) % 2 ^ 64 = omega arith in
    rw e (ap (sum_conflated (erase ss epoch)) swap ∙ fold_into ss epoch c ((b + n) % 2 ^ 64) h)

-- The sum is untouched.
abbrev Summed : ServerImpl → ServerImpl → Type 0
Summed s u = (u.sessions ≡ s.sessions) × (u.conflated_base ≡ s.conflated_base)

publish-Summed : (s : ServerImpl) (r : TelemetryRecord) → Summed s (publish_record s r).0
unfolding publish_record
publish-Summed s r = (refl, refl)

Summed-trans : (s t u : ServerImpl) → Summed s t → Summed t u → Summed s u
Summed-trans s t u p q = (q.0 ∙ p.0, q.1 ∙ p.1)

offer-Summed : (n : ℕ) (s : ServerImpl) (r : TelemetryRecord) → Summed s (offer_fault n s r).0
unfolding offer_fault
offer-Summed zero s r = publish-Summed s r
offer-Summed (suc n) s r = elim (Bool-cases (publish_record s r).1) [
  | inl e ↦ rw (offer_fault, e) (publish-Summed s r)
  | inr e ↦
      rw (offer_fault, e)
        (Summed-trans s (publish_record s r).0 (offer_fault n (publish_record s r).0 r).0
          (publish-Summed s r) (offer-Summed n (publish_record s r).0 r))
]

held-Summed : (s : ServerImpl) (o : Option TelemetryRecord) → Summed s (publish_held s o).0
held-Summed s none = (refl, refl)
held-Summed s (some r) = offer-Summed s.env.fault_retries s r

final-Summed : (s : ServerImpl) → Summed s (push_final_snapshot s).0
unfolding push_final_snapshot publish_pending_fault settle_snapshot_counters sample_ring_pending
    publish_record
final-Summed s = held-Summed s s.pending_fault

finalize-Summed : (s : ServerImpl) → Summed s (finalize s)
unfolding finalize
finalize-Summed s =
    if_cases (Summed s) s.finalized _ _ (λ e. (refl, refl))
      (λ e. final-Summed (record s { finalized = true }))

-- The aggregate does not move when a session closes: if the map has one entry of the epoch and the
-- session has conflated what is reported of it, the count that a snapshot would carry is the same
-- after session_closed as before, whether or not the session was the last one of a stopping server.
pub session_closed_keeps :
    (srv : ServerImpl) (epoch code c : ℕ)
    → Once srv.sessions epoch c
    → aggregate (session_closed srv epoch code c) ≡ aggregate srv
unfolding session_closed emit_event sample_ring_pending
session_closed_keeps srv epoch code c h =
    let folded = fold_into srv.sessions epoch c srv.conflated_base h in
    if_cases (λ (u : ServerImpl). aggregate u ≡ aggregate srv)
      (srv.stopping && is_none_open (erase srv.sessions epoch)) _ _
      (λ e.
        let told =
          emit_event (record srv { conflated_base = (srv.conflated_base + c) % 2 ^ 64 })
            session_close epoch code in
        let f = finalize-Summed (record told { sessions = erase told.sessions epoch }) in
        ap₂ sum_conflated f.0 f.1 ∙ folded)
      (λ e. folded)
