-- ===== src/Sends/Guard/Retry.antt =====
-- Sequences of attempts: a send whose outcome is unknown is not repeated under its id, and what a
-- finished send leaves for the next attempt.
use mathlib.Core.Path.{subst}
use wacli.Common.{
  ℕ, ◌+◌, ◌≤◌, ◌≡◌, ◌≢◌, refl, sym, ap, ◌∙◌, ◌⊎◌, inl, inr, Bool, true, false, ◌&&◌, Option, none,
  some, List, [], ◌∷◌, arith, if◌then◌else◌, Bool-cases, Option-cases, Text, text_eq, text_eq_iff,
  text_eq_refl, trim_space, Result, ok, err, All,
}
use wacli.Sends.Pending.{
  sent, done, PendingSend, Db, OwnMessage, OwnMessageRef, Error, retention, find_row, purge,
  get_pending, begin_pending, complete_pending, mark_sent, finish_pending, find_own_message_ref,
}
use wacli.Sends.Pending.Laws.{updated, find_row-remove, find_row-set_state}
use wacli.Sends.Guard.{
  Request, Response, GuardError, SendError, Begun, Wire, finish, is_guarded, already_sent_response,
  begin_id_send, attempt, by_message, pending_sent_response, sent_row?, sent_row, begun_first,
  begun_row, row_of, store_message, after_begin, after_check, error_after_dispatch_is_unknown,
  proceed, answer, fail, answered, with_forwarded, id_reused, stored_kind_of,
  reused_for_another_message, request_content_hash, target_mismatch, sent_mismatch, unguarded,
  refused, early, is_done,
}
use wacli.Sends.Guard.Laws.{
  Blocks, begun_row-db, begun_row-existing, attempt_blocked, attempt_other-Blocks,
}

-- One attempt of a history: when, what was asked, and what the wire would do.
pub record Entry : Type 0 where
  pub now : ℕ
  pub req : Request
  pub wire : Wire

module _ (digest : Text → Text) (twins : Text → Option (List Text)) where
  -- The attempts in order, with whether each reached the wire, and the store they leave.
  pub history : List Entry → Db → List (Entry × Bool) × Db
  unfolding attempt
  history [] d = ([], d)
  history (e ∷ es) d =
      let a = attempt digest twins e.now e.req e.wire d in
      let rest = history es a.db in ((e, a.on_wire) ∷ rest.0, rest.1)

  -- Every attempt of the history is before `until`, has an id, and if it has this id is guarded.
  abbrev pub Fair : Text → ℕ → Entry → Type 0
  Fair id until e =
      (e.now ≤ until) × (trim_space e.req.new_id ≡ id → is_guarded digest twins e.req ≡ true)

  -- No attempt with the id reached the wire.
  abbrev pub Silent : Text → Entry × Bool → Type 0
  Silent id log = trim_space log.0.req.new_id ≡ id → log.1 ≡ false

  -- While a row in flight of an id has not expired, no attempt of any history puts a message with
  -- that id on the wire.
  pub history_blocked :
      (es : List Entry) (id : Text) (until : ℕ) (d : Db)
      → id ≢ []
      → All (Fair id until) es
      → Blocks id until d
      → All (Silent id) (history es d).0
  unfolding history
  history_blocked [] id until d named fair b = tt
  history_blocked (e ∷ es) id until d named ((le, guarded), fair) b =
      elim (Bool-cases (text_eq (trim_space e.req.new_id) id)) [
        | inl eq ↦
            let same : trim_space e.req.new_id ≡ id = (text_eq_iff _ _).0 eq in
            let (off, kept) =
              attempt_blocked digest twins e.now e.req e.wire until d le (λ z. named (sym same ∙ z))
                (guarded same) (rw same b) in
            (
              (λ _. off),
              history_blocked es id until _ named fair (
                  subst (λ i. Blocks i until (attempt digest twins e.now e.req e.wire d).db) same
                    kept),
            )
        | inr ne ↦
            let other : trim_space e.req.new_id ≢ id = λ z. cc (ne, (text_eq_iff _ _).1 z) in
            (
              (λ z. absurd (other z)),
              history_blocked es id until _ named fair
                  (attempt_other-Blocks digest twins e.now e.req e.wire id until d le other b),
            )
      ]

  -- The row that `beginIDSend` writes for a request.
  abbrev pub fresh_row : ℕ → Request → PendingSend
  fresh_row now req = record (row_of digest twins req) {
    msg_id = trim_space req.new_id;
    created_at = now;
  }

  begin_pending-inserted :
      (now : ℕ) (req : Request) (d : Db) (r : PendingSend)
      → (begin_pending now (row_of digest twins req) d).0 ≡ ok (r, true)
      → find_row (trim_space req.new_id) (begin_pending now (row_of digest twins req) d).1.pending
        ≡ some (fresh_row now req)
  unfolding begin_pending row_of find_row
  begin_pending-inserted now req d r e =
      elim (Option-cases (find_row (trim_space req.new_id) (purge now d.pending))) [
        | inl free ↦ ground (arith, free, text_eq_refl (trim_space req.new_id))
        | inr (x, taken) ↦ absurd (ground (arith, taken))
      ]

  begun_row-proceed :
      (req : Request) (found : Result Error (PendingSend × Bool)) (d : Db)
      → (begun_row digest twins req (found, d)).0 ≡ proceed
      → (r : PendingSend) × (found ≡ ok (r, true))
  unfolding begun_row
  begun_row-proceed req (err e) d h = cc
  begun_row-proceed req (ok (r, true)) d h = (r, refl)
  begun_row-proceed req (ok (r, false)) d h = elim (begun_row-existing digest twins req r d) [
    | inl (x, e) ↦ absurd (cc (ap (λ (b : Begun × Db). b.0) e, h))
    | inr (x, e) ↦ absurd (cc (ap (λ (b : Begun × Db). b.0) e, h))
  ]

  abbrev pub HasFresh : ℕ → Request → Db → Type 0
  HasFresh now req d = find_row (trim_space req.new_id) d.pending ≡ some (fresh_row now req)

  begun_first-proceed :
      (now : ℕ) (req : Request) (found : Result Error (PendingSend × Bool)) (d : Db)
      → ((r : PendingSend) → found ≡ ok (r, true) → HasFresh now req d)
      → (begun_first digest twins now req (found, d)).0 ≡ proceed
      → HasFresh now req (begun_first digest twins now req (found, d)).1
  unfolding begun_first
  begun_first-proceed now req (err e) d fresh h = cc
  begun_first-proceed now req (ok (r, true)) d fresh h = fresh r refl
  begun_first-proceed now req (ok (r, false)) d fresh h = elim (Bool-cases (is_done r.state)) [
    | inl e ↦
        let freed = (finish_pending req.new_id d).1 in
        let again = begin_pending now (row_of digest twins req) freed in
        let went : (begun_row digest twins req again).0 ≡ proceed = rw (e, begun_first) at h in
        let (r', inserted) = begun_row-proceed req again.0 again.1 went in
        rw (e, begun_first)
          (rw (begun_row-db digest twins req again.0 again.1)
            (begin_pending-inserted now req freed r' inserted))
    | inr e ↦
        let went : (begun_row digest twins req (ok (r, false), d)).0 ≡ proceed =
          rw (e, begun_first) at h in
        let (r', same) = begun_row-proceed req (ok (r, false)) d went in absurd (cc same)
  ]

  -- Going ahead leaves the fresh row of the request.
  begin_id_send-proceed :
      (now : ℕ) (req : Request) (d : Db)
      → is_guarded digest twins req ≡ true
      → (begin_id_send digest twins now req d).0 ≡ proceed
      → HasFresh now req (begin_id_send digest twins now req d).1
  unfolding begin_id_send
  begin_id_send-proceed now req d g h =
      let begun = begin_pending now (row_of digest twins req) d in
      rw (g, begin_id_send)
        (begun_first-proceed now req begun.0 begun.1 (begin_pending-inserted now req d)
          (rw (g, begin_id_send) at h))

  begun_row-guarded :
      (req : Request) (found : Result Error (PendingSend × Bool)) (d : Db)
      → (begun_row digest twins req (found, d)).0 ≢ unguarded
  unfolding begun_row
  begun_row-guarded req (err e) d h = cc
  begun_row-guarded req (ok (r, true)) d h = cc
  begun_row-guarded req (ok (r, false)) d h = elim (begun_row-existing digest twins req r d) [
    | inl (x, e) ↦ cc (ap (λ (b : Begun × Db). b.0) e, h)
    | inr (x, e) ↦ cc (ap (λ (b : Begun × Db). b.0) e, h)
  ]

  begin_id_send-guarded :
      (now : ℕ) (req : Request) (d : Db)
      → is_guarded digest twins req ≡ true
      → (begin_id_send digest twins now req d).0 ≢ unguarded
  unfolding begin_id_send
  begin_id_send-guarded now req d g h =
      let begun = begin_pending now (row_of digest twins req) d in
      go begun.0 begun.1 (rw (g, begin_id_send) at h)
    where
      go :
          (found : Result Error (PendingSend × Bool)) (d' : Db)
          → (begun_first digest twins now req (found, d')).0 ≢ unguarded
      go (err e) d' k = cc
      go (ok (r, true)) d' k = cc
      go (ok (r, false)) d' k = elim (Bool-cases (is_done r.state)) [
        | inl e ↦
            let again =
              begin_pending now (row_of digest twins req) (finish_pending req.new_id d').1 in
            begun_row-guarded req again.0 again.1 (rw (e, begun_first) at k)
        | inr e ↦ begun_row-guarded req (ok (r, false)) d' (rw (e, begun_first) at k)
      ]

  -- A guarded attempt that reached the wire went ahead, and its store is the finished one.
  record Went (now : ℕ) (req : Request) (w : Wire) (d : Db) : Type 0 where
    before : Db
    fresh : HasFresh now req before
    after :
        (attempt digest twins now req w d).db
        ≡ finish
            (some w.dispatched)
            w.error
            w.store_warning
            w.chat
            req.new_id
            (store_message digest twins req w.stored before)

  after_begin-wired :
      (req : Request) (w : Wire) (begun : Begun) (d : Db)
      → begun ≢ unguarded
      → (after_begin digest twins req w (begun, d)).on_wire ≡ true
      → (begun ≡ proceed)
        × ((after_begin digest twins req w (begun, d)).db
            ≡ finish
                (some w.dispatched)
                w.error
                w.store_warning
                w.chat
                req.new_id
                (store_message digest twins req w.stored d))
  unfolding after_begin
  after_begin-wired req w unguarded d ne h = absurd (ne refl)
  after_begin-wired req w (early r) d ne h = absurd (cc h)
  after_begin-wired req w (refused e) d ne h = absurd (cc h)
  after_begin-wired req w proceed d ne h = (refl, refl)

  attempt-Went :
      (now : ℕ) (req : Request) (w : Wire) (d : Db)
      → is_guarded digest twins req ≡ true
      → (attempt digest twins now req w d).on_wire ≡ true
      → Went now req w d
  unfolding attempt
  attempt-Went now req w d g h = go (already_sent_response digest twins req d) refl
    where
      go :
          (checked : Result GuardError (Option Response))
          → already_sent_response digest twins req d ≡ checked
          → Went now req w d
      go (err e) at = absurd (cc (h, at))
      go (ok (some r)) at = absurd (cc (h, at))
      go (ok none) at =
          let begun = begin_id_send digest twins now req d in
          let (went, db) =
            after_begin-wired req w begun.0 begun.1 (begin_id_send-guarded now req d g)
              (rw (at, attempt) at h) in
          record {
            before = begun.1;
            fresh = begin_id_send-proceed now req d g went;
            after = rw (at, attempt) db;
          }

  finish_unknown :
      (w : Wire) (e : SendError) (id : Text) (d : Db)
      → w.error ≡ some e
      → w.dispatched ≡ true
      → error_after_dispatch_is_unknown (some e) ≡ true
      → finish (some w.dispatched) w.error w.store_warning w.chat id d ≡ d
  unfolding finish
  finish_unknown w e id d failed dispatched unknown = rw (failed, dispatched, unknown, finish)

  store_message-row :
      (req : Request) (m : Option OwnMessage) (d : Db)
      → (store_message digest twins req m d).pending ≡ d.pending
  unfolding store_message
  store_message-row req none d = refl
  store_message-row req (some m) d = refl

  -- A send that the guard covers, that was dispatched and got no definite answer, is never repeated:
  -- after it, no attempt of a history within the retention puts a message with its id on the wire. The
  -- attempts of the history may use other ids at will; those with its id are of a kind that the guard
  -- covers (an edit, a revoke, a vote or a status under the same id is not, and does go out).
  pub unknown_never_repeated :
      (now : ℕ) (req : Request) (w : Wire) (e : SendError) (d : Db) (es : List Entry)
      → trim_space req.new_id ≢ []
      → is_guarded digest twins req ≡ true
      → (attempt digest twins now req w d).on_wire ≡ true
      → w.error ≡ some e
      → w.dispatched ≡ true
      → error_after_dispatch_is_unknown (some e) ≡ true
      → All (Fair (trim_space req.new_id) (now + retention)) es
      → All (Silent (trim_space req.new_id)) (history es (attempt digest twins now req w d).db).0
  unfolding row_of
  unknown_never_repeated now req w e d es named g sends failed dispatched unknown fair =
      let went = attempt-Went now req w d g sends in
      let kept = store_message-row req w.stored went.before in
      let still : (attempt digest twins now req w d).db
          ≡ store_message digest twins req w.stored went.before =
        went.after
        ∙ finish_unknown w e req.new_id (store_message digest twins req w.stored went.before) failed
            dispatched unknown in
      history_blocked es (trim_space req.new_id) (now + retention) _ named fair (
        subst (Blocks (trim_space req.new_id) (now + retention)) (sym still) (
          fresh_row now req,
          ap (find_row (trim_space req.new_id)) kept ∙ went.fresh,
          refl,
          omega arith,
        ))

  -- The row that a send leaves, by its outcome.
  abbrev pub row_after : Wire → PendingSend → Option PendingSend
  row_after w r = elim w.error [
    | none ↦ updated (if text_eq w.store_warning [] then done else sent) w.chat (some r)
    | some e ↦ if w.dispatched && error_after_dispatch_is_unknown (some e) then some r else none
  ]

  finish-row :
      (w : Wire) (id : Text) (r : PendingSend) (d : Db)
      → find_row (trim_space id) d.pending ≡ some r
      → find_row
          (trim_space id)
          (finish (some w.dispatched) w.error w.store_warning w.chat id d).pending
        ≡ row_after w r
  unfolding finish complete_pending mark_sent finish_pending
  finish-row w id r d e = ground (
    arith,
    find_row-set_state done w.chat (trim_space id) (trim_space id) d.pending,
    find_row-set_state sent w.chat (trim_space id) (trim_space id) d.pending,
    find_row-remove (trim_space id) (trim_space id) d.pending,
    text_eq_refl (trim_space id),
  )

  -- After a guarded attempt that reached the wire, the row of its id is: done after a stored send,
  -- sent after one whose store failed, in flight after one whose outcome is unknown, and gone after
  -- a definite failure.
  pub attempt_outcome :
      (now : ℕ) (req : Request) (w : Wire) (d : Db)
      → is_guarded digest twins req ≡ true
      → (attempt digest twins now req w d).on_wire ≡ true
      → get_pending req.new_id (attempt digest twins now req w d).db
        ≡ row_after w (fresh_row now req)
  unfolding get_pending
  attempt_outcome now req w d g sends =
      let went = attempt-Went now req w d g sends in
      let kept = store_message-row req w.stored went.before in
      ap (λ (x : Db). find_row (trim_space req.new_id) x.pending) went.after
      ∙ finish-row w req.new_id (fresh_row now req)
          (store_message digest twins req w.stored went.before)
          (ap (find_row (trim_space req.new_id)) kept ∙ went.fresh)

  -- With an own message stored under its id, a guarded request puts nothing on the wire, changes
  -- nothing, and is answered as sent to the stored chat, or refused if it says something else.
  pub attempt_stored :
      (now : ℕ) (req : Request) (w : Wire) (d : Db) (ref : OwnMessageRef)
      → is_guarded digest twins req ≡ true
      → find_own_message_ref req.new_id d ≡ ok (some ref)
      → attempt digest twins now req w d ≡ record {
        reply =
            if reused_for_another_message req ref
            then fail (id_reused req.new_id ref.chat_jid)
            else answer (
                with_forwarded req (
                  answered ref.chat_jid req.new_id
                    (target_mismatch digest twins req ref.chat_jid d)));
        on_wire = false;
        db = d;
      }
  unfolding attempt
  attempt_stored now req w d ref g found = elim (Bool-cases (reused_for_another_message req ref)) [
    | inl e ↦ rw (attempt, g, already_sent_response, found, by_message, e)
    | inr e ↦ rw (attempt, g, already_sent_response, found, by_message, e)
  ]

  abbrev pub SameContent : Request → PendingSend → Type 0
  SameContent req r =
      (r.kind ≡ stored_kind_of req.kind) × (r.content_hash ≡ request_content_hash digest twins req)

  sent_row-cases :
      (req : Request) (r : PendingSend)
      → r.state ≡ sent
      → (SameContent req r
          × (sent_row digest twins req r
              ≡ ok (some (answered r.chat_jid req.new_id (sent_mismatch req r)))))
        ⊎ ((¬ (SameContent req r))
            × (sent_row digest twins req r ≡ err (id_reused req.new_id r.chat_jid)))
  unfolding sent_row
  sent_row-cases req r state = elim (Bool-cases (text_eq r.kind (stored_kind_of req.kind))) [
    | inr kind ↦ inr (
      (λ h. cc (kind, (text_eq_iff r.kind (stored_kind_of req.kind)).1 h.0)),
      rw (sent_row, state, kind),
    )
    | inl kind ↦
        elim (Bool-cases (text_eq r.content_hash (request_content_hash digest twins req))) [
          | inr hash ↦ inr (
            (λ h.
                cc (
                  hash,
                  (text_eq_iff r.content_hash (request_content_hash digest twins req)).1 h.1,
                )),
            rw (sent_row, state, kind, hash),
          )
          | inl hash ↦ inl (
            ((text_eq_iff _ _).0 kind, (text_eq_iff _ _).0 hash),
            rw (sent_row, state, kind, hash),
          )
        ]
  ]

  attempt-sent_row :
      (now : ℕ) (req : Request) (w : Wire) (d : Db) (r : PendingSend)
      → is_guarded digest twins req ≡ true
      → find_own_message_ref req.new_id d ≡ ok none
      → get_pending req.new_id d ≡ some r
      → attempt digest twins now req w d
        ≡ after_check digest twins now req w d (sent_row digest twins req r)
  unfolding attempt
  attempt-sent_row now req w d r g missing row = rw (
    attempt, already_sent_response, g, missing, by_message, pending_sent_response, row, sent_row?,
  )

  -- With a row in state sent and no stored message under its id, a guarded request puts nothing on
  -- the wire and changes nothing: it is answered as sent to the recorded chat if its kind and its
  -- content hash are those of the row, and refused otherwise.
  pub attempt_sent :
      (now : ℕ) (req : Request) (w : Wire) (d : Db) (r : PendingSend)
      → is_guarded digest twins req ≡ true
      → find_own_message_ref req.new_id d ≡ ok none
      → get_pending req.new_id d ≡ some r
      → r.state ≡ sent
      → (SameContent req r
          × (attempt digest twins now req w d ≡ record {
            reply = answer (answered r.chat_jid req.new_id (sent_mismatch req r));
            on_wire = false;
            db = d;
          }))
        ⊎ ((¬ (SameContent req r))
            × (attempt digest twins now req w d ≡ record {
              reply = fail (id_reused req.new_id r.chat_jid);
              on_wire = false;
              db = d;
            }))
  unfolding after_check
  attempt_sent now req w d r g missing row state =
      let same = attempt-sent_row now req w d r g missing row in
      elim (sent_row-cases req r state) [
        | inl (content, e) ↦ inl (content, same ∙ ap (after_check digest twins now req w d) e)
        | inr (content, e) ↦ inr (content, same ∙ ap (after_check digest twins now req w d) e)
      ]
