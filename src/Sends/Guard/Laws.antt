-- ===== src/Sends/Guard/Laws.antt =====
-- What an attempt does to the row of an id: the blocking row of a send whose outcome is unknown.
use wacli.Common.{
  ℕ, ◌+◌, ◌≤◌, ◌≡◌, ◌≢◌, refl, ◌⊎◌, inl, inr, Bool, true, false, not, ◌||◌, Option, none, some,
  List, [], arith, Bool-cases, Text, text_eq, text_eq_iff, trim_space, Result, ok, err,
}
use wacli.Sends.Pending.{
  in_flight, sent, done, PendingSend, Db, OwnMessage, Error, retention, find_row, purge,
  begin_pending, complete_pending, mark_sent, finish_pending,
}
use wacli.Sends.Pending.Laws.{find_row-purge, find_row-remove, find_row-set_state}
use wacli.Sends.Guard.{
  Request, Response, GuardError, SendError, Begun, Wire, Attempted, finish, is_guarded,
  already_sent_response, begin_id_send, attempt, begun_first, begun_row, row_of, store_message,
  after_begin, after_check, is_done, unguarded, early, refused, proceed, id_reused, unknown_answer,
}

-- A row in flight of the id, that does not expire before `until`.
abbrev pub Blocks : Text → ℕ → Db → Type 0
Blocks id until d =
    (r : PendingSend) × (find_row id d.pending ≡ some r)
    × (r.state ≡ in_flight)
    × (until ≤ r.created_at + retention)

module _ (digest : Text → Text) (twins : Text → Option (List Text)) where
  begin_pending-Blocks :
      (now : ℕ) (p : PendingSend) (id : Text) (until : ℕ) (d : Db)
      → now ≤ until
      → Blocks id until d
      → Blocks id until (begin_pending now p d).1
  unfolding begin_pending find_row
  begin_pending-Blocks now p id until d le (r, found, state, unexpired) =
      let kept = find_row-purge now id d.pending r found (omega arith) in
      (
        r,
        ground (
          arith,
          kept,
          text_eq_iff (trim_space p.msg_id) id,
          text_eq_iff (trim_space p.msg_id) [],
        ),
        state,
        unexpired,
      )

  finish_pending-Blocks :
      (j id : Text) (until : ℕ) (d : Db)
      → trim_space j ≢ id
      → Blocks id until d
      → Blocks id until (finish_pending j d).1
  unfolding finish_pending
  finish_pending-Blocks j id until d other (r, found, state, unexpired) = (
    r,
    ground (arith, find_row-remove (trim_space j) id d.pending, text_eq_iff (trim_space j) id),
    state,
    unexpired,
  )

  finish-Blocks :
      (phase : Option Bool) (error : Option SendError) (warning chat j id : Text) (until : ℕ)
      (d : Db)
      → trim_space j ≢ id
      → Blocks id until d
      → Blocks id until (finish phase error warning chat j d)
  unfolding finish complete_pending mark_sent finish_pending
  finish-Blocks phase none warning chat j id until d other (r, found, state, unexpired) = (
    r,
    ground (
      arith,
      find_row-set_state done chat (trim_space j) id d.pending,
      find_row-set_state sent chat (trim_space j) id d.pending,
      text_eq_iff (trim_space j) id,
    ),
    state,
    unexpired,
  )
  finish-Blocks (some b) (some e) warning chat j id until d other (r, found, state, unexpired) = (
    r,
    ground (arith, find_row-remove (trim_space j) id d.pending, text_eq_iff (trim_space j) id),
    state,
    unexpired,
  )
  finish-Blocks none (some e) warning chat j id until d other (r, found, state, unexpired) = (
    r,
    ground (arith, find_row-remove (trim_space j) id d.pending, text_eq_iff (trim_space j) id),
    state,
    unexpired,
  )

  store_message-Blocks :
      (req : Request) (m : Option OwnMessage) (id : Text) (until : ℕ) (d : Db)
      → Blocks id until d
      → Blocks id until (store_message digest twins req m d)
  unfolding store_message
  store_message-Blocks req none id until d b = b
  store_message-Blocks req (some m) id until d b = b

  pub begun_row-db :
      (req : Request) (found : Result Error (PendingSend × Bool)) (d : Db)
      → (begun_row digest twins req (found, d)).1 ≡ d
  unfolding begun_row
  begun_row-db req (err e) d = refl
  begun_row-db req (ok (r, true)) d = refl
  begun_row-db req (ok (r, false)) d = ground arith

  begun_row-Blocks :
      (req : Request) (found : Result Error (PendingSend × Bool)) (id : Text) (until : ℕ) (d : Db)
      → Blocks id until d
      → Blocks id until (begun_row digest twins req (found, d)).1
  begun_row-Blocks req found id until d b = rw (begun_row-db req found d) b

  begun_first-Blocks :
      (now : ℕ) (req : Request) (found : Result Error (PendingSend × Bool)) (id : Text) (until : ℕ)
      (d : Db)
      → now ≤ until
      → trim_space req.new_id ≢ id
      → Blocks id until d
      → Blocks id until (begun_first digest twins now req (found, d)).1
  unfolding begun_first
  begun_first-Blocks now req (err e) id until d le other b = b
  begun_first-Blocks now req (ok (r, true)) id until d le other b = b
  begun_first-Blocks now req (ok (r, false)) id until d le other b =
      let freed = (finish_pending req.new_id d).1 in
      let again = begin_pending now (row_of digest twins req) freed in
      elim (Bool-cases (is_done r.state)) [
        | inl e ↦
            rw (e, begun_first)
              (begun_row-Blocks req again.0 id until again.1 (
                begin_pending-Blocks now (row_of digest twins req) id until freed le
                  (finish_pending-Blocks req.new_id id until d other b)))
        | inr e ↦ rw (e, begun_first) (begun_row-Blocks req (ok (r, false)) id until d b)
      ]

  begin_id_send-Blocks :
      (now : ℕ) (req : Request) (id : Text) (until : ℕ) (d : Db)
      → now ≤ until
      → trim_space req.new_id ≢ id
      → Blocks id until d
      → Blocks id until (begin_id_send digest twins now req d).1
  unfolding begin_id_send
  begin_id_send-Blocks now req id until d le other b =
      let begun = begin_pending now (row_of digest twins req) d in
      elim (Bool-cases (is_guarded digest twins req)) [
        | inl e ↦
            rw (e, begin_id_send)
              (begun_first-Blocks now req begun.0 id until begun.1 le other
                (begin_pending-Blocks now (row_of digest twins req) id until d le b))
        | inr e ↦ rw (e, begin_id_send) b
      ]

  after_begin-Blocks :
      (req : Request) (w : Wire) (begun : Begun) (id : Text) (until : ℕ) (d : Db)
      → trim_space req.new_id ≢ id
      → Blocks id until d
      → Blocks id until (after_begin digest twins req w (begun, d)).db
  unfolding after_begin
  after_begin-Blocks req w unguarded id until d other b =
      store_message-Blocks req w.stored id until d b
  after_begin-Blocks req w (early r) id until d other b = b
  after_begin-Blocks req w (refused e) id until d other b = b
  after_begin-Blocks req w proceed id until d other b =
      finish-Blocks (some w.dispatched) w.error w.store_warning w.chat req.new_id id until _ other
        (store_message-Blocks req w.stored id until d b)

  after_check-Blocks :
      (now : ℕ) (req : Request) (w : Wire) (checked : Result GuardError (Option Response))
      (id : Text) (until : ℕ) (d : Db)
      → now ≤ until
      → trim_space req.new_id ≢ id
      → Blocks id until d
      → Blocks id until (after_check digest twins now req w d checked).db
  unfolding after_check
  after_check-Blocks now req w (err e) id until d le other b = b
  after_check-Blocks now req w (ok (some r)) id until d le other b = b
  after_check-Blocks now req w (ok none) id until d le other b =
      let begun = begin_id_send digest twins now req d in
      after_begin-Blocks req w begun.0 id until begun.1 other
        (begin_id_send-Blocks now req id until d le other b)

  -- An attempt with another id leaves a blocking row where it is.
  pub attempt_other-Blocks :
      (now : ℕ) (req : Request) (w : Wire) (id : Text) (until : ℕ) (d : Db)
      → now ≤ until
      → trim_space req.new_id ≢ id
      → Blocks id until d
      → Blocks id until (attempt digest twins now req w d).db
  unfolding attempt
  attempt_other-Blocks now req w id until d le other b =
      after_check-Blocks now req w (already_sent_response digest twins req d) id until d le other b

  -- What a blocked attempt leaves: nothing on the wire, and the row.
  record Held (id : Text) (until : ℕ) (a : Attempted) : Type 0 where
    off_wire : a.on_wire ≡ false
    still : Blocks id until a.db

  pub begun_row-existing :
      (req : Request) (r : PendingSend) (d : Db)
      → ((x : GuardError) × (begun_row digest twins req (ok (r, false), d) ≡ (refused x, d)))
        ⊎ ((x : Response) × (begun_row digest twins req (ok (r, false), d) ≡ (early x, d)))
  unfolding begun_row
  begun_row-existing req r d =
      let row = row_of digest twins req in
      elim (Bool-cases
        (not (text_eq r.kind row.kind) || not (text_eq r.content_hash row.content_hash))) [
          | inl e ↦ inl (id_reused req.new_id r.chat_jid, rw e)
          | inr e ↦ inr (unknown_answer req.new_id, rw e)
        ]

  after_begun_row-Held :
      (req : Request) (w : Wire) (r : PendingSend) (id : Text) (until : ℕ) (d : Db)
      → Blocks id until d
      → Held id until
          (after_begin digest twins req w (begun_row digest twins req (ok (r, false), d)))
  unfolding after_begin
  after_begun_row-Held req w r id until d b = elim (begun_row-existing req r d) [
    | inl (x, e) ↦ rw e (record { off_wire = refl; still = b })
    | inr (x, e) ↦ rw e (record { off_wire = refl; still = b })
  ]

  -- With a blocking row `beginIDSend` finds it and does not go ahead.
  begun_blocked :
      (now : ℕ) (req : Request) (until : ℕ) (d : Db)
      → now ≤ until
      → trim_space req.new_id ≢ []
      → is_guarded digest twins req ≡ true
      → Blocks (trim_space req.new_id) until d
      → (r : PendingSend) × (begin_id_send digest twins now req d
          ≡ begun_row digest twins req (ok (r, false), record d { pending = purge now d.pending }))
        × Blocks (trim_space req.new_id) until (record d { pending = purge now d.pending })
  unfolding begin_id_send begun_first begin_pending row_of
  begun_blocked now req until d le named guarded (r, found, state, unexpired) =
      let kept = find_row-purge now (trim_space req.new_id) d.pending r found (omega arith) in
      let named' : text_eq (trim_space req.new_id) [] ≡ false =
        ground (arith, text_eq_iff (trim_space req.new_id) []) in
      (r, rw (guarded, named', kept, state), (r, kept, state, unexpired))

  after_check-Held :
      (now : ℕ) (req : Request) (w : Wire) (checked : Result GuardError (Option Response))
      (until : ℕ) (d : Db)
      → now ≤ until
      → trim_space req.new_id ≢ []
      → is_guarded digest twins req ≡ true
      → Blocks (trim_space req.new_id) until d
      → Held (trim_space req.new_id) until (after_check digest twins now req w d checked)
  unfolding after_check
  after_check-Held now req w (err e) until d le named guarded b = record {
    off_wire = refl;
    still = b;
  }
  after_check-Held now req w (ok (some r)) until d le named guarded b = record {
    off_wire = refl;
    still = b;
  }
  after_check-Held now req w (ok none) until d le named guarded b =
      let (r, begun, kept) = begun_blocked now req until d le named guarded b in
      rw begun (after_begun_row-Held req w r (trim_space req.new_id) until _ kept)

  -- A guarded attempt with the id of a blocking row puts nothing on the wire and keeps the row.
  pub attempt_blocked :
      (now : ℕ) (req : Request) (w : Wire) (until : ℕ) (d : Db)
      → now ≤ until
      → trim_space req.new_id ≢ []
      → is_guarded digest twins req ≡ true
      → Blocks (trim_space req.new_id) until d
      → ((attempt digest twins now req w d).on_wire ≡ false)
        × Blocks (trim_space req.new_id) until (attempt digest twins now req w d).db
  unfolding attempt
  attempt_blocked now req w until d le named guarded b =
      let held =
        after_check-Held now req w (already_sent_response digest twins req d) until d le named
          guarded b in
      (held.off_wire, held.still)
