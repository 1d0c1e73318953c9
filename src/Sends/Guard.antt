-- ===== src/Sends/Guard.antt =====
-- cmd/wacli/delegate_idempotent.go: the guard that makes a retry with the same id safe, and its
-- place in `executeDelegatedSend` of cmd/wacli/send_ipc.go. The content digest (SHA-256 cut to 8
-- bytes, in hexadecimal) and the chats that a typed recipient stands for are parameters.
pub mod Laws
pub mod Retry
mod Examples
use wacli.Common.{
  ℕ, Bool, true, false, not, ◌&&◌, ◌||◌, Option, none, some, List, [], ◌∷◌, ◌++◌, if◌then◌else◌,
  Text, codes, text_eq, trim_space, Result, ok, err,
}
use wacli.Sends.Pending.{
  SendState, in_flight, sent, done, PendingSend, Db, OwnMessage, OwnMessageRef, get_pending,
  begin_pending, complete_pending, mark_sent, finish_pending, find_own_message_ref, Error,
}

-- The fields of `sendDelegateRequest` that the guard reads; `source` is its `ID`.
pub record Request : Type 0 where
  pub kind : Text
  pub to : Text
  pub chat : Text
  pub new_id : Text
  pub source : Text
  pub message : Text
  pub caption : Text
  pub question : Text
  pub name : Text

-- The fields of `forwardResult` that the guard fills, and of `sendDelegateResponse`; `data_of_forward`
-- is the value that its JSON encodes.
pub record Forwarded : Type 0 where
  pub to : Text
  pub id : Text
  pub source : Text

pub record Response : Type 0 where
  pub done : Bool
  pub sent : Bool
  pub already_sent : Bool
  pub outcome_unknown : Bool
  pub to : Text
  pub id : Text
  pub target_mismatch : Text
  pub error : Text
  pub data_of_forward : Option Forwarded

pub data GuardError : Type 0 where
  lookup_failed not_recorded : GuardError
  id_reused : (id chat : Text) → GuardError

abbrev pub one_of : Text → List Text → Bool
one_of t [] = false
one_of t (w ∷ ws) = text_eq t w || one_of t ws

-- `kindStoresSentMessage`
unfoldable pub stores_sent_message : Text → Bool
stores_sent_message kind = one_of kind (
    codes "text"
    ∷ codes "file"
    ∷ codes "voice"
    ∷ codes "sticker"
    ∷ codes "location"
    ∷ codes "poll"
    ∷ codes "react"
    ∷ codes "forward"
    ∷ [])

unfoldable pub stored_kind_of : Text → Text
stored_kind_of kind =
    if text_eq kind (codes "text")
    then codes "text"
    else if text_eq kind (codes "react")
    then codes "reaction"
    else if text_eq kind (codes "forward")
    then codes "forward"
    else kind

-- The `text` of `requestContentHash`: the first that is not empty.
unfoldable pub content_text : Request → Text
content_text req =
    if not (text_eq req.message [])
    then req.message
    else if not (text_eq req.caption [])
    then req.caption
    else if not (text_eq req.question [])
    then req.question
    else req.name

unfoldable pub reused_for_another_message : Request → OwnMessageRef → Bool
reused_for_another_message req ref =
    text_eq req.kind (codes "text")
    && (not (text_eq (trim_space ref.text) (trim_space req.message))
        || not (text_eq (trim_space ref.media_type) []))

unfoldable pub target_mismatch_text : Text → Text → Text → Text
target_mismatch_text id chat typed =
    codes "message id "
    ++ (id ++ (codes " was sent to " ++ (chat ++ (codes ", not to the typed recipient " ++ typed))))

unfoldable pub pending_mismatch_text : Text → Text → Text → Text
pending_mismatch_text id was typed =
    codes "message id "
    ++ (id ++ (codes " was sent for " ++ (was ++ (codes ", not for " ++ typed))))

abbrev pub answered : Text → Text → Text → Response
answered to id mismatch = record {
  done = true;
  sent = true;
  already_sent = true;
  outcome_unknown = false;
  to = to;
  id = id;
  target_mismatch = mismatch;
  error = [];
  data_of_forward = none;
}

-- The answer to `req` with the result of a forward, when it is one.
unfoldable pub with_forwarded : Request → Response → Response
with_forwarded req r = record r {
  data_of_forward =
      if text_eq req.kind (codes "forward")
      then some (record { to = r.to; id = r.id; source = req.source })
      else none;
}

abbrev pub outcome_unknown_advice : Text → Text
outcome_unknown_advice id =
    codes "an earlier attempt with --id "
    ++ (id
        ++ (codes
              " started and its result is unknown; confira no celular; se nao estiver la, envie de novo com um --id novo (or run `wacli pending-sends clear --id "
            ++ (id ++ codes "` if you are sure it never left)")))

abbrev pub unknown_answer : Text → Response
unknown_answer id = record {
  done = false;
  sent = false;
  already_sent = false;
  outcome_unknown = true;
  to = [];
  id = id;
  target_mismatch = [];
  error = codes "resultado_incerto: " ++ outcome_unknown_advice id;
  data_of_forward = none;
}

-- An error as the guard classifies it, by `errors.Is` and `errors.As`.
pub record SendError : Type 0 where
  pub server_returned : Bool
  pub iq_error : Bool
  pub deadline_exceeded : Bool
  pub canceled : Bool

-- `ErrorAfterDispatchIsUnknown` of internal/wa/msgid.go
unfoldable pub error_after_dispatch_is_unknown : Option SendError → Bool
error_after_dispatch_is_unknown none = false
error_after_dispatch_is_unknown (some e) = not (e.server_returned || e.iq_error)

unfoldable pub send_outcome_unknown_by_context : SendError → Bool
send_outcome_unknown_by_context e = e.deadline_exceeded || e.canceled

-- What `beginIDSend` returns: no guard, an early answer, an error, or go ahead and then `finish`.
pub data Begun : Type 0 where
  unguarded : Begun
  early : Response → Begun
  refused : GuardError → Begun
  proceed : Begun

-- The closure `finish`; `phase` is `phase.Dispatched()`, or none for a nil phase.
finish_error : Option Bool → SendError → Text → Db → Db
finish_error (some dispatched) e id d =
    if dispatched && error_after_dispatch_is_unknown (some e) then d else (finish_pending id d).1
finish_error none e id d = if send_outcome_unknown_by_context e then d else (finish_pending id d).1

unfoldable pub finish : Option Bool → Option SendError → Text → Text → Text → Db → Db
unfolding finish_error
finish phase none warning chat id d =
    if text_eq warning [] then complete_pending id chat d else mark_sent id chat d
finish phase (some e) warning chat id d = finish_error phase e id d

abbrev pub is_sent : SendState → Bool
is_sent sent = true
is_sent _ = false

abbrev pub is_done : SendState → Bool
is_done done = true
is_done _ = false

-- What happens on the wire and after it: the phase mark, the error, and the outcome of the store.
pub record Wire : Type 0 where
  pub dispatched : Bool
  pub error : Option SendError
  pub store_warning : Text
  pub chat : Text
  pub stored : Option OwnMessage

pub data Reply : Type 0 where
  answer : Response → Reply
  fail : GuardError → Reply
  wired : Option SendError → Reply

pub record Attempted : Type 0 where
  pub reply : Reply
  pub on_wire : Bool
  pub db : Db

unfoldable pub sent_mismatch : Request → PendingSend → Text
unfolding pending_mismatch_text
sent_mismatch req ps =
    let typed = trim_space req.to in
    if not (text_eq typed []) && (not (text_eq ps.typed_to []) && not (text_eq typed ps.typed_to))
    then pending_mismatch_text req.new_id ps.typed_to typed
    else []

module _ (digest : Text → Text) (twins : Text → Option (List Text)) where
  -- `ContentHash` of internal/store/pending_sends.go
  content_hash : Text → Text → Text
  content_hash kind text = digest (kind ++ (0 ∷ trim_space text))

  pub request_content_hash : Request → Text
  unfolding content_text stored_kind_of content_hash
  request_content_hash req = content_hash (stored_kind_of req.kind) (content_text req)

  chat_matches : Text → Option (List Text) → Bool
  chat_matches chat none = false
  chat_matches chat (some chats) = one_of chat chats

  recorded_mismatch : Text → Text → Text → PendingSend → Text
  recorded_mismatch id chat typed ps =
      if text_eq ps.typed_to typed then [] else target_mismatch_text id chat typed

  by_chat : Text → Text → Text → Text
  by_chat id chat typed =
      if chat_matches chat (twins typed) then [] else target_mismatch_text id chat typed

  mismatch_by : Text → Text → Text → Option PendingSend → Text
  mismatch_by id chat typed none = by_chat id chat typed
  mismatch_by id chat typed (some ps) =
      if text_eq ps.typed_to [] then by_chat id chat typed else recorded_mismatch id chat typed ps

  -- `targetMismatch`
  pub target_mismatch : Request → Text → Db → Text
  unfolding chat_matches recorded_mismatch by_chat mismatch_by target_mismatch_text
  target_mismatch req chat d =
      let typed = trim_space req.to in
      if text_eq typed [] then [] else mismatch_by req.new_id chat typed (get_pending req.new_id d)

  sent_row : Request → PendingSend → Result GuardError (Option Response)
  unfolding request_content_hash sent_mismatch stored_kind_of
  sent_row req ps =
      if not (is_sent ps.state)
      then ok none
      else if not (text_eq ps.kind (stored_kind_of req.kind))
          || not (text_eq ps.content_hash (request_content_hash req))
      then err (id_reused req.new_id ps.chat_jid)
      else ok (some (answered ps.chat_jid req.new_id (sent_mismatch req ps)))

  sent_row? : Request → Option PendingSend → Result GuardError (Option Response)
  sent_row? req none = ok none
  sent_row? req (some ps) = sent_row req ps

  -- `pendingSentResponse`
  pub pending_sent_response : Request → Db → Result GuardError (Option Response)
  unfolding sent_row? sent_row get_pending
  pending_sent_response req d = sent_row? req (get_pending req.new_id d)

  by_message :
      Request → Db → Result Error (Option OwnMessageRef) → Result GuardError (Option Response)
  unfolding pending_sent_response reused_for_another_message with_forwarded
  by_message req d (err e) = err lookup_failed
  by_message req d (ok none) = pending_sent_response req d
  by_message req d (ok (some ref)) =
      if reused_for_another_message req ref
      then err (id_reused req.new_id ref.chat_jid)
      else ok (
          some (
            with_forwarded req
              (answered ref.chat_jid req.new_id (target_mismatch req ref.chat_jid d))))

  abbrev pub is_guarded : Request → Bool
  is_guarded req = not (text_eq req.new_id []) && stores_sent_message req.kind

  -- `alreadySentResponse`
  pub already_sent_response : Request → Db → Result GuardError (Option Response)
  unfolding by_message find_own_message_ref
  already_sent_response req d =
      if is_guarded req then by_message req d (find_own_message_ref req.new_id d) else ok none

  -- The row of `beginIDSend`; `msg_id` is trimmed by the store.
  pub row_of : Request → PendingSend
  unfolding request_content_hash stored_kind_of
  row_of req =
      let to = trim_space req.to in
      let chat = if text_eq to [] then trim_space req.chat else to in
      record {
        msg_id = req.new_id;
        chat_jid = chat;
        typed_to = chat;
        kind = stored_kind_of req.kind;
        content_hash = request_content_hash req;
        state = in_flight;
        created_at = 0;
      }

  -- The end of `beginIDSend`, on what the (second) begin found.
  pub begun_row : Request → Result Error (PendingSend × Bool) × Db → Begun × Db
  unfolding row_of
  begun_row req (err e, d) = (refused not_recorded, d)
  begun_row req (ok (existing, true), d) = (proceed, d)
  begun_row req (ok (existing, false), d) =
      if not (text_eq existing.kind (row_of req).kind)
        || not (text_eq existing.content_hash (row_of req).content_hash)
      then (refused (id_reused req.new_id existing.chat_jid), d)
      else (early (unknown_answer req.new_id), d)

  -- A row in state done is dropped and begun again.
  pub begun_first : ℕ → Request → Result Error (PendingSend × Bool) × Db → Begun × Db
  unfolding begun_row begin_pending finish_pending
  begun_first now req (err e, d) = (refused not_recorded, d)
  begun_first now req (ok (existing, true), d) = (proceed, d)
  begun_first now req (ok (existing, false), d) =
      if is_done existing.state
      then begun_row req (begin_pending now (row_of req) (finish_pending req.new_id d).1)
      else begun_row req (ok (existing, false), d)

  -- `beginIDSend`
  pub begin_id_send : ℕ → Request → Db → Begun × Db
  unfolding begun_first
  begin_id_send now req d =
      if is_guarded req
      then begun_first now req (begin_pending now (row_of req) d)
      else (unguarded, d)

  pub store_message : Request → Option OwnMessage → Db → Db
  store_message req none d = d
  store_message req (some m) d = record d {
    messages = record m { msg_id = req.new_id } ∷ d.messages;
  }

  after_begin : Request → Wire → Begun × Db → Attempted
  unfolding store_message finish
  after_begin req w (unguarded, d) = record {
    reply = wired w.error;
    on_wire = true;
    db = store_message req w.stored d;
  }
  after_begin req w (early r, d) = record { reply = answer r; on_wire = false; db = d }
  after_begin req w (refused e, d) = record { reply = fail e; on_wire = false; db = d }
  after_begin req w (proceed, d) = record {
    reply = wired w.error;
    on_wire = true;
    db =
        finish (some w.dispatched) w.error w.store_warning w.chat req.new_id
          (store_message req w.stored d);
  }

  after_check : ℕ → Request → Wire → Db → Result GuardError (Option Response) → Attempted
  unfolding after_begin begin_id_send
  after_check now req w d (err e) = record { reply = fail e; on_wire = false; db = d }
  after_check now req w d (ok (some r)) = record { reply = answer r; on_wire = false; db = d }
  after_check now req w d (ok none) = after_begin req w (begin_id_send now req d)

  -- The guarded part of `executeDelegatedSend`: check, begin, the kind's own send, finish.
  pub attempt : ℕ → Request → Wire → Db → Attempted
  unfolding after_check already_sent_response
  attempt now req w d = after_check now req w d (already_sent_response req d)
