-- ===== src/Sends/Guard/Examples.antt =====
-- Attempts of a text under one id, after delegate_idempotent.go: with an unknown outcome, with a lost
-- store, and against rows and messages that are there.
use wacli.Common.{
  is_space, trim_left, All, Text, codes, trim_space, ◌≡◌, refl, ◌≢◌, true, false, Option, none,
  some, List, [], ◌∷◌, arith,
}
use wacli.Sends.Pending.{
  sent, PendingSend, Db, OwnMessage, OwnMessageRef, find_row, purge, get_pending, begin_row,
  begin_pending, find_message, find_own_message_ref, ref_of, complete_pending, mark_sent,
  finish_pending, set_state, remove,
}
use wacli.Sends.Guard.{
  Request, Wire, SendError, is_guarded, attempt, after_check, already_sent_response, by_message,
  pending_sent_response, sent_row?, sent_row, begin_id_send, begun_first, begun_row, row_of,
  request_content_hash, content_hash, content_text, stored_kind_of, after_begin, store_message,
  finish, finish_error, stores_sent_message, error_after_dispatch_is_unknown,
}
use wacli.Sends.Guard.Retry.{
  Entry, Silent, history, row_after, fresh_row, unknown_never_repeated, attempt_outcome,
}

-- A digest that keeps the text, and a recipient that stands for itself.
abbrev digest : Text → Text
digest t = t

abbrev twins : Text → Option (List Text)
twins t = some (t ∷ [])

abbrev request : Request
request = record {
  kind = codes "text";
  to = codes "bob";
  chat = [];
  new_id = codes "A1";
  source = [];
  message = codes "hi";
  caption = [];
  question = [];
  name = [];
}

abbrev timeout : SendError
timeout = record {
  server_returned = false;
  iq_error = false;
  deadline_exceeded = true;
  canceled = false;
}

-- The message was handed to the server, and no answer came.
abbrev lost : Wire
lost = record {
  dispatched = true;
  error = some timeout;
  store_warning = [];
  chat = [];
  stored = none;
}

abbrev empty : Db
empty = record { pending = []; messages = [] }

request-named : trim_space request.new_id ≢ []
unfolding trim_space trim_left is_space
request-named h = cc

request-is_guarded : is_guarded digest twins request ≡ true
unfolding stores_sent_message
request-is_guarded = refl

sends : (attempt digest twins 100 request lost empty).on_wire ≡ true
unfolding attempt after_check already_sent_response by_message pending_sent_response sent_row?
    sent_row find_own_message_ref find_message ref_of begin_id_send begun_first begun_row row_of
    request_content_hash content_hash content_text stored_kind_of begin_pending begin_row find_row
    purge get_pending after_begin store_message finish finish_error complete_pending mark_sent
    finish_pending set_state remove stores_sent_message error_after_dispatch_is_unknown trim_space
    trim_left is_space
sends = refl

-- The retry is not sent.
retried :
    (attempt digest twins 160 request lost (attempt digest twins 100 request lost empty).db).on_wire
    ≡ false
unfolding attempt after_check already_sent_response by_message pending_sent_response sent_row?
    sent_row find_own_message_ref find_message ref_of begin_id_send begun_first begun_row row_of
    request_content_hash content_hash content_text stored_kind_of begin_pending begin_row find_row
    purge get_pending after_begin store_message finish finish_error complete_pending mark_sent
    finish_pending set_state remove stores_sent_message error_after_dispatch_is_unknown trim_space
    trim_left is_space
retried = refl

abbrev retry : Entry
retry = record { now = 160; req = request; wire = lost }

unknown_never_repeated_example :
    All
      (Silent digest twins (trim_space request.new_id))
      (history digest twins (retry ∷ retry ∷ []) (attempt digest twins 100 request lost empty).db).0
unfolding error_after_dispatch_is_unknown
unknown_never_repeated_example =
    unknown_never_repeated digest twins 100 request lost timeout empty (retry ∷ retry ∷ [])
      request-named request-is_guarded sends refl refl refl
      ((omega arith, λ h. request-is_guarded), ((omega arith, λ h. request-is_guarded), tt))

attempt_outcome_example :
    get_pending request.new_id (attempt digest twins 100 request lost empty).db
    ≡ row_after digest twins lost (fresh_row digest twins 100 request)
attempt_outcome_example =
    attempt_outcome digest twins 100 request lost empty request-is_guarded sends

-- A message of ours under the id.
abbrev message : OwnMessage
message = record {
  msg_id = codes "A1";
  chat_jid = codes "bob";
  media_type = [];
  text = codes "hi";
  caption = [];
}

abbrev stored : Db
stored = record { pending = []; messages = message ∷ [] }

abbrev ref : OwnMessageRef
ref = record { chat_jid = codes "bob"; media_type = []; text = codes "hi" }

-- A row of the id that was sent and whose message was not stored.
abbrev row : PendingSend
row = record {
  msg_id = codes "A1";
  chat_jid = codes "bob";
  typed_to = codes "bob";
  kind = codes "text";
  content_hash = codes "h";
  state = sent;
  created_at = 50;
}

abbrev unstored : Db
unstored = record { pending = row ∷ []; messages = [] }
