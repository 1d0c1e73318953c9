-- ===== src/Sends/Pending.antt =====
-- internal/store/pending_sends.go: the table `pending_sends(msg_id PRIMARY KEY, …)` and the own
-- messages that prove a send. Times are Unix seconds. A statement of SQLite is its effect on the
-- rows; driver errors, which leave the rows alone, are not modelled.
pub mod Laws
mod Examples
use wacli.Common.{
  ℕ, ◌+◌, ◌*◌, Bool, true, false, not, ◌&&◌, Option, none, some, List, [], ◌∷◌, ltb, if◌then◌else◌,
  Text, text_eq, trim_space, Result, ok, err,
}

-- `PendingSendInFlight`, `PendingSendSent`, `PendingSendDone`
pub data SendState : Type 0 where
  in_flight sent done : SendState

pub record PendingSend : Type 0 where
  pub msg_id : Text
  pub chat_jid : Text
  pub typed_to : Text
  pub kind : Text
  pub content_hash : Text
  pub state : SendState
  pub created_at : ℕ

-- A row of `messages` with `from_me = 1`, as far as `FindOwnMessageRef` reads it.
pub record OwnMessage : Type 0 where
  pub msg_id : Text
  pub chat_jid : Text
  pub media_type : Text
  pub text : Text
  pub caption : Text

pub record Db : Type 0 where
  pub pending : List PendingSend
  pub messages : List OwnMessage

pub data Error : Type 0 where
  id_required : Error

-- `pendingSendRetention`, in seconds
abbrev pub retention : ℕ
retention = 7 * 24 * 3600

-- SELECT … WHERE msg_id = ?
unfoldable pub find_row : Text → List PendingSend → Option PendingSend
find_row id [] = none
find_row id (r ∷ rs) = if text_eq r.msg_id id then some r else find_row id rs

-- DELETE … WHERE created_at < ?
unfoldable pub purge : ℕ → List PendingSend → List PendingSend
purge now [] = []
purge now (r ∷ rs) =
    let rest = purge now rs in if ltb (r.created_at + retention) now then rest else r ∷ rest

-- DELETE … WHERE msg_id = ?
unfoldable pub remove : Text → List PendingSend → List PendingSend
remove id [] = []
remove id (r ∷ rs) = let rest = remove id rs in if text_eq r.msg_id id then rest else r ∷ rest

-- UPDATE … SET state = ?, chat_jid = CASE WHEN ? <> '' THEN ? ELSE chat_jid END WHERE msg_id = ?
unfoldable pub set_state : SendState → Text → Text → List PendingSend → List PendingSend
set_state st chat id [] = []
set_state st chat id (r ∷ rs) =
    (if text_eq r.msg_id id
      then record r { state = st; chat_jid = if text_eq chat [] then r.chat_jid else chat }
      else r)
    ∷ set_state st chat id rs

-- `GetPendingSend`
unfoldable pub get_pending : Text → Db → Option PendingSend
unfolding find_row
get_pending id d = find_row (trim_space id) d.pending

-- `BeginPendingSend`: the row, and whether it was inserted. The row that the insert ignored is read
-- back at once; another process that deletes it between the two statements is not modelled, so the
-- call of itself for that case is not made.
unfoldable pub begin_row : PendingSend → ℕ → Option PendingSend → Db → (PendingSend × Bool) × Db
begin_row p now (some old) d = ((old, false), d)
begin_row p now none d =
    let new = record p { state = in_flight; created_at = now } in
    ((new, true), record d { pending = new ∷ d.pending })

unfoldable pub begin_pending : ℕ → PendingSend → Db → Result Error (PendingSend × Bool) × Db
unfolding find_row purge begin_row
begin_pending now p d =
    let id = trim_space p.msg_id in
    let purged = record d { pending = purge now d.pending } in
    let begun = begin_row (record p { msg_id = id }) now (find_row id purged.pending) purged in
    if text_eq id [] then (err id_required, d) else (ok begun.0, begun.1)

-- `CompletePendingSend`
unfoldable pub complete_pending : Text → Text → Db → Db
unfolding set_state
complete_pending id chat d = record d { pending = set_state done chat (trim_space id) d.pending }

-- `MarkPendingSendSent`
unfoldable pub mark_sent : Text → Text → Db → Db
unfolding set_state
mark_sent id chat d = record d { pending = set_state sent chat (trim_space id) d.pending }

-- `FinishPendingSend`: was a row removed?
unfoldable pub finish_pending : Text → Db → Bool × Db
unfolding find_row remove
finish_pending id d = (
  elim (find_row (trim_space id) d.pending) [ none ↦ false | some r ↦ true ],
  record d { pending = remove (trim_space id) d.pending },
)

pub record OwnMessageRef : Type 0 where
  pub chat_jid : Text
  pub media_type : Text
  pub text : Text

unfoldable pub ref_of : OwnMessage → OwnMessageRef
ref_of m = record {
  chat_jid = m.chat_jid;
  media_type = m.media_type;
  text = if text_eq (trim_space m.text) [] then m.caption else m.text;
}

-- SELECT … WHERE msg_id = ? AND from_me = 1 LIMIT 1
unfoldable pub find_message : Text → List OwnMessage → Option OwnMessage
find_message id [] = none
find_message id (m ∷ ms) = if text_eq m.msg_id id then some m else find_message id ms

abbrev ref_of_row : Option OwnMessage → Option OwnMessageRef
ref_of_row none = none
ref_of_row (some m) = some (ref_of m)

-- `FindOwnMessageRef`
unfoldable pub find_own_message_ref : Text → Db → Result Error (Option OwnMessageRef)
unfolding find_message ref_of
find_own_message_ref id d =
    let id' = trim_space id in
    if text_eq id' [] then err id_required else ok (ref_of_row (find_message id' d.messages))
