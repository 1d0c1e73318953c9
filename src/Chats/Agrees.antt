-- ===== src/Chats/Agrees.antt =====
-- The agreement of a chat's unread count with its unread flag, under the writes of Lid.
use wacli.Common.{
  Result, ok, err, Bool-cases, Text, text_eq, trim_space, ℕ, ◌<◌, ◌≡◌, inl, inr, Bool, true, false,
  not, ◌&&◌, ◌||◌, Option, none, some, [], arith, if◌then◌else◌, ◌==◌,
}
use wacli.Chats.{ChatRow, Chats, row_or_new, set_row}
use wacli.Chats.Lid.{
  without_row, delete_rows, delete_chat, delete_chats_older_than, cleared_if,
  clear_chat_unread_marker, merge_chat, merge_lid_row, merge_message, merge_newest, migrate_lid,
}

-- A chat with unread messages is unread.
abbrev pub AgreesRow : ChatRow → Type 0
AgreesRow row = 0 < row.unread_count → row.unread ≡ true

abbrev pub AgreesAt : Option ChatRow → Type 0
AgreesAt none = Unit
AgreesAt (some row) = AgreesRow row

abbrev pub Agrees : Chats → Type 0
Agrees chats = (jid : Text) → AgreesAt (chats jid)

pub set_row-Agrees :
    (jid : Text) (row : ChatRow) (chats : Chats)
    → AgreesRow row
    → Agrees chats
    → Agrees (set_row jid row chats)
set_row-Agrees jid row chats new old k = elim (Bool-cases (text_eq jid k)) [
  | inl y ↦ rw y new
  | inr n ↦ rw n (old k)
]

pub row_or_new-Agrees :
    (kind : Text) (o : Option ChatRow) → AgreesAt o → AgreesRow (row_or_new kind o)
row_or_new-Agrees kind none h = λ lt. absurd (omega (arith, lt))
row_or_new-Agrees kind (some row) h = h

abbrev pub or_same : Result Text Chats → Chats → Chats
or_same (ok chats) old = chats
or_same (err e) old = old

without_row-Agrees :
    (gone : ChatRow → Bool) (o : Option ChatRow) → AgreesAt o → AgreesAt (without_row gone o)
without_row-Agrees gone none h = tt
without_row-Agrees gone (some row) h = elim (Bool-cases (gone row)) [
  | inl y ↦ rw y tt
  | inr n ↦ rw n h
]

delete_rows-Agrees :
    (gone : Text → ChatRow → Bool) (chats : Chats) → Agrees chats → Agrees (delete_rows gone chats)
unfolding delete_rows
delete_rows-Agrees gone chats h k = without_row-Agrees (gone k) (chats k) (h k)

cleared_if-Agrees :
    (clears : Bool) (o : Option ChatRow) → AgreesAt o → AgreesAt (cleared_if clears o)
cleared_if-Agrees clears none h = tt
cleared_if-Agrees true (some row) h = λ lt. absurd (omega (arith, lt))
cleared_if-Agrees false (some row) h = h

pub marker-Agrees :
    (jid : Text) (eligible : Bool) (chats : Chats)
    → Agrees chats
    → Agrees (clear_chat_unread_marker jid eligible chats)
unfolding clear_chat_unread_marker
marker-Agrees jid eligible chats h k =
    cleared_if-Agrees (text_eq jid k && not eligible) (chats k) (h k)

merge_chat-Agrees :
    (pn : Text) (lid : ChatRow) (o : Option ChatRow)
    → AgreesRow lid
    → AgreesAt o
    → AgreesRow (merge_chat pn lid o)
unfolding merge_chat
merge_chat-Agrees pn lid none h a = h
merge_chat-Agrees pn lid (some row) h a = λ lt. ground (arith, h, a, lt)

merge_lid_row-Agrees :
    (pn : Text) (lid : Option ChatRow) (chats : Chats)
    → AgreesAt lid
    → Agrees chats
    → Agrees (merge_lid_row pn lid chats)
unfolding merge_lid_row
merge_lid_row-Agrees pn none chats a h = h
merge_lid_row-Agrees pn (some lid) chats a h =
    set_row-Agrees pn _ chats (merge_chat-Agrees pn lid (chats pn) a (h pn)) h

merge_message-Agrees :
    (pn : Text) (newest : Text × ℕ) (o : Option ChatRow)
    → AgreesAt o
    → AgreesRow (merge_message pn newest o)
unfolding merge_message
merge_message-Agrees pn (name, ts) none a = λ lt. absurd (omega (arith, lt))
merge_message-Agrees pn (name, ts) (some row) a = a

merge_newest-Agrees :
    (pn : Text) (newest : Option (Text × ℕ)) (chats : Chats)
    → Agrees chats
    → Agrees (merge_newest pn newest chats)
unfolding merge_newest
merge_newest-Agrees pn none chats h = h
merge_newest-Agrees pn (some newest) chats h =
    set_row-Agrees pn _ chats (merge_message-Agrees pn newest (chats pn) (h pn)) h

-- A condition under which an operation answers without a change.
early-Agrees :
    (stop : Bool) (r s : Result Text Chats) (chats : Chats)
    → Agrees (or_same r chats)
    → Agrees (or_same s chats)
    → Agrees (or_same (if stop then r else s) chats)
early-Agrees true r s chats h k = h
early-Agrees false r s chats h k = k

pub delete_chat-Agrees :
    (jid : Text) (chats : Chats) → Agrees chats → Agrees (or_same (delete_chat jid chats) chats)
unfolding delete_chat
delete_chat-Agrees jid chats h =
    early-Agrees (text_eq (trim_space jid) []) _ _ chats h (delete_rows-Agrees _ chats h)

pub deletes_older-Agrees :
    (latest : Text → ℕ) (days cutoff : ℕ) (chats : Chats)
    → Agrees chats
    → Agrees (or_same (delete_chats_older_than latest days cutoff chats) chats)
unfolding delete_chats_older_than
deletes_older-Agrees latest days cutoff chats h =
    early-Agrees (days == 0) _ _ chats h (delete_rows-Agrees _ chats h)

pub migrate_lid-Agrees :
    (lid pn : Text) (pending : Bool) (newest : Option (Text × ℕ)) (chats : Chats)
    → Agrees chats
    → Agrees (or_same (migrate_lid lid pn pending newest chats) chats)
unfolding migrate_lid
migrate_lid-Agrees lid pn pending newest chats h =
    let l = trim_space lid in
    let p = trim_space pn in
    let merged = merge_lid_row-Agrees p (chats l) chats (h l) h in
    early-Agrees (text_eq l [] || text_eq p []) _ _ chats h (
      early-Agrees (text_eq l p) _ _ chats h (
        early-Agrees pending _ _ chats h
          (delete_rows-Agrees _ _ (merge_newest-Agrees p newest _ merged))))
