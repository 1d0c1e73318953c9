-- ===== src/Chats/Lid.antt =====
-- The writes that remove or merge rows of the chats table: internal/store/chats.go (DeleteChat,
-- DeleteChatsOlderThan), internal/store/lid_migration.go (the chat of a hidden id becomes the one of its
-- phone number) and `ClearChatUnreadMarker` of internal/store/read_receipts.go.
use wacli.Common.{
  Result, ok, err, ltb, ◌==◌, if◌then◌else◌, Text, codes, text_eq, trim_space, ℕ, ◌+◌, max, Bool,
  false, not, ◌&&◌, ◌||◌, Option, none, some, [], ◌∷◌,
}
use wacli.Chats.{ChatRow, Chats, set_row, new_row, unknown_kind}

-- DELETE FROM chats of the rows that `gone` picks.
abbrev pub without_row : (ChatRow → Bool) → Option ChatRow → Option ChatRow
without_row gone none = none
without_row gone (some row) = if gone row then none else some row

unfoldable pub delete_rows : (Text → ChatRow → Bool) → Chats → Chats
delete_rows gone chats jid = without_row (gone jid) (chats jid)

-- The chats row of `DeleteChat`.
unfoldable pub delete_chat : Text → Chats → Result Text Chats
unfolding delete_rows
delete_chat jid chats =
    let j = trim_space jid in
    if text_eq j []
    then err (codes "chat JID is required")
    else ok (delete_rows (λ k row. text_eq j k) chats)

-- `staleChatJIDsSQL`; `latest` is the moment of the newest message of a chat, 0 where it has none.
unfoldable pub is_stale : (Text → ℕ) → ℕ → Text → ChatRow → Bool
is_stale latest cutoff jid row =
    let activity = max (latest jid) row.last_message_ts in ltb 0 activity && ltb activity cutoff

-- The chats rows of `DeleteChatsOlderThan`, for a number of days and the moment that many days ago.
unfoldable pub delete_chats_older_than : (Text → ℕ) → ℕ → ℕ → Chats → Result Text Chats
unfolding delete_rows is_stale
delete_chats_older_than latest days cutoff chats =
    if days == 0
    then err (codes "days must be positive")
    else ok (delete_rows (is_stale latest cutoff) chats)

abbrev pub cleared_if : Bool → Option ChatRow → Option ChatRow
cleared_if clears none = none
cleared_if clears (some row) =
    if clears then some (record row { unread = false; unread_count = 0 }) else some row

-- `ClearChatUnreadMarker`; `eligible` is whether the chat has a message that a receipt could be for.
unfoldable pub clear_chat_unread_marker : Text → Bool → Chats → Chats
clear_chat_unread_marker jid eligible chats k = cleared_if (text_eq jid k && not eligible) (chats k)

-- instr(name, '@') > 0
unfoldable pub has_at : Text → Bool
has_at [] = false
has_at (c ∷ cs) = (c == 64) || has_at cs

-- The name of a row of `jid`, for which another one comes in.
unfoldable pub merged_name : Text → Text → Text → Text
unfolding has_at
merged_name jid old incoming =
    if not (text_eq incoming []) && (text_eq old [] || text_eq old jid || has_at old)
    then incoming
    else old

abbrev no_kind : Text → Bool
no_kind kind = text_eq kind [] || text_eq kind unknown_kind

-- The first statement of `migrateLIDChatToPN`: the columns it inserts, and those it merges on conflict.
unfoldable pub merge_chat : Text → ChatRow → Option ChatRow → ChatRow
unfolding merged_name
merge_chat pn lid none = record (new_row (if no_kind lid.kind then codes "dm" else lid.kind)) {
  name = lid.name;
  last_message_ts = lid.last_message_ts;
  unread = lid.unread;
  unread_count = lid.unread_count;
}
merge_chat pn lid (some row) =
    let kind = if no_kind lid.kind then codes "dm" else lid.kind in
    record row {
      kind = if no_kind row.kind || text_eq kind (codes "dm") then kind else row.kind;
      name = merged_name pn row.name lid.name;
      last_message_ts = max row.last_message_ts lid.last_message_ts;
      unread = row.unread || lid.unread;
      unread_count = row.unread_count + lid.unread_count;
    }

unfoldable pub merge_lid_row : Text → Option ChatRow → Chats → Chats
unfolding merge_chat
merge_lid_row pn none chats = chats
merge_lid_row pn (some lid) chats = set_row pn (merge_chat pn lid (chats pn)) chats

-- Its second statement, on the chat's name and the moment of the newest message of the hidden id.
unfoldable pub merge_message : Text → Text × ℕ → Option ChatRow → ChatRow
unfolding merged_name
merge_message pn (name, ts) none = record (new_row (codes "dm")) {
  name = name;
  last_message_ts = ts;
}
merge_message pn (name, ts) (some row) = record row {
  name = merged_name pn row.name name;
  last_message_ts = max row.last_message_ts ts;
}

unfoldable pub merge_newest : Text → Option (Text × ℕ) → Chats → Chats
unfolding merge_message
merge_newest pn none chats = chats
merge_newest pn (some newest) chats = set_row pn (merge_message pn newest (chats pn)) chats

-- The chats rows of `MigrateLIDToPN`: `migrateLIDChatToPN`, then `deleteLIDChat`; `pending` is whether
-- purged media of the two is still on disk, whose files the error's text counts too.
unfoldable pub migrate_lid : Text → Text → Bool → Option (Text × ℕ) → Chats → Result Text Chats
unfolding merge_lid_row merge_newest delete_rows
migrate_lid lid_jid pn_jid pending newest chats =
    let lid = trim_space lid_jid in
    let pn = trim_space pn_jid in
    if text_eq lid [] || text_eq pn []
    then err (codes "lid and phone-number JIDs are required")
    else if text_eq lid pn
    then ok chats
    else if pending
    then err (codes "purged alias media must be removed before LID migration")
    else ok (
        delete_rows (λ k row. text_eq lid k)
          (merge_newest pn newest (merge_lid_row pn (chats lid) chats)))
