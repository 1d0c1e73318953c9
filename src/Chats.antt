-- ===== src/Chats.antt =====
-- The chats table of internal/store/chats.go and internal/store/unread.go: the flags of a chat and its
-- unread count. A NULL text is the empty text; times are in seconds.
pub mod Lid
pub mod Agrees
pub mod Unread
pub mod Mute
pub mod Events
mod Examples
use wacli.Common.{
  Result, ok, err, ltb, leb, ◌==◌, if◌then◌else◌, Bool-cases, Option-cases, ltb→lt, lt→ltb, ==_iff,
  All, All-append, All-trim_space, Text, codes, text_eq, text_eq_iff, text_eq_refl, trim_space,
  has_prefix, length, take, drop, ℕ, zero, suc, ◌+◌, ◌-◌, ◌*◌, ◌/◌, ◌%◌, ◌≤◌, ◌<◌, min, max, ◌≡◌,
  refl, sym, ap, ◌∙◌, ◌≢◌, ◌↔◌, ◌⊎◌, inl, inr, Bool, true, false, not, ◌&&◌, ◌||◌, Option, none,
  some, List, [], ◌∷◌, ◌++◌, map, reverse, arith,
}
use wacli.Common.Int.{ℤ, pos, negsuc}

pub record ChatRow : Type 0 where
  pub kind : Text
  pub name : Text
  pub last_message_ts : ℕ
  pub archived : Bool
  pub pinned : Bool
  pub muted_until : ℤ
  pub unread : Bool
  pub unread_count : ℕ

abbrev pub Chats : Type 0
Chats = Text → Option ChatRow

abbrev pub unknown_kind : Text
unknown_kind = codes "unknown"

-- The row that an INSERT makes, from the columns' defaults.
abbrev pub new_row : Text → ChatRow
new_row kind = record {
  kind = kind;
  name = [];
  last_message_ts = 0;
  archived = false;
  pinned = false;
  muted_until = pos 0;
  unread = false;
  unread_count = 0;
}

abbrev pub row_or_new : Text → Option ChatRow → ChatRow
row_or_new kind none = new_row kind
row_or_new kind (some row) = row

abbrev pub set_row : Text → ChatRow → Chats → Chats
set_row jid row chats k = if text_eq jid k then some row else chats k

-- INSERT … ON CONFLICT(jid) DO UPDATE, with the same columns set in both cases.
abbrev pub upsert : Text → (ChatRow → ChatRow) → Chats → Chats
upsert jid f chats = set_row jid (f (row_or_new unknown_kind (chats jid))) chats

abbrev pub kind_or_unknown : Text → Text
kind_or_unknown kind = if text_eq (trim_space kind) [] then unknown_kind else kind

abbrev pub name_or_old : Text → ChatRow → Text
name_or_old name row = let n = trim_space name in if text_eq n [] then row.name else n

-- `UpsertChat`
unfoldable pub upsert_chat : Text → Text → Text → ℕ → Chats → Chats
upsert_chat jid kind name last_ts chats =
    let row = row_or_new [] (chats jid) in
    set_row jid
      (record row {
        kind = kind_or_unknown kind;
        name = name_or_old name row;
        last_message_ts = if ltb row.last_message_ts last_ts then last_ts else row.last_message_ts;
      })
      chats

-- `UpsertChatMetadata`
unfoldable pub upsert_chat_metadata : Text → Text → Text → Chats → Chats
upsert_chat_metadata jid kind name chats =
    let row = row_or_new [] (chats jid) in
    set_row jid (record row { kind = kind_or_unknown kind; name = name_or_old name row }) chats

-- `SetChatArchived`: archiving unpins too.
unfoldable pub set_chat_archived : Text → Bool → Chats → Chats
set_chat_archived jid archived chats =
    if archived
    then upsert jid (λ row. record row { archived = true; pinned = false }) chats
    else upsert jid (λ row. record row { archived = false }) chats

-- `SetChatPinned`
unfoldable pub set_chat_pinned : Text → Bool → Chats → Chats
set_chat_pinned jid pinned chats = upsert jid (λ row. record row { pinned = pinned }) chats

-- `SetChatMutedUntil`
unfoldable pub set_chat_muted_until : Text → ℤ → Chats → Chats
set_chat_muted_until jid muted_until chats =
    upsert jid (λ row. record row { muted_until = muted_until }) chats

-- `SetChatUnread`
unfoldable pub set_chat_unread : Text → Bool → Chats → Chats
set_chat_unread jid unread chats =
    if unread
    then upsert jid (λ row. record row { unread = true }) chats
    else upsert jid (λ row. record row { unread = false; unread_count = 0 }) chats

-- `SetChatUnreadCount`; a negative count is 0.
unfoldable pub set_chat_unread_count : Text → ℤ → Chats → Chats
set_chat_unread_count jid (negsuc n) chats =
    upsert jid (λ row. record row { unread = false; unread_count = 0 }) chats
set_chat_unread_count jid (pos n) chats =
    upsert jid (λ row. record row { unread = ltb 0 n; unread_count = n }) chats

-- `IncrementChatUnread`
unfoldable pub increment_chat_unread : Text → Chats → Chats
increment_chat_unread jid chats =
    upsert jid (λ row. record row { unread = true; unread_count = row.unread_count + 1 }) chats

-- The columns of the messages table that the recount reads.
pub record MessageRow : Type 0 where
  pub rowid : ℕ
  pub chat_jid : Text
  pub msg_id : Text
  pub ts : ℕ
  pub from_me : Bool
  pub reaction_to_id : Text
  pub reaction_emoji : Text
  pub revoked : Bool
  pub deleted_for_me : Bool
  pub display_text : Text
  pub text : Text

-- SQL's TRIM leaves nothing: only spaces.
unfoldable pub is_blank : Text → Bool
is_blank [] = true
is_blank (c ∷ s) = (c == 32) && is_blank s

-- A message that counts as unread, wherever it stands.
unfoldable pub is_readable : Text → MessageRow → Bool
unfolding is_blank
is_readable jid m =
    text_eq m.chat_jid jid
    && not m.from_me
    && text_eq m.reaction_to_id []
    && text_eq m.reaction_emoji []
    && not m.revoked
    && not m.deleted_for_me
    && (not (text_eq m.display_text (codes "(message)")) || not (is_blank m.text))

-- A read position: a moment, and the last row read at that moment.
abbrev pub is_after : ℕ × ℕ → MessageRow → Bool
is_after (ts, row_id) m = ltb ts m.ts || ((m.ts == ts) && ltb row_id m.rowid)

unfoldable pub remaining : Text → ℕ × ℕ → List MessageRow → ℕ
unfolding is_readable
remaining jid p [] = 0
remaining jid p (m ∷ ms) =
    let others = remaining jid p ms in
    if is_readable jid m && is_after p m then suc others else others

unfoldable pub is_one_of : Text → List Text → Bool
is_one_of id [] = false
is_one_of id (x ∷ xs) = text_eq x id || is_one_of id xs

-- `uniqueNonEmptyStrings`
unfoldable pub unique_after : List Text → List Text → List Text
unfolding is_one_of
unique_after seen [] = []
unique_after seen (x ∷ xs) =
    let v = trim_space x in
    let skipped = unique_after seen xs in
    let kept = unique_after (v ∷ seen) xs in
    if text_eq v [] || is_one_of v seen then skipped else v ∷ kept

abbrev pub unique_non_empty_strings : List Text → List Text
unique_non_empty_strings = unique_after []

-- The greatest row of the chat at that moment with one of the ids; 0 when there is none.
unfoldable pub boundary : Text → ℕ → List Text → List MessageRow → ℕ
unfolding is_one_of
boundary jid ts ids [] = 0
boundary jid ts ids (m ∷ ms) =
    let others = boundary jid ts ids ms in
    if text_eq m.chat_jid jid && (m.ts == ts) && is_one_of m.msg_id ids
    then max m.rowid others
    else others

-- The UPDATE of clearChatUnreadThrough on a row, from the messages that remain.
unfoldable pub recount : Bool → ℕ → ChatRow → ChatRow
recount preserve_marker left row = record row {
  unread_count = min row.unread_count left;
  unread =
      if preserve_marker && (row.unread_count == 0) && row.unread && ltb 0 left
      then true
      else ltb 0 (min row.unread_count left);
}

abbrev pub update_row : Text → (ChatRow → ChatRow) → Option ChatRow → Chats → Chats
update_row jid f none chats = chats
update_row jid f (some row) chats = set_row jid (f row) chats

-- `clearChatUnreadThrough`; no moment is the zero time.
unfoldable pub clear_chat_unread_through :
    Text → Option ℕ → List Text → Bool → List MessageRow → Chats → Result Text Chats
unfolding set_chat_unread unique_after boundary remaining recount
clear_chat_unread_through chat_jid through ids preserve_marker messages chats =
    let jid = trim_space chat_jid in
    if text_eq jid [] then err (codes "chat JID is required") else elim through [
      | none ↦ ok (set_chat_unread jid false chats)
      | some ts ↦
          let row_id = boundary jid ts (unique_non_empty_strings ids) messages in
          ok (
            update_row jid (recount preserve_marker (remaining jid (ts, row_id) messages))
              (chats jid) chats)
    ]
