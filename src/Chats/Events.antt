-- ===== src/Chats/Events.antt =====
-- The events of other devices on a chat: handleChatStateEvent of internal/app/chat_state.go, and the read
-- positions of internal/app/unread.go. The chat under which a JID is stored is a parameter; an empty JID,
-- a missing action and the zero time are none.
use wacli.Common.{
  Result, ok, if◌then◌else◌, Bool-cases, lt→ltb, Text, text_eq, text_eq_iff, trim_space, ℕ, ◌+◌,
  ◌<◌, ◌≡◌, refl, ap, ◌∙◌, ◌≢◌, inl, inr, Bool, true, false, not, ◌||◌, Option, some, List, [], ◌∷◌,
  arith,
}
use wacli.Common.Int.{ℤ, pos, pos_part, ltb_ℤ}
use wacli.Chats.{
  Chats, MessageRow, set_chat_archived, set_chat_pinned, set_chat_muted_until, set_chat_unread,
  clear_chat_unread_through,
}
use wacli.Chats.Mute.{muted_until_from_action}

-- The action of MarkChatAsRead with its message range: each message's id and moment.
pub record ReadAction : Type 0 where
  pub read : Bool
  pub last_message_ts : ℤ
  pub messages : List (Text × ℤ)

pub data ChatEvent : Type 0 where
  archive : Option Text → Option Bool → ChatEvent
  pin : Option Text → Option Bool → ChatEvent
  mute : Option Text → Option (Bool × ℤ) → ChatEvent
  mark_chat_as_read : Option Text → Option ReadAction → Option ℕ → ChatEvent

unfoldable position_ids : List (Text × ℤ) → List Text
position_ids [] = []
position_ids ((id, ts) ∷ ms) =
    let others = position_ids ms in if text_eq id [] then others else id ∷ others

unfoldable position_ts : ℤ → List (Text × ℤ) → ℤ
position_ts ts [] = ts
position_ts ts ((id, t) ∷ ms) = position_ts (if ltb_ℤ ts t then t else ts) ms

-- `markChatAsReadPosition`
unfoldable mark_chat_as_read_position : ReadAction → Option ℕ → Option ℕ × List Text
unfolding position_ids position_ts
mark_chat_as_read_position r at =
    let ts = position_ts r.last_message_ts r.messages in
    (if ltb_ℤ (pos 0) ts then some (pos_part ts) else at, position_ids r.messages)

unfoldable has_exact_id : List Text → Bool
has_exact_id [] = false
has_exact_id (id ∷ ids) = not (text_eq (trim_space id) []) || has_exact_id ids

-- `clearChatUnreadFromEvent`
unfoldable clear_chat_unread_from_event :
    Text → Option ℕ → List Text → List MessageRow → Chats → Result Text Chats
unfolding has_exact_id
clear_chat_unread_from_event chat through ids messages chats =
    clear_chat_unread_through chat through ids (has_exact_id ids) messages chats

unfoldable read_from_event :
    Text → ReadAction → Option ℕ → List MessageRow → Chats → Result Text Chats
unfolding mark_chat_as_read_position clear_chat_unread_from_event
read_from_event chat r at messages chats =
    let p = mark_chat_as_read_position r at in
    if r.read
    then clear_chat_unread_from_event chat p.0 p.1 messages chats
    else ok (set_chat_unread chat true chats)

abbrev range_of : Text → ℕ → ReadAction
range_of id ts = record { read = true; last_message_ts = pos ts; messages = (id, pos ts) ∷ [] }

either_branch : (b : Bool) (t : ℤ) → (if b then t else t) ≡ t
either_branch true t = refl
either_branch false t = refl

range_of-ts : (id : Text) (ts : ℕ) → position_ts (pos ts) ((id, pos ts) ∷ []) ≡ pos ts
unfolding position_ts
range_of-ts id ts = either_branch (ltb_ℤ (pos ts) (pos ts)) (pos ts)

range_of-ids : (id : Text) (ts : ℕ) → id ≢ [] → position_ids ((id, pos ts) ∷ []) ≡ id ∷ []
unfolding position_ids
range_of-ids id ts named = elim (Bool-cases (text_eq id [])) [
  | inl y ↦ absurd (named ((text_eq_iff id []).0 y))
  | inr n ↦ rw n refl
]

above_zero : (ts : ℕ) → 0 < ts → ltb_ℤ (pos 0) (pos ts) ≡ true
above_zero ts positive = lt→ltb (0 + 0) (ts + 0) (omega (arith, positive))

range_of-position :
    (id : Text) (ts : ℕ) (at : Option ℕ)
    → 0 < ts
    → id ≢ []
    → mark_chat_as_read_position (range_of id ts) at ≡ (some ts, id ∷ [])
unfolding mark_chat_as_read_position
range_of-position id ts at positive named =
    rw (range_of-ts id ts, range_of-ids id ts named, above_zero ts positive) refl

exact_id : (id : Text) → trim_space id ≢ [] → has_exact_id (id ∷ []) ≡ true
unfolding has_exact_id
exact_id id exact = elim (Bool-cases (text_eq (trim_space id) [])) [
  | inl y ↦ absurd (exact ((text_eq_iff (trim_space id) []).0 y))
  | inr n ↦ rw n refl
]

module _ (canonical : Text → Text) where
  -- `handleChatStateEvent`
  unfoldable pub handle_chat_state_event : ChatEvent → List MessageRow → Chats → Result Text Chats
  unfolding read_from_event
  handle_chat_state_event (archive (some jid) (some archived)) messages chats =
      ok (set_chat_archived (canonical jid) archived chats)
  handle_chat_state_event (pin (some jid) (some pinned)) messages chats =
      ok (set_chat_pinned (canonical jid) pinned chats)
  handle_chat_state_event (mute (some jid) (some action)) messages chats =
      ok (set_chat_muted_until (canonical jid) (muted_until_from_action (some action)) chats)
  handle_chat_state_event (mark_chat_as_read (some jid) (some r) at) messages chats =
      read_from_event (canonical jid) r at messages chats
  handle_chat_state_event _ messages chats = ok chats

  -- The echo of a command that read up to a named message, at a moment after the epoch, changes the chats
  -- as that command did.
  handle_chat_state_event-echo :
      (jid id : Text) (ts : ℕ) (at : Option ℕ) (messages : List MessageRow) (chats : Chats)
      → 0 < ts
      → id ≢ []
      → trim_space id ≢ []
      → handle_chat_state_event
          (mark_chat_as_read (some jid) (some (range_of id ts)) at)
          messages
          chats
        ≡ clear_chat_unread_through (canonical jid) (some ts) (id ∷ []) true messages chats
  unfolding handle_chat_state_event read_from_event clear_chat_unread_from_event
  handle_chat_state_event-echo jid id ts at messages chats positive named exact =
      ap
        (λ (p : Option ℕ × List Text).
          clear_chat_unread_from_event (canonical jid) p.0 p.1 messages chats)
        (range_of-position id ts at positive named)
      ∙ ap (λ b. clear_chat_unread_through (canonical jid) (some ts) (id ∷ []) b messages chats)
          (exact_id id exact)
