-- ===== src/Recovery/LocalWrite.antt =====
-- The chat-state commands of internal/app/chat_state.go: ArchiveChat, PinChat, MuteChat and markChatRead,
-- and the durable marker of the local write around the send. The names of whatsmeow's collections are
-- parameters.
pub mod Kept
use wacli.Common.{
  Result, ok, err, ltb, leb, ◌==◌, if◌then◌else◌, Bool-cases, Option-cases, ltb→lt, lt→ltb, ==_iff,
  All, All-append, All-trim_space, Text, codes, text_eq, text_eq_iff, text_eq_refl, trim_space,
  has_prefix, length, take, drop, ℕ, zero, suc, ◌+◌, ◌-◌, ◌*◌, ◌/◌, ◌%◌, ◌≤◌, ◌<◌, min, max, ◌≡◌,
  refl, sym, ap, ◌∙◌, ◌≢◌, ◌↔◌, ◌⊎◌, inl, inr, Bool, true, false, not, ◌&&◌, ◌||◌, Option, none,
  some, List, [], ◌∷◌, ◌++◌, map, reverse, arith,
}
use wacli.Common.Int.{ℤ}
use wacli.AppState.Intents.{Error, mark_generation}
use wacli.AppState.Intents.Durable.{Op}
use wacli.Chats.{
  Chats, MessageRow, set_chat_archived, set_chat_pinned, set_chat_muted_until, set_chat_unread,
  clear_chat_unread_through,
}
use wacli.Chats.Events.{ChatEvent, handle_chat_state_event}
use wacli.Chats.Mute.{muted_until_unix}
use wacli.Recovery.Tracker.{new_tracker, persist_fetched_events}
use wacli.Recovery.State.{App}
use wacli.Recovery.Steps.{StepError, after_all}
use wacli.Recovery.Write.{Answers, Ended, proceeds, fails, out_of_fuel, sync_before_write}

-- The app and the chats table of its store.
pub record Store : Type 0 where
  pub app : App
  pub chats : Chats

-- An event that is persisted: one that concerns the chats, the chat under which each JID is stored and the
-- messages at that moment, and the error of the store, which writes nothing. `others` is what other
-- goroutines (the handlers of messages) do to the chats before it; with no event it is all that happens.
pub record Persisted : Type 0 where
  pub others : Chats → Chats
  pub event : Option ChatEvent
  pub canonical : Text → Text
  pub messages : List MessageRow
  pub error : Option ℕ

abbrev pub stored_or : Result Text Chats → Chats → Option ℕ × Chats
stored_or (ok chats) old = (none, chats)
stored_or (err e) old = (some 0, old)

-- persistAppStateEvent, as far as the chats go; error 0 is the missing JID of a chat.
unfoldable pub persist_event : Persisted → Option ℕ → Option ChatEvent → Chats → Option ℕ × Chats
persist_event p (some e) event chats = (some e, chats)
persist_event p none none chats = (none, chats)
persist_event p none (some event) chats =
    stored_or (handle_chat_state_event p.canonical event p.messages chats) chats

unfoldable pub persist_events : List Persisted → Chats → List (Option ℕ) × Chats
unfolding persist_event
persist_events [] chats = ([], chats)
persist_events (p ∷ ps) chats =
    let r = persist_event p p.error p.event (p.others chats) in
    let rest = persist_events ps r.1 in (r.0 ∷ rest.0, rest.1)

-- What the send meets: whether it reached the apply boundary, its error, the events fetched after it, and
-- what other goroutines do to the intents meanwhile. `before_write` are the events persisted from the
-- start of the command to the local write, by the synchronisation and by the live handlers.
pub record SendAnswer : Type 0 where
  pub before_write : List Persisted
  pub reserved : Bool
  pub error : Option ℕ
  pub post_send : List Persisted
  pub meanwhile : List Op

pub data WriteError : Type 0 where
  not_locked : WriteError
  not_synchronised : StepError → WriteError
  never_ended : WriteError
  not_marked : Error → WriteError
  not_sent : ℕ → Option ℕ → WriteError
  no_apply_boundary : WriteError
  not_stored : Text → WriteError
  not_persisted : ℕ → WriteError
  no_boundary : Text → WriteError

abbrev pub LocalPersist : Type 0
LocalPersist = Chats → Result Text Chats

-- The tracker's error over the events, and the chats after them.
abbrev pub persist_batch : List Persisted → Chats → Option ℕ × Chats
persist_batch ps chats =
    let r = persist_events ps chats in ((persist_fetched_events r.0 new_tracker).0, r.1)

-- `failLocalAppStateWrite`
unfoldable pub fail_local : SendAnswer → Chats → Option ℕ × Chats
unfolding persist_events
fail_local s chats = if s.reserved then persist_batch s.post_send chats else (none, chats)

abbrev pub told : Option ℕ → Store → Result WriteError (Unit {0}) × Store
told none st = (ok tt, st)
told (some e) st = (err (not_persisted e), st)

-- The task of completeLocalAppStateWrite: the local write, and then the events fetched after the send. It
-- runs under a context without cancellation, so that its result is always read.
unfoldable pub complete_local :
    Result Text Chats → List Persisted → Store → Result WriteError (Unit {0}) × Store
unfolding persist_events
complete_local (err e) events st =
    (err (not_stored e), record st { chats = (persist_events events st.chats).1 })
complete_local (ok chats) events st =
    let r = persist_batch events chats in told r.0 (record st { chats = r.1 })

unfoldable pub after_send :
    Option ℕ → Bool → SendAnswer → LocalPersist → Store → Result WriteError (Unit {0}) × Store
unfolding fail_local complete_local
after_send (some e) reserved s persist st =
    let f = fail_local s st.chats in (err (not_sent e f.0), record st { chats = f.1 })
after_send none false s persist st = (err no_apply_boundary, st)
after_send none true s persist st = complete_local (persist st.chats) s.post_send st

-- `beginLocalAppStateWrite`, and the send under its marker.
unfoldable pub after_mark :
    Result Error ℕ → SendAnswer → LocalPersist → Store → Result WriteError (Unit {0}) × Store
unfolding after_send
after_mark (err e) s persist st = (err (not_marked e), st)
after_mark (ok generation) s persist st =
    after_send s.error s.reserved s persist (record st { app = after_all s.meanwhile st.app })

unfoldable pub after_sync :
    Text → Ended → SendAnswer → LocalPersist → Store → Result WriteError (Unit {0}) × Store
unfolding after_mark
after_sync k (fails e) s persist st = (err (not_synchronised e), st)
after_sync k out_of_fuel s persist st = (err never_ended, st)
after_sync k proceeds s persist st =
    let marked = mark_generation k st.app.tables in
    after_mark marked.0 s persist (record st { app = record st.app { tables = marked.1 } })

-- `beginChatStateWrite` and what follows it; `locked` is whether the chat-state lock was got.
unfoldable pub write_chat :
    Text → Bool → Answers → SendAnswer → LocalPersist → Store → Result WriteError (Unit {0}) × Store
unfolding after_sync persist_events
write_chat k false w s persist st = (err not_locked, st)
write_chat k true w s persist st =
    let synced = sync_before_write k w st.app in
    let chats = (persist_events s.before_write st.chats).1 in
    after_sync k synced.0 s persist (record st { app = synced.1; chats = chats })

-- The position up to which a chat is read: the moment and the ids of the last message, both absent when
-- the chat has no message.
unfoldable pub persist_read :
    Text → Bool → Bool → Option ℕ → List Text → List MessageRow → LocalPersist
persist_read chat false exact through ids messages chats = ok (set_chat_unread chat true chats)
persist_read chat true exact through ids messages chats =
    clear_chat_unread_through chat through ids exact messages chats

module _ (regular_low regular_high : Text) where
  -- `ArchiveChat`
  unfoldable pub archive_chat :
      Text → Bool → Bool → Answers → SendAnswer → Store → Result WriteError (Unit {0}) × Store
  unfolding write_chat
  archive_chat chat archive locked w s st =
      write_chat regular_low locked w s (λ chats. ok (set_chat_archived chat archive chats)) st

  -- `PinChat`
  unfoldable pub pin_chat :
      Text → Bool → Bool → Answers → SendAnswer → Store → Result WriteError (Unit {0}) × Store
  unfolding write_chat
  pin_chat chat pin locked w s st =
      write_chat regular_low locked w s (λ chats. ok (set_chat_pinned chat pin chats)) st

  -- `MuteChat`, at `base` in nanoseconds
  unfoldable pub mute_chat :
      Text
      → Bool
      → ℤ
      → ℕ
      → Bool
      → Answers
      → SendAnswer
      → Store
      → Result WriteError (Unit {0}) × Store
  unfolding write_chat
  mute_chat chat mute duration base locked w s st =
      write_chat regular_high locked w s
        (λ chats. ok (set_chat_muted_until chat (muted_until_unix mute duration base) chats)) st

  -- `markChatRead`; `exact` is a position that the caller named, an error of which ends it at once.
  unfoldable pub mark_chat_read :
      Text
      → Bool
      → Option (Result Text (Option ℕ × List Text))
      → Option ℕ × List Text
      → List MessageRow
      → Bool
      → Answers
      → SendAnswer
      → Store
      → Result WriteError (Unit {0}) × Store
  unfolding write_chat persist_read
  mark_chat_read chat read (some (err e)) latest messages locked w s st = (err (no_boundary e), st)
  mark_chat_read chat read (some (ok (through, ids))) latest messages locked w s st =
      write_chat regular_low locked w s (persist_read chat read true through ids messages) st
  mark_chat_read chat read none (through, ids) messages locked w s st =
      write_chat regular_low locked w s (persist_read chat read false through ids messages) st
