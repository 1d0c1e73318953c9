-- ===== src/Recovery/Gated.antt =====
-- The commands of internal/app/chat_state.go that are one call of the client under the chat-state lock:
-- DeleteMessageForMe, StarMessage and DeleteChatRemote. The client's answer and the write of the star are
-- arguments; the name of whatsmeow's collection is a parameter.
use wacli.Common.{Result, ok, err, Text, ℕ, Bool, true, false, Option, none, some}
use wacli.Recovery.State.{App}
use wacli.Recovery.Write.{Answers, Ended, proceeds, fails, out_of_fuel, sync_before_write}
use wacli.Recovery.LocalWrite.{
  WriteError, not_locked, not_synchronised, never_ended, not_sent, not_stored,
}

-- The client's error, or the rest of the command.
unfoldable answer : Option ℕ → Result WriteError (Unit {0}) → Result WriteError (Unit {0})
answer none stored = stored
answer (some e) stored = err (not_sent e none)

unfoldable under_lock : Ended → Result WriteError (Unit {0}) → Result WriteError (Unit {0})
under_lock proceeds result = result
under_lock (fails e) result = err (not_synchronised e)
under_lock out_of_fuel result = err never_ended

module _ (regular_high : Text) where
  -- `DeleteMessageForMe` and `DeleteChatRemote`: the local archive stays.
  unfoldable delete_remote : Bool → Answers → Option ℕ → App → Result WriteError (Unit {0}) × App
  unfolding answer under_lock
  delete_remote false w sent a = (err not_locked, a)
  delete_remote true w sent a =
      let synced = sync_before_write regular_high w a in
      (under_lock synced.0 (answer sent (ok tt)), synced.1)

  -- `StarMessage`; `starred` is what SetStarred of the store returns.
  unfoldable star_message :
      Bool → Answers → Option ℕ → Result Text (Unit {0}) → App → Result WriteError (Unit {0}) × App
  unfolding answer under_lock
  star_message false w sent starred a = (err not_locked, a)
  star_message true w sent (ok u) a =
      let synced = sync_before_write regular_high w a in
      (under_lock synced.0 (answer sent (ok tt)), synced.1)
  star_message true w sent (err e) a =
      let synced = sync_before_write regular_high w a in
      (under_lock synced.0 (answer sent (err (not_stored e))), synced.1)
