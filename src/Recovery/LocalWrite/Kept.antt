-- ===== src/Recovery/LocalWrite/Kept.antt =====
-- A chat-state command that succeeds was up to date, has stored its flag, and leaves its marker.
use wacli.Common.{
  Result, ok, err, Text, text_eq_iff, text_eq_refl, trim_space, ℕ, ◌+◌, ◌≡◌, refl, ap, ◌≢◌, Bool,
  true, false, Option, none, some, [], arith,
}
use wacli.AppState.Intents.{
  Tables, Error, mark_generation, mark_generations, mark_loop, insert_intent, any_intent,
  of_collection,
}
use wacli.AppState.Intents.Laws.{IsWellFormed, any_intent-append}
use wacli.Chats.{Chats}
use wacli.Recovery.State.{App}
use wacli.Recovery.Steps.{after_all}
use wacli.Recovery.Steps.Owing.{IsIdle, IsOwing, after_all-IsOwing}
use wacli.Recovery.Steps.Fresh.{IsFresh, IsFresh-same}
use wacli.Recovery.Write.{Answers, Ended, proceeds, fails, out_of_fuel, sync_before_write}
use wacli.Recovery.Write.Ends.{IsIdleFor, Outcome, sync_before_write-ends}
use wacli.Recovery.LocalWrite.{
  Store, SendAnswer, LocalPersist, told, persist_batch, persist_events, complete_local, after_send,
  after_mark, after_sync, write_chat,
}

-- What a command that returned without an error has done: the flag is written over the chats as the events
-- before it and the other goroutines left them, and after it come the events fetched after the send.
pub record IsWritten (k : Text) (s : SendAnswer) (persist : LocalPersist) (before after : Store)
    : Type 0 where
  pub up_to_date : IsFresh k before.app after.app
  pub written : Chats
  pub stored : persist (persist_events s.before_write before.chats).1 ≡ ok written
  pub followed : after.chats ≡ (persist_events s.post_send written).1
  pub owing : IsOwing k after.app

mark_generation-owing :
    (k : Text) (d : Tables)
    → trim_space k ≢ []
    → any_intent (of_collection (trim_space k)) (mark_generation k d).1.intents ≡ true
unfolding mark_generation mark_generations mark_loop insert_intent
mark_generation-owing k d named = ground (
  arith,
  text_eq_iff (trim_space k) [],
  text_eq_refl (trim_space k),
  any_intent-append (of_collection (trim_space k)) d.intents
      (record { id = d.seq + 1; collection = trim_space k }),
)

module _ (k : Text) (s : SendAnswer) (persist : LocalPersist) (before : Store) where
  abbrev synced_chats : Chats
  synced_chats = (persist_events s.before_write before.chats).1

  told-IsWritten :
      (o : Option ℕ) (chats : Chats) (st : Store)
      → (told o st).0 ≡ ok tt
      → IsFresh k before.app st.app
      → persist synced_chats ≡ ok chats
      → st.chats ≡ (persist_events s.post_send chats).1
      → IsOwing k st.app
      → IsWritten k s persist before (told o st).1
  told-IsWritten (some e) chats st done fresh stored followed owing = absurd cc
  told-IsWritten none chats st done fresh stored followed owing = record {
    up_to_date = fresh;
    written = chats;
    stored = stored;
    followed = followed;
    owing = owing;
  }

  complete_local-IsWritten :
      (r : Result Text Chats) (st : Store)
      → (complete_local r s.post_send st).0 ≡ ok tt
      → IsFresh k before.app st.app
      → persist synced_chats ≡ r
      → IsOwing k st.app
      → IsWritten k s persist before (complete_local r s.post_send st).1
  unfolding complete_local
  complete_local-IsWritten (err e) st done fresh stored owing = absurd cc
  complete_local-IsWritten (ok chats) st done fresh stored owing =
      let r = persist_batch s.post_send chats in
      let after : Store = record st { chats = r.1 } in
      told-IsWritten r.0 chats after done (IsFresh-same after.app refl fresh) stored refl owing

  after_send-IsWritten :
      (o : Option ℕ) (reserved : Bool) (st : Store)
      → (after_send o reserved s persist st).0 ≡ ok tt
      → IsFresh k before.app st.app
      → synced_chats ≡ st.chats
      → IsOwing k st.app
      → IsWritten k s persist before (after_send o reserved s persist st).1
  unfolding after_send
  after_send-IsWritten (some e) reserved st done fresh same owing = absurd cc
  after_send-IsWritten none false st done fresh same owing = absurd cc
  after_send-IsWritten none true st done fresh same owing =
      complete_local-IsWritten (persist st.chats) st done fresh (ap persist same) owing

  after_mark-IsWritten :
      (r : Result Error ℕ) (st : Store)
      → IsIdle (trim_space k) s.meanwhile
      → (after_mark r s persist st).0 ≡ ok tt
      → IsFresh k before.app st.app
      → synced_chats ≡ st.chats
      → IsOwing k st.app
      → IsWritten k s persist before (after_mark r s persist st).1
  unfolding after_mark
  after_mark-IsWritten (err e) st idle done fresh same owing = absurd cc
  after_mark-IsWritten (ok g) st idle done fresh same owing =
      after_send-IsWritten s.error s.reserved (record st { app = after_all s.meanwhile st.app })
        done (IsFresh-same (after_all s.meanwhile st.app) refl fresh) same
        (after_all-IsOwing k s.meanwhile st.app idle owing)

  after_sync-IsWritten :
      (o : Ended) (st : Store)
      → trim_space k ≢ []
      → IsIdle (trim_space k) s.meanwhile
      → (after_sync k o s persist st).0 ≡ ok tt
      → Outcome k before.app o st.app
      → synced_chats ≡ st.chats
      → IsWritten k s persist before (after_sync k o s persist st).1
  unfolding after_sync
  after_sync-IsWritten (fails e) st named idle done outcome same = absurd cc
  after_sync-IsWritten out_of_fuel st named idle done outcome same = absurd cc
  after_sync-IsWritten proceeds st named idle done outcome same =
      let marked = mark_generation k st.app.tables in
      let app : App = record st.app { tables = marked.1 } in
      after_mark-IsWritten marked.0 (record st { app = app }) idle done
        (IsFresh-same app refl outcome) same (mark_generation-owing k st.app.tables named)

-- A chat-state command that returns without an error was preceded by data of its collection that was
-- persisted since it began. It has written its flag over the chats as the events persisted before it and
-- the other goroutines left them, and only the events fetched after the send and the other goroutines
-- came upon it. It leaves its collection with a pending intent, so that a later command replays what the
-- send fetched. The tables are well formed, the collection has a name, and the other goroutines clear no
-- intent of it.
pub write_chat-IsWritten :
    (k : Text) (locked : Bool) (w : Answers) (s : SendAnswer) (persist : LocalPersist) (st : Store)
    → trim_space k ≢ []
    → IsWellFormed st.app.tables
    → IsIdleFor k w
    → IsIdle (trim_space k) s.meanwhile
    → (write_chat k locked w s persist st).0 ≡ ok tt
    → IsWritten k s persist st (write_chat k locked w s persist st).1
unfolding write_chat
write_chat-IsWritten k false w s persist st named wf idle calm done = absurd cc
write_chat-IsWritten k true w s persist st named wf idle calm done =
    let synced = sync_before_write k w st.app in
    after_sync-IsWritten k s persist st synced.0
      (record st { app = synced.1; chats = (persist_events s.before_write st.chats).1 }) named calm
      done (sync_before_write-ends k w st.app named wf idle).outcome refl
