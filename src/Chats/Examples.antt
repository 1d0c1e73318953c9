-- ===== src/Chats/Examples.antt =====
-- The chats table of internal/store/chats.go on one chat.
use wacli.Common.{
  Text, codes, ℕ, ◌≤◌, ◌≡◌, refl, inl, true, false, not, none, some, List, [], ◌∷◌, arith,
}
use wacli.Common.Int.{pos}
use wacli.Common.{is_space, trim_left, trim_space}
use wacli.Chats.Lid.{migrate_lid, merge_lid_row, merge_chat, merge_newest, delete_rows}
use wacli.Chats.{increment_chat_unread, ChatRow, new_row, MessageRow, remaining, recount}
use wacli.Chats.Agrees.{Agrees}
use wacli.Chats.Unread.{
  ChatOp, increments, pins, reads_through, marks_unread, migrates, apply_op, apply_ops,
  apply_ops-Agrees, recount-either_order,
}
use wacli.Chats.Mute.{
  muted_until_from_action, muted_until_unix, is_muted, is_not_muted, muted_lists,
}

abbrev chat : Text
chat = codes "1@s.whatsapp.net"

abbrev message_at : ℕ → ℕ → MessageRow
message_at rowid ts = record {
  rowid = rowid;
  chat_jid = chat;
  msg_id = rowid ∷ [];
  ts = ts;
  from_me = false;
  reaction_to_id = [];
  reaction_emoji = [];
  revoked = false;
  deleted_for_me = false;
  display_text = [];
  text = codes "hello";
}

abbrev messages : List MessageRow
messages = message_at 1 100 ∷ message_at 2 100 ∷ message_at 3 101 ∷ []

abbrev lid : Text
lid = codes "9@lid"

abbrev ops : List ChatOp
ops =
    increments chat
    ∷ increments chat
    ∷ pins chat true
    ∷ reads_through chat (some 100) ((1 ∷ []) ∷ []) true messages
    ∷ marks_unread chat false
    ∷ increments lid
    ∷ migrates lid chat false (some (codes "Ana", 102))
    ∷ []

-- The hidden id's unread message is counted for the phone number's chat.
moves_count :
    (apply_op (migrates lid chat false none) (apply_op (increments lid) (λ jid. none))) chat
    ≡ some (record (new_row (codes "dm")) { unread = true; unread_count = 1 })
unfolding apply_op migrate_lid merge_lid_row merge_chat merge_newest delete_rows
    increment_chat_unread trim_space trim_left is_space
moves_count = refl

apply_ops-Agrees_example : Agrees (apply_ops ops (λ jid. none))
apply_ops-Agrees_example = apply_ops-Agrees ops (λ jid. none) (λ jid. tt)

abbrev row : ChatRow
row = record (new_row chat) { unread = true; unread_count = 3 }

recount-either_order_example :
    let first = recount true (remaining chat (100, 1) messages) in
    let second = recount true (remaining chat (101, 3) messages) in
    ((second (first row)).unread_count ≡ (second row).unread_count)
    × ((first (second row)).unread_count ≡ (second row).unread_count)
    × ((second row).unread_count ≤ row.unread_count)
recount-either_order_example =
    recount-either_order chat (100, 1) (101, 3) true messages row (inl (omega arith))

muted_lists_example :
    (is_not_muted 1700000000 (muted_until_unix true (pos 3600000000000) 1700000000000000000)
      ≡ not (is_muted 1700000000 (muted_until_unix true (pos 3600000000000) 1700000000000000000)))
    × (is_not_muted 1700000000 (muted_until_from_action (some (true, pos 1700000003600)))
        ≡ not (is_muted 1700000000 (muted_until_from_action (some (true, pos 1700000003600)))))
muted_lists_example =
    muted_lists true (pos 3600000000000) (some (true, pos 1700000003600)) 1700000000000000000
      1700000000
