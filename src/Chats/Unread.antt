-- ===== src/Chats/Unread.antt =====
-- What a read position does to a chat's unread count, and the agreement of the count and the flag.
use wacli.Common.{
  ltb, Bool-cases, lt→ltb, Text, text_eq, trim_space, ℕ, ◌+◌, ◌≤◌, ◌<◌, min, ◌≡◌, refl, ◌↔◌, ◌⊎◌,
  inl, inr, Bool, true, false, Option, none, some, List, [], ◌∷◌, arith,
}
use wacli.Common.Int.{ℤ, pos, negsuc}
use wacli.Chats.Lid.{delete_chat, delete_chats_older_than, clear_chat_unread_marker, migrate_lid}
use wacli.Chats.Agrees.{
  AgreesRow, AgreesAt, Agrees, set_row-Agrees, row_or_new-Agrees, or_same, marker-Agrees,
  delete_chat-Agrees, deletes_older-Agrees, migrate_lid-Agrees,
}
use wacli.Chats.{
  ChatRow, Chats, upsert, upsert_chat, upsert_chat_metadata, set_chat_archived, set_chat_pinned,
  set_chat_muted_until, set_chat_unread, set_chat_unread_count, increment_chat_unread, MessageRow,
  is_after, remaining, boundary, recount, update_row, clear_chat_unread_through,
  unique_non_empty_strings,
}

upsert-Agrees :
    (jid : Text) (f : ChatRow → ChatRow) (chats : Chats)
    → ((row : ChatRow) → AgreesRow row → AgreesRow (f row))
    → Agrees chats
    → Agrees (upsert jid f chats)
upsert-Agrees jid f chats keeps old =
    set_row-Agrees jid _ chats (keeps _ (row_or_new-Agrees _ (chats jid) (old jid))) old

recount-Agrees : (b : Bool) (n : ℕ) (row : ChatRow) → AgreesRow row → AgreesRow (recount b n row)
unfolding recount
recount-Agrees b n row h = λ lt. ground (arith, lt)

update_row-Agrees :
    (jid : Text) (f : ChatRow → ChatRow) (o : Option ChatRow) (chats : Chats)
    → ((row : ChatRow) → AgreesRow row → AgreesRow (f row))
    → AgreesAt o
    → Agrees chats
    → Agrees (update_row jid f o chats)
update_row-Agrees jid f none chats keeps here old = old
update_row-Agrees jid f (some row) chats keeps here old =
    set_row-Agrees jid _ chats (keeps row here) old

-- The operations of the store on the chats table, once its schema is up to date.
pub data ChatOp : Type 0 where
  upserts : Text → Text → Text → ℕ → ChatOp
  upserts_metadata : Text → Text → Text → ChatOp
  archives : Text → Bool → ChatOp
  pins : Text → Bool → ChatOp
  mutes : Text → ℤ → ChatOp
  marks_unread : Text → Bool → ChatOp
  counts : Text → ℤ → ChatOp
  increments : Text → ChatOp
  reads_through : Text → Option ℕ → List Text → Bool → List MessageRow → ChatOp
  clears_marker : Text → Bool → ChatOp
  deletes_chat : Text → ChatOp
  deletes_older : (Text → ℕ) → ℕ → ℕ → ChatOp
  migrates : Text → Text → Bool → Option (Text × ℕ) → ChatOp

unfoldable pub apply_op : ChatOp → Chats → Chats
apply_op (upserts jid kind name ts) chats = upsert_chat jid kind name ts chats
apply_op (upserts_metadata jid kind name) chats = upsert_chat_metadata jid kind name chats
apply_op (archives jid b) chats = set_chat_archived jid b chats
apply_op (pins jid b) chats = set_chat_pinned jid b chats
apply_op (mutes jid t) chats = set_chat_muted_until jid t chats
apply_op (marks_unread jid b) chats = set_chat_unread jid b chats
apply_op (counts jid n) chats = set_chat_unread_count jid n chats
apply_op (increments jid) chats = increment_chat_unread jid chats
apply_op (reads_through jid t ids keep ms) chats =
    or_same (clear_chat_unread_through jid t ids keep ms chats) chats
apply_op (clears_marker jid eligible) chats = clear_chat_unread_marker jid eligible chats
apply_op (deletes_chat jid) chats = or_same (delete_chat jid chats) chats
apply_op (deletes_older latest days cutoff) chats =
    or_same (delete_chats_older_than latest days cutoff chats) chats
apply_op (migrates lid pn pending newest) chats =
    or_same (migrate_lid lid pn pending newest chats) chats

abbrev cleared : ChatRow → ChatRow
cleared row = record row { unread = false; unread_count = 0 }

set_chat_unread-Agrees :
    (jid : Text) (b : Bool) (chats : Chats) → Agrees chats → Agrees (set_chat_unread jid b chats)
unfolding set_chat_unread
set_chat_unread-Agrees jid true chats h =
    upsert-Agrees jid (λ (row : ChatRow). record row { unread = true }) chats (λ row a lt. refl) h
set_chat_unread-Agrees jid false chats h =
    upsert-Agrees jid cleared chats (λ row a lt. absurd (omega (arith, lt))) h

clear-Agrees :
    (jid : Text) (t : Option ℕ) (ids : List Text) (keep : Bool) (ms : List MessageRow)
    (chats : Chats)
    → Agrees chats
    → Agrees (or_same (clear_chat_unread_through jid t ids keep ms chats) chats)
unfolding clear_chat_unread_through
clear-Agrees jid none ids keep ms chats h = elim (Bool-cases (text_eq (trim_space jid) [])) [
  | inl y ↦ rw y h
  | inr n ↦ rw n (set_chat_unread-Agrees (trim_space jid) false chats h)
]
clear-Agrees jid (some ts) ids keep ms chats h = elim (Bool-cases (text_eq (trim_space jid) [])) [
  | inl y ↦ rw y h
  | inr n ↦ rw n (
      update_row-Agrees (trim_space jid) _ (chats (trim_space jid)) chats
        (recount-Agrees keep (
          remaining (trim_space jid)
            (ts, boundary (trim_space jid) ts (unique_non_empty_strings ids) ms) ms))
        (h (trim_space jid)) h)
]

apply_op-Agrees : (op : ChatOp) (chats : Chats) → Agrees chats → Agrees (apply_op op chats)
unfolding apply_op upsert_chat upsert_chat_metadata set_chat_archived set_chat_pinned
    set_chat_muted_until set_chat_unread_count increment_chat_unread
apply_op-Agrees (upserts jid kind name ts) chats h =
    set_row-Agrees jid _ chats (row_or_new-Agrees [] (chats jid) (h jid)) h
apply_op-Agrees (upserts_metadata jid kind name) chats h =
    set_row-Agrees jid _ chats (row_or_new-Agrees [] (chats jid) (h jid)) h
apply_op-Agrees (archives jid true) chats h =
    upsert-Agrees jid (λ (row : ChatRow). record row { archived = true; pinned = false }) chats
      (λ row a. a) h
apply_op-Agrees (archives jid false) chats h =
    upsert-Agrees jid (λ (row : ChatRow). record row { archived = false }) chats (λ row a. a) h
apply_op-Agrees (pins jid b) chats h =
    upsert-Agrees jid (λ (row : ChatRow). record row { pinned = b }) chats (λ row a. a) h
apply_op-Agrees (mutes jid t) chats h =
    upsert-Agrees jid (λ (row : ChatRow). record row { muted_until = t }) chats (λ row a. a) h
apply_op-Agrees (marks_unread jid b) chats h = set_chat_unread-Agrees jid b chats h
apply_op-Agrees (counts jid (negsuc n)) chats h =
    upsert-Agrees jid cleared chats (λ row a lt. absurd (omega (arith, lt))) h
apply_op-Agrees (counts jid (pos n)) chats h =
    upsert-Agrees jid (λ (row : ChatRow). record row { unread = ltb 0 n; unread_count = n }) chats
      (λ row a lt. lt→ltb 0 n lt) h
apply_op-Agrees (increments jid) chats h =
    upsert-Agrees jid
      (λ (row : ChatRow). record row { unread = true; unread_count = row.unread_count + 1 }) chats
      (λ row a lt. refl) h
apply_op-Agrees (reads_through jid t ids keep ms) chats h = clear-Agrees jid t ids keep ms chats h
apply_op-Agrees (clears_marker jid eligible) chats h = marker-Agrees jid eligible chats h
apply_op-Agrees (deletes_chat jid) chats h = delete_chat-Agrees jid chats h
apply_op-Agrees (deletes_older latest days cutoff) chats h =
    deletes_older-Agrees latest days cutoff chats h
apply_op-Agrees (migrates lid pn pending newest) chats h =
    migrate_lid-Agrees lid pn pending newest chats h

unfoldable pub apply_ops : List ChatOp → Chats → Chats
unfolding apply_op
apply_ops [] chats = chats
apply_ops (op ∷ ops) chats = apply_ops ops (apply_op op chats)

-- Any sequence of the store's operations on the chats table keeps it so that a chat whose count is not
-- zero is marked unread: the upserts, the flags, the counts, the read positions, the clearing of the
-- marker, the deletion of chats, and the merge of a hidden id's chat into the one of its phone number.
pub apply_ops-Agrees :
    (ops : List ChatOp) (chats : Chats) → Agrees chats → Agrees (apply_ops ops chats)
unfolding apply_ops
apply_ops-Agrees [] chats h = h
apply_ops-Agrees (op ∷ ops) chats h =
    apply_ops-Agrees ops (apply_op op chats) (apply_op-Agrees op chats h)

-- Position p is not after position q.
abbrev pub IsUpTo : ℕ × ℕ → ℕ × ℕ → Type 0
IsUpTo (t, r) (u, s) = (t < u) ⊎ ((t ≡ u) × (r ≤ s))

is_after-IsUpTo :
    (p q : ℕ × ℕ) (m : MessageRow) → IsUpTo p q → is_after q m ≡ true → is_after p m ≡ true
is_after-IsUpTo (t, r) (u, s) m (inl lt) h = ground arith
is_after-IsUpTo (t, r) (u, s) m (inr (e, le)) h = ground arith

-- No more messages remain after a later position.
remaining-IsUpTo :
    (jid : Text) (p q : ℕ × ℕ) (ms : List MessageRow)
    → IsUpTo p q
    → remaining jid q ms ≤ remaining jid p ms
unfolding remaining
remaining-IsUpTo jid p q [] h = omega arith
remaining-IsUpTo jid p q (m ∷ ms) h =
    ground (arith, remaining-IsUpTo jid p q ms h, is_after-IsUpTo p q m h)

-- The read positions p and q of a chat may arrive in either order: the count that is left is the one of
-- the later position, and it is never above the count before.
pub recount-either_order :
    (jid : Text) (p q : ℕ × ℕ) (keep : Bool) (ms : List MessageRow) (row : ChatRow)
    → IsUpTo p q
    → let first = recount keep (remaining jid p ms) in
      let second = recount keep (remaining jid q ms) in
      ((second (first row)).unread_count ≡ (second row).unread_count)
      × ((first (second row)).unread_count ≡ (second row).unread_count)
      × ((second row).unread_count ≤ row.unread_count)
unfolding recount
recount-either_order jid p q keep ms row h =
    let le = remaining-IsUpTo jid p q ms h in (omega (arith, le), omega (arith, le), omega arith)

-- After a read position the chat is unread exactly when some of its counted messages remain, or, where
-- the marker is to be kept, when only the marker stood and a readable message remains.
pub recount-unread :
    (keep : Bool) (left : ℕ) (row : ChatRow)
    → ((recount keep left row).unread ≡ true) ↔ (
        (0 < min row.unread_count left)
        ⊎ ((keep ≡ true) × (row.unread_count ≡ 0) × (row.unread ≡ true) × (0 < left)))
unfolding recount
recount-unread keep left row = ground arith
