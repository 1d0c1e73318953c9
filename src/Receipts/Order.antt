-- ===== src/Receipts/Order.antt =====
-- A message's state at a recipient never goes back, and the order in which reports arrive does not
-- matter.
use wacli.Common.{
  not, ◌&&◌, ◌||◌, Bool, Option, none, some, text_eq, map, ℕ, ◌≤◌, ◌≡◌, ◌↔◌, max, true, List, [],
  ◌∷◌, if◌then◌else◌, Text, text_eq_iff, trim_space, arith,
}
use wacli.Receipts.{
  Status, status_of, is_own, store_receipt, upsert_message_receipt, rank, Key, key_eq, Receipt,
  Tables, upsert, message_receipts, count_receipts,
}

key_eq_iff : (a b : Key) → (key_eq a b ≡ true) ↔ (a ≡ b)
unfolding key_eq
key_eq_iff a b = ground (
  arith,
  text_eq_iff a.chat_jid b.chat_jid,
  text_eq_iff a.msg_id b.msg_id,
  text_eq_iff a.recipient_jid b.recipient_jid,
)

-- How far the message has come at the recipient: 0 where nothing was reported.
unfoldable pub reached : Key → List Receipt → ℕ
reached key [] = 0
reached key (r ∷ rs) = if key_eq r.key key then rank r.status else reached key rs

pub reached-upsert :
    (new : Receipt) (key : Key) (rs : List Receipt)
    → reached key (upsert new rs)
      ≡ (if key_eq new.key key then max (rank new.status) (reached key rs) else reached key rs)
unfolding reached upsert
reached-upsert new key [] = ground arith
reached-upsert new key (r ∷ rs) = ground (
  arith,
  reached-upsert new key rs,
  key_eq_iff r.key new.key,
  key_eq_iff r.key key,
  key_eq_iff new.key key,
)

-- The key and the status of a report, and the rank of a status: 0 for one that is unknown.
abbrev pub key_of : Text → Text → Text → Key
key_of chat id recipient = record {
  chat_jid = trim_space chat;
  msg_id = trim_space id;
  recipient_jid = trim_space recipient;
}

abbrev pub status_rank : Option Status → ℕ
status_rank none = 0
status_rank (some s) = rank s

-- All ids of the key are given, and its message is one of ours.
abbrev pub is_kept : Key → Tables → Bool
is_kept k d =
    not (text_eq k.chat_jid [] || (text_eq k.msg_id [] || text_eq k.recipient_jid []))
    && is_own k.chat_jid k.msg_id d.own

store_receipt-reached :
    (k : Key) (o : Option Status) (ts : ℕ) (d : Tables) (key : Key)
    → reached key (store_receipt k o ts d).1.receipts ≡ (
        if is_own k.chat_jid k.msg_id d.own && key_eq k key
        then max (status_rank o) (reached key d.receipts)
        else reached key d.receipts)
unfolding store_receipt
store_receipt-reached k none ts d key = ground arith
store_receipt-reached k (some s) ts d key =
    ground (arith, reached-upsert (record { key = k; status = s; ts = ts }) key d.receipts)

-- A report about a message of ours raises what its recipient has reached to at least the rank of its
-- status; for every other recipient and message, and where the message is not ours, an id is missing or
-- the status is unknown, nothing changes.
pub reached-upsert_message_receipt :
    (lower : ℕ → ℕ) (chat id recipient status : Text) (ts : ℕ) (d : Tables) (key : Key)
    → let k = key_of chat id recipient in
      reached key (upsert_message_receipt lower chat id recipient status ts d).1.receipts ≡ (
        if is_kept k d && key_eq k key
        then max (status_rank (status_of (map lower (trim_space status)))) (reached key d.receipts)
        else reached key d.receipts)
unfolding upsert_message_receipt
reached-upsert_message_receipt lower chat id recipient status ts d key =
    let k = key_of chat id recipient in
    ground (arith, store_receipt-reached k (status_of (map lower (trim_space status))) ts d key)

-- Reports in any order: `upsert_all` of a list.
pub upsert_all : List Receipt → List Receipt → List Receipt
upsert_all [] rs = rs
upsert_all (new ∷ news) rs = upsert_all news (upsert new rs)

-- The furthest state among reports for a recipient.
pub furthest : Key → List Receipt → ℕ
furthest key [] = 0
furthest key (r ∷ rs) =
    if key_eq r.key key then max (rank r.status) (furthest key rs) else furthest key rs

-- After any sequence of reports a recipient has reached the furthest of what was there and what the
-- sequence reports for it, so the order of the reports does not matter.
pub reached-upsert_all :
    (news rs : List Receipt) (key : Key)
    → reached key (upsert_all news rs) ≡ max (furthest key news) (reached key rs)
unfolding upsert_all furthest
reached-upsert_all [] rs key = omega arith
reached-upsert_all (new ∷ news) rs key =
    ground (arith, reached-upsert_all news (upsert new rs) key, reached-upsert new key rs)

-- Never more recipients have read a message than have received it.
pub read-le-delivered :
    (chat id : Text) (d : Tables)
    → (message_receipts chat id d).read ≤ (message_receipts chat id d).delivered
unfolding message_receipts
read-le-delivered chat id d = go (trim_space chat) (trim_space id) d.receipts
  where
    go :
        (c i : Text) (rs : List Receipt)
        → (count_receipts c i rs).read ≤ (count_receipts c i rs).delivered
    go c i [] = omega arith
    go c i (r ∷ rs) = ground (arith, go c i rs)
