-- ===== src/Receipts.antt =====
-- internal/store/message_receipts.go: what each recipient reported about a message of ours. The
-- mapping of a rune to lower case is an argument of the operations.
pub mod Order
mod Examples
use wacli.Common.{
  ℕ, zero, suc, ◌+◌, Bool, true, false, not, ◌&&◌, ◌||◌, Option, none, some, List, [], ◌∷◌, ◌++◌,
  map, ltb, if◌then◌else◌, Text, codes, text_eq, trim_space, Result, ok, err,
}

-- `receiptRank`: the keys of the map, and the numbers that they have.
pub data Status : Type 0 where
  delivered read played : Status

unfoldable pub rank : Status → ℕ
rank delivered = 1
rank read = 2
rank played = 3

unfoldable pub status_of : Text → Option Status
status_of t =
    if text_eq t (codes "delivered")
    then some delivered
    else if text_eq t (codes "read")
    then some read
    else if text_eq t (codes "played")
    then some played
    else none

-- The primary key (chat_jid, msg_id, recipient_jid) of `message_receipts`.
pub record Key : Type 0 where
  pub chat_jid : Text
  pub msg_id : Text
  pub recipient_jid : Text

unfoldable pub key_eq : Key → Key → Bool
key_eq a b =
    text_eq a.chat_jid b.chat_jid
    && (text_eq a.msg_id b.msg_id && text_eq a.recipient_jid b.recipient_jid)

pub record Receipt : Type 0 where
  pub key : Key
  pub status : Status
  pub ts : ℕ

-- `own` holds the (chat_jid, msg_id) of the rows of `messages` with `from_me = 1`.
pub record Tables : Type 0 where
  pub own : List (Text × Text)
  pub receipts : List Receipt

pub data Error : Type 0 where
  ids_required unknown_status : Error

unfoldable pub is_own : Text → Text → List (Text × Text) → Bool
is_own chat id [] = false
is_own chat id ((c, i) ∷ rest) = (text_eq c chat && text_eq i id) || is_own chat id rest

-- ON CONFLICT … DO UPDATE SET … WHERE ? > rank of the row, or the row as inserted.
unfoldable pub upsert : Receipt → List Receipt → List Receipt
unfolding rank
upsert new [] = new ∷ []
upsert new (r ∷ rs) =
    if key_eq r.key new.key
    then (if ltb (rank r.status) (rank new.status) then new else r) ∷ rs
    else r ∷ upsert new rs

store_receipt : Key → Option Status → ℕ → Tables → Result Error (Unit {0}) × Tables
unfolding is_own upsert
store_receipt key none ts d = (err unknown_status, d)
store_receipt key (some s) ts d = (
  ok tt,
  if is_own key.chat_jid key.msg_id d.own
      then record d { receipts = upsert (record { key = key; status = s; ts = ts }) d.receipts }
      else d,
)

module _ (lower : ℕ → ℕ) where
  -- `UpsertMessageReceipt`
  pub upsert_message_receipt :
      (chat id recipient status : Text) → ℕ → Tables → Result Error (Unit {0}) × Tables
  unfolding store_receipt status_of
  upsert_message_receipt chat id recipient status ts d =
      let key : Key = record {
        chat_jid = trim_space chat;
        msg_id = trim_space id;
        recipient_jid = trim_space recipient;
      } in
      if text_eq key.chat_jid [] || (text_eq key.msg_id [] || text_eq key.recipient_jid [])
      then (err ids_required, d)
      else store_receipt key (status_of (map lower (trim_space status))) ts d

pub record Counts : Type 0 where
  pub delivered : ℕ
  pub read : ℕ

count_receipts : Text → Text → List Receipt → Counts
count_receipts chat id [] = record { delivered = 0; read = 0 }
count_receipts chat id (r ∷ rs) =
    let rest = count_receipts chat id rs in
    if text_eq r.key.chat_jid chat && text_eq r.key.msg_id id
    then record {
      delivered = rest.delivered + 1;
      read = rest.read + (elim r.status [ delivered ↦ 0 | _ ↦ 1 ]);
    }
    else rest

-- `MessageReceipts`
unfoldable pub message_receipts : Text → Text → Tables → Counts
unfolding count_receipts
message_receipts chat id d = count_receipts (trim_space chat) (trim_space id) d.receipts
