-- ===== src/Receipts/Examples.antt =====
-- Reports of two recipients about one message, after internal/store/message_receipts.go.
use wacli.Common.{map, trim_space, ◌&&◌, if◌then◌else◌, codes, max, ◌≡◌, refl, List, [], ◌∷◌}
use wacli.Receipts.{
  Status, delivered, read, rank, Key, key_eq, Receipt, Tables, upsert, status_of,
  upsert_message_receipt,
}
use wacli.Receipts.Order.{reached, key_of, status_rank, is_kept, reached-upsert_message_receipt}

abbrev key : Key
key = record { chat_jid = codes "chat"; msg_id = codes "A1"; recipient_jid = codes "bob" }

abbrev other : Key
other = record { chat_jid = codes "chat"; msg_id = codes "A1"; recipient_jid = codes "eve" }

abbrev report : Key → Status → Receipt
report k s = record { key = k; status = s; ts = 1 }

abbrev rows : List Receipt
rows = report key read ∷ report other delivered ∷ []

-- A late delivery report does not take the read report back.
late_delivery : reached key (upsert (report key delivered) rows) ≡ 2
unfolding reached upsert key_eq rank
late_delivery = refl

abbrev tables : Tables
tables = record { own = (codes "chat", codes "A1") ∷ []; receipts = rows }

reached-upsert_message_receipt_example :
    reached key
      (upsert_message_receipt
        (λ c. c)
        (codes "chat")
        (codes "A1")
        (codes "bob")
        (codes "played")
        9
        tables).1.receipts
    ≡ (if is_kept (key_of (codes "chat") (codes "A1") (codes "bob")) tables
          && key_eq (key_of (codes "chat") (codes "A1") (codes "bob")) key
        then max
            (status_rank (status_of (map (λ c. c) (trim_space (codes "played")))))
            (reached key rows)
        else reached key rows)
reached-upsert_message_receipt_example =
    reached-upsert_message_receipt (λ c. c) (codes "chat") (codes "A1") (codes "bob")
      (codes "played") 9 tables key
