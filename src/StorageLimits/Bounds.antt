-- ===== src/StorageLimits/Bounds.antt =====
-- What the limits of internal/app/sync_limits.go guarantee over the messages of a sync.
use wacli.Common.{◌≡◌, true, false, List, [], ◌∷◌, arith}
use wacli.StorageLimits.{
  SyncOptions, Limits, Message, kept, set_err, stored, checked_after, checked_before,
  store_parsed_message, can_record_freshness,
}

-- The messages of a sync in order.
unfoldable pub store_all : SyncOptions → List Message → Limits → Limits
unfolding store_parsed_message
store_all opts [] l = l
store_all opts (m ∷ ms) l = store_all opts ms (store_parsed_message opts m l).1

store_parsed_message-failed :
    (opts : SyncOptions) (m : Message) (l : Limits)
    → l.persistence_failed ≡ true
    → (store_parsed_message opts m l).1.persistence_failed ≡ true
unfolding store_parsed_message checked_before checked_after stored set_err kept
store_parsed_message-failed opts m l h = ground arith

store_all-failed :
    (opts : SyncOptions) (ms : List Message) (l : Limits)
    → l.persistence_failed ≡ true
    → (store_all opts ms l).persistence_failed ≡ true
unfolding store_all
store_all-failed opts [] l h = h
store_all-failed opts (m ∷ ms) l h =
    store_all-failed opts ms _ (store_parsed_message-failed opts m l h)

can_record_freshness-failed :
    (l : Limits) → l.persistence_failed ≡ true → can_record_freshness l ≡ false
unfolding can_record_freshness
can_record_freshness-failed l h = ground arith

-- Once a store has failed, no later message of the sync makes it record freshness.
pub store_all-not_fresh :
    (opts : SyncOptions) (ms : List Message) (l : Limits)
    → l.persistence_failed ≡ true
    → can_record_freshness (store_all opts ms l) ≡ false
store_all-not_fresh opts ms l h = can_record_freshness-failed _ (store_all-failed opts ms l h)
