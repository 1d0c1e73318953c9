-- ===== src/StorageLimits.antt =====
-- The storage limits of a running sync: internal/app/sync_limits.go, and checkSyncStorageLimits of
-- internal/app/sync.go. A limit of 0 stands for any that is not positive. The number of messages in
-- the store is state; what storing a message adds to it, the size of the database files and the errors
-- of both come with the message.
pub mod Bounds
mod Examples
use wacli.Common.{
  Result, ok, err, ltb, leb, ◌==◌, if◌then◌else◌, Bool-cases, Option-cases, ltb→lt, lt→ltb, ==_iff,
  All, All-append, All-trim_space, Text, codes, text_eq, text_eq_iff, text_eq_refl, trim_space,
  has_prefix, length, take, drop, ℕ, zero, suc, ◌+◌, ◌-◌, ◌*◌, ◌/◌, ◌%◌, ◌≤◌, ◌<◌, min, max, ◌≡◌,
  refl, sym, ap, ◌∙◌, ◌≢◌, ◌↔◌, ◌⊎◌, inl, inr, Bool, true, false, not, ◌&&◌, ◌||◌, Option, none,
  some, List, [], ◌∷◌, ◌++◌, map, reverse, arith,
}

pub record SyncOptions : Type 0 where
  max_messages : ℕ
  max_db_size : ℕ

-- Which limit was reached, what was counted and the limit; or why it could not be checked.
pub data LimitError : Type 0 where
  message_limit : ℕ → ℕ → LimitError
  size_limit : ℕ → ℕ → LimitError
  check_failed : ℕ → LimitError

pub data StoreError : Type 0 where
  limit : LimitError → StoreError
  store_failed : ℕ → StoreError

-- `syncStorageLimits`; `cancelled` tells whether its context was cancelled.
pub record Limits : Type 0 where
  error : Option LimitError
  cancelled : Bool
  persistence_failed : Bool
  app_state_pending : ℕ
  messages : ℕ

-- A message to store: the error of counting the messages and the size of the database, or the error of
-- reading it, before and after the message, how many rows it adds, and the error of the store, which adds none.
pub record Message : Type 0 where
  count_error_before : Option ℕ
  size_before : Result ℕ ℕ
  count_error_after : Option ℕ
  size_after : Result ℕ ℕ
  adds : ℕ
  error : Option ℕ

unfoldable pub check_size : SyncOptions → Result ℕ ℕ → Option LimitError
check_size opts (err e) = if ltb 0 opts.max_db_size then some (check_failed e) else none
check_size opts (ok size) =
    if ltb 0 opts.max_db_size && leb opts.max_db_size size
    then some (size_limit size opts.max_db_size)
    else none

-- `checkSyncStorageLimits`, on what CountMessages and dbDiskSize return.
unfoldable pub check_sync_storage_limits : SyncOptions → Result ℕ ℕ → Result ℕ ℕ → Option LimitError
unfolding check_size
check_sync_storage_limits opts (err e) size =
    if ltb 0 opts.max_messages then some (check_failed e) else check_size opts size
check_sync_storage_limits opts (ok count) size =
    if ltb 0 opts.max_messages && leb opts.max_messages count
    then some (message_limit count opts.max_messages)
    else check_size opts size

-- CountMessages: its error, or the rows of the table.
unfoldable pub count_messages : Option ℕ → Limits → Result ℕ ℕ
count_messages none l = ok l.messages
count_messages (some e) l = err e

-- `setErr`: the first error is kept, and cancels.
unfoldable pub kept : Option LimitError → LimitError → Limits → Limits
kept none e l = record l { error = some e; cancelled = true }
kept (some old) e l = l

unfoldable pub set_err : Option LimitError → Limits → Limits
unfolding kept
set_err none l = l
set_err (some e) l = kept l.error e l

-- `storeParsedMessage`, as far as the limits see it.
unfoldable pub stored : Message → Option ℕ → Limits → Option StoreError × Limits
stored m none l = (none, record l { messages = l.messages + m.adds })
stored m (some e) l = (some (store_failed e), record l { persistence_failed = true })

-- The check after a message that was stored: its error is set, and not returned.
unfoldable pub checked_after :
    SyncOptions → Message → Option StoreError × Limits → Option StoreError × Limits
unfolding check_sync_storage_limits count_messages set_err
checked_after opts m (some e, l) = (some e, l)
checked_after opts m (none, l) = (
  none,
  set_err (check_sync_storage_limits opts (count_messages m.count_error_after l) m.size_after) l,
)

unfoldable pub checked_before :
    SyncOptions → Message → Option LimitError → Limits → Option StoreError × Limits
unfolding checked_after stored set_err
checked_before opts m (some e) l = (some (limit e), set_err (some e) l)
checked_before opts m none l = checked_after opts m (stored m m.error l)

unfoldable pub store_parsed_message : SyncOptions → Message → Limits → Option StoreError × Limits
unfolding checked_before count_messages
store_parsed_message opts m l =
    if (opts.max_messages == 0) && (opts.max_db_size == 0)
    then stored m m.error l
    else checked_before opts m
        (check_sync_storage_limits opts (count_messages m.count_error_before l) m.size_before) l

unfoldable pub can_record_freshness : Limits → Bool
can_record_freshness l = (l.app_state_pending == 0) && not l.persistence_failed
