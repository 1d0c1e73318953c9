-- ===== src/StorageLimits/Examples.antt =====
-- Three messages against a limit of two, after internal/app/sync_limits.go.
use wacli.Common.{ok, ◌≡◌, refl, Bool, true, false, none, [], ◌∷◌}
use wacli.StorageLimits.{
  SyncOptions, Limits, Message, store_parsed_message, checked_before, checked_after, stored,
  check_sync_storage_limits, check_size, count_messages, set_err, kept,
}
use wacli.StorageLimits.Bounds.{store_all}

abbrev two : SyncOptions
two = record { max_messages = 2; max_db_size = 0 }

abbrev fresh : Bool → Limits
fresh failed = record {
  error = none;
  cancelled = false;
  persistence_failed = failed;
  app_state_pending = 0;
  messages = 0;
}

abbrev message : Message
message = record {
  count_error_before = none;
  size_before = ok 0;
  count_error_after = none;
  size_after = ok 0;
  adds = 1;
  error = none;
}

-- The second message reaches the limit, and cancels.
cancels : (store_all two (message ∷ message ∷ []) (fresh false)).cancelled ≡ true
unfolding store_all store_parsed_message checked_before checked_after stored
    check_sync_storage_limits count_messages check_size set_err kept
cancels = refl
