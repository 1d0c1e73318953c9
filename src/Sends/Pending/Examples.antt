-- ===== src/Sends/Pending/Examples.antt =====
-- The table of internal/store/pending_sends.go with one row that is an hour old.
use wacli.Common.{
  is_space, trim_left, ok, codes, trim_space, ◌+◌, ◌≤◌, ◌≡◌, refl, ◌≢◌, true, false, some, [], ◌∷◌,
}
use wacli.Sends.Pending.{in_flight, PendingSend, Db, retention, find_row, purge, begin_pending}
use wacli.Sends.Pending.Laws.{IsKeyed, IsFree, begin_pending_lem}

abbrev row : PendingSend
row = record {
  msg_id = codes "A1";
  chat_jid = codes "chat";
  typed_to = codes "chat";
  kind = codes "text";
  content_hash = codes "h";
  state = in_flight;
  created_at = 1000;
}

abbrev db : Db
db = record { pending = row ∷ []; messages = [] }

row-named : trim_space row.msg_id ≢ []
unfolding trim_space trim_left is_space
row-named h = cc

db-IsKeyed : IsKeyed db.pending
unfolding find_row
db-IsKeyed = (refl, tt)

-- A second begin of the id finds the first's row.
begin_again : (begin_pending 4600 row db).0 ≡ ok (row, false)
unfolding begin_pending find_row purge trim_space trim_left is_space
begin_again = refl

begin_pending_example :
    ((r : PendingSend)
      → find_row (trim_space row.msg_id) db.pending ≡ some r
      → 4600 ≤ r.created_at + retention
      → ((begin_pending 4600 row db).0 ≡ ok (r, false))
        × (find_row (trim_space row.msg_id) (begin_pending 4600 row db).1.pending ≡ some r))
    × (IsFree 4600 (trim_space row.msg_id) db.pending
        → (new : PendingSend) × ((begin_pending 4600 row db).0 ≡ ok (new, true))
          × (new.state ≡ in_flight)
          × (new.created_at ≡ 4600)
          × (find_row (trim_space row.msg_id) (begin_pending 4600 row db).1.pending ≡ some new))
begin_pending_example = begin_pending_lem 4600 row db row-named db-IsKeyed
