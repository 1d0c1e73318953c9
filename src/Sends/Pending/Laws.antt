-- ===== src/Sends/Pending/Laws.antt =====
-- The table of pending sends as a map from ids to rows.
use wacli.Common.{
  ℕ, ◌+◌, ◌≤◌, ◌<◌, ◌≡◌, ◌≢◌, refl, ◌⊎◌, inl, inr, true, false, Option, none, some, List, [], ◌∷◌,
  arith, ltb, if◌then◌else◌, Bool-cases, Option-cases, Text, text_eq, text_eq_iff, text_eq_refl,
  trim_space, ok,
}
use wacli.Sends.Pending.{
  SendState, in_flight, sent, done, PendingSend, Db, retention, find_row, purge, remove, set_state,
  begin_pending, complete_pending, mark_sent, finish_pending,
}

-- A row that is found and has not expired is found after a purge.
pub find_row-purge :
    (now : ℕ) (id : Text) (rs : List PendingSend) (r : PendingSend)
    → find_row id rs ≡ some r
    → now ≤ r.created_at + retention
    → find_row id (purge now rs) ≡ some r
unfolding find_row purge
find_row-purge now id [] r e le = cc
find_row-purge now id (x ∷ rs) r e le =
    ground (arith, find_row-purge now id rs r, text_eq_iff x.msg_id id)

pub find_row-purge-none :
    (now : ℕ) (id : Text) (rs : List PendingSend)
    → find_row id rs ≡ none
    → find_row id (purge now rs) ≡ none
unfolding find_row purge
find_row-purge-none now id [] e = refl
find_row-purge-none now id (x ∷ rs) e = ground (arith, find_row-purge-none now id rs)

pub find_row-remove :
    (id j : Text) (rs : List PendingSend)
    → find_row j (remove id rs) ≡ (if text_eq id j then none else find_row j rs)
unfolding find_row remove
find_row-remove id j [] = ground arith
find_row-remove id j (x ∷ rs) = ground (
  arith,
  find_row-remove id j rs,
  text_eq_iff id j,
  text_eq_iff x.msg_id j,
  text_eq_iff x.msg_id id,
)

-- What an update makes of a row.
abbrev pub updated : SendState → Text → Option PendingSend → Option PendingSend
updated st chat none = none
updated st chat (some r) =
    some (record r { state = st; chat_jid = if text_eq chat [] then r.chat_jid else chat })

pub find_row-set_state :
    (st : SendState) (chat id j : Text) (rs : List PendingSend)
    → find_row j (set_state st chat id rs)
      ≡ (if text_eq id j then updated st chat (find_row j rs) else find_row j rs)
unfolding find_row set_state
find_row-set_state st chat id j [] = ground arith
find_row-set_state st chat id j (x ∷ rs) = ground (
  arith,
  find_row-set_state st chat id j rs,
  text_eq_iff id j,
  text_eq_iff x.msg_id j,
  text_eq_iff x.msg_id id,
)

-- `msg_id` is a primary key.
abbrev pub IsKeyed : List PendingSend → Type 0
IsKeyed [] = Unit
IsKeyed (r ∷ rs) = (find_row r.msg_id rs ≡ none) × IsKeyed rs

IsKeyed-purge : (now : ℕ) (rs : List PendingSend) → IsKeyed rs → IsKeyed (purge now rs)
unfolding purge
IsKeyed-purge now [] h = tt
IsKeyed-purge now (r ∷ rs) (fresh, h) = elim (Bool-cases (ltb (r.created_at + retention) now)) [
  | inl old ↦ rw old (IsKeyed-purge now rs h)
  | inr new ↦ rw new (find_row-purge-none now r.msg_id rs fresh, IsKeyed-purge now rs h)
]

find_row-remove-none :
    (id j : Text) (rs : List PendingSend) → find_row j rs ≡ none → find_row j (remove id rs) ≡ none
find_row-remove-none id j rs e = ground (arith, find_row-remove id j rs)

IsKeyed-remove : (id : Text) (rs : List PendingSend) → IsKeyed rs → IsKeyed (remove id rs)
unfolding remove
IsKeyed-remove id [] h = tt
IsKeyed-remove id (r ∷ rs) (fresh, h) = elim (Bool-cases (text_eq r.msg_id id)) [
  | inl e ↦ rw e (IsKeyed-remove id rs h)
  | inr e ↦ rw e (find_row-remove-none id r.msg_id rs fresh, IsKeyed-remove id rs h)
]

msg_id-update :
    (st : SendState) (chat id : Text) (r : PendingSend)
    → (if text_eq r.msg_id id
        then record r { state = st; chat_jid = if text_eq chat [] then r.chat_jid else chat }
        else r).msg_id
      ≡ r.msg_id
msg_id-update st chat id r = ground arith

IsKeyed-set_state :
    (st : SendState) (chat id : Text) (rs : List PendingSend)
    → IsKeyed rs
    → IsKeyed (set_state st chat id rs)
unfolding set_state
IsKeyed-set_state st chat id [] h = tt
IsKeyed-set_state st chat id (r ∷ rs) (fresh, h) = (
  rw (msg_id-update st chat id r) (ground (arith, find_row-set_state st chat id r.msg_id rs)),
  IsKeyed-set_state st chat id rs h,
)

operations-IsKeyed :
    (now : ℕ) (p : PendingSend) (id chat : Text) (d : Db)
    → IsKeyed d.pending
    → IsKeyed (begin_pending now p d).1.pending
      × IsKeyed (complete_pending id chat d).pending
      × IsKeyed (mark_sent id chat d).pending
      × IsKeyed (finish_pending id d).1.pending
unfolding begin_pending complete_pending mark_sent finish_pending
operations-IsKeyed now p id chat d h = (
  elim (Bool-cases (text_eq (trim_space p.msg_id) [])) [
    | inl e ↦ rw e h
    | inr e ↦ elim (Option-cases (find_row (trim_space p.msg_id) (purge now d.pending))) [
      | inl free ↦ rw (e, free, begin_pending) (free, IsKeyed-purge now d.pending h)
      | inr (r, taken) ↦ rw (e, taken, begin_pending) (IsKeyed-purge now d.pending h)
    ]
  ],
  IsKeyed-set_state done chat (trim_space id) d.pending h,
  IsKeyed-set_state sent chat (trim_space id) d.pending h,
  IsKeyed-remove (trim_space id) d.pending h,
)

find_row-purge_expired :
    (now : ℕ) (id : Text) (rs : List PendingSend) (r : PendingSend)
    → IsKeyed rs
    → find_row id rs ≡ some r
    → r.created_at + retention < now
    → find_row id (purge now rs) ≡ none
unfolding find_row purge
find_row-purge_expired now id [] r k e lt = cc
find_row-purge_expired now id (x ∷ rs) r (fresh, k) e lt = elim (Bool-cases (text_eq x.msg_id id)) [
  | inl same ↦
      let here : x.msg_id ≡ id = (text_eq_iff _ _).0 same in
      let gone : find_row id rs ≡ none = rw here at fresh in
      ground (arith, find_row-purge-none now id rs gone)
  | inr other ↦ ground (arith, find_row-purge_expired now id rs r k)
]

-- Is the id held by a row that has not expired?
abbrev pub IsFree : ℕ → Text → List PendingSend → Type 0
IsFree now id rs =
    (find_row id rs ≡ none)
    ⊎ ((r : PendingSend) × (find_row id rs ≡ some r) × (r.created_at + retention < now))

IsFree-purge :
    (now : ℕ) (id : Text) (rs : List PendingSend)
    → IsKeyed rs
    → IsFree now id rs
    → find_row id (purge now rs) ≡ none
IsFree-purge now id rs k (inl e) = find_row-purge-none now id rs e
IsFree-purge now id rs k (inr (r, e, lt)) = find_row-purge_expired now id rs r k e lt

-- Beginning a send: a row of the id that has not expired is returned and kept, not inserted; where
-- there is none, or it has expired, a row in flight of this moment is inserted and found from then
-- on.
pub begin_pending_lem :
    (now : ℕ) (p : PendingSend) (d : Db)
    → trim_space p.msg_id ≢ []
    → IsKeyed d.pending
    → ((r : PendingSend)
        → find_row (trim_space p.msg_id) d.pending ≡ some r
        → now ≤ r.created_at + retention
        → ((begin_pending now p d).0 ≡ ok (r, false))
          × (find_row (trim_space p.msg_id) (begin_pending now p d).1.pending ≡ some r))
      × (IsFree now (trim_space p.msg_id) d.pending
          → (new : PendingSend) × ((begin_pending now p d).0 ≡ ok (new, true))
            × (new.state ≡ in_flight)
            × (new.created_at ≡ now)
            × (find_row (trim_space p.msg_id) (begin_pending now p d).1.pending ≡ some new))
unfolding begin_pending find_row
begin_pending_lem now p d named k = (
  λ r e le.
      let kept = find_row-purge now (trim_space p.msg_id) d.pending r e le in
      (
        ground (arith, kept, text_eq_iff (trim_space p.msg_id) []),
        ground (arith, kept, text_eq_iff (trim_space p.msg_id) []),
      ),
  λ free.
      let gone = IsFree-purge now (trim_space p.msg_id) d.pending k free in
      (
        record p { msg_id = trim_space p.msg_id; state = in_flight; created_at = now },
        ground (arith, gone, text_eq_iff (trim_space p.msg_id) []),
        refl,
        refl,
        ground
            (arith, gone, text_eq_iff (trim_space p.msg_id) [], text_eq_refl (trim_space p.msg_id)),
      ),
)
