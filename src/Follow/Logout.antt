-- ===== src/Follow/Logout.antt =====
-- That the logout signal wins: internal/app/sync_idle.go dials no dead session.
use wacli.Common.{
  leb, Bool-cases, ℕ, suc, ◌+◌, ◌≡◌, refl, inl, inr, Bool, true, false, ◌||◌, List, [], ◌∷◌, ◌++◌,
  arith,
}
use wacli.Follow.{
  Branch, context_done, stale_reconnect, disconnected, logged_out, ticked, Turn, Effect,
  emit_stopping, emit_stopping_logged_out, emit_stale, emit_reconnecting, emit_idle_exit,
  force_close, store_epoch, dial, Outcome, again, stopped, failed, stop_logged_out, prefixed,
  follow_branch, idle_branch, next, loop, run_sync_follow, run_sync_until_idle,
}

-- How many times the loop began to reconnect.
unfoldable pub dials : List Effect → ℕ
dials [] = 0
dials (dial ∷ es) = suc (dials es)
dials (emit_stopping ∷ es) = dials es
dials (emit_stopping_logged_out ∷ es) = dials es
dials (emit_stale ∷ es) = dials es
dials (emit_reconnecting ∷ es) = dials es
dials (emit_idle_exit ∷ es) = dials es
dials (force_close ∷ es) = dials es
dials (store_epoch t ∷ es) = dials es

abbrev pub IsStopped : Outcome → Type 0
IsStopped again = ⊥
IsStopped (stopped stored) = Unit
IsStopped (failed e stored) = ⊥

abbrev pub IsFailed : Outcome → Type 0
IsFailed again = ⊥
IsFailed (stopped stored) = ⊥
IsFailed (failed e stored) = Unit

-- A select that, with the signal pending, neither dials nor fails.
abbrev IsQuiet : (Bool → Turn → Branch → List Effect × Outcome) → Type 0
IsQuiet turn =
    (t : Turn) (b : Branch) → (dials (turn true t b).0 ≡ 0) × (IsFailed (turn true t b).1 → ⊥)

follow_branch-IsQuiet : (max_reconnect : ℕ) → IsQuiet (follow_branch max_reconnect)
unfolding follow_branch stop_logged_out dials
follow_branch-IsQuiet max_reconnect t context_done = (refl, λ h. h)
follow_branch-IsQuiet max_reconnect t (stale_reconnect last_success epoch race) = (refl, λ h. h)
follow_branch-IsQuiet max_reconnect t (disconnected race) = (refl, λ h. h)
follow_branch-IsQuiet max_reconnect t logged_out = (refl, λ h. h)
follow_branch-IsQuiet max_reconnect t (ticked last time) = (refl, λ h. h)

idle_branch-IsQuiet : (idle_exit max_reconnect : ℕ) → IsQuiet (idle_branch idle_exit max_reconnect)
unfolding idle_branch stop_logged_out dials
idle_branch-IsQuiet idle_exit max_reconnect t context_done = (refl, λ h. h)
idle_branch-IsQuiet idle_exit max_reconnect t (stale_reconnect last_success epoch race) =
    (refl, λ h. h)
idle_branch-IsQuiet idle_exit max_reconnect t (disconnected race) = (refl, λ h. h)
idle_branch-IsQuiet idle_exit max_reconnect t logged_out = (refl, λ h. h)
idle_branch-IsQuiet idle_exit max_reconnect t (ticked last time) =
    elim (Bool-cases (leb (last + idle_exit) time)) [
      | inl e ↦ rw e (refl, λ h. h)
      | inr e ↦ rw e (refl, λ h. h)
    ]

dials-append : (xs ys : List Effect) → dials (xs ++ ys) ≡ dials xs + dials ys
unfolding dials
dials-append [] ys = omega arith
dials-append (dial ∷ xs) ys = omega (arith, dials-append xs ys)
dials-append (emit_stopping ∷ xs) ys = dials-append xs ys
dials-append (emit_stopping_logged_out ∷ xs) ys = dials-append xs ys
dials-append (emit_stale ∷ xs) ys = dials-append xs ys
dials-append (emit_reconnecting ∷ xs) ys = dials-append xs ys
dials-append (emit_idle_exit ∷ xs) ys = dials-append xs ys
dials-append (force_close ∷ xs) ys = dials-append xs ys
dials-append (store_epoch t ∷ xs) ys = dials-append xs ys

dials-next :
    (o : Outcome) (first : List Effect) (r s : List Effect × Outcome)
    → dials r.0 ≡ dials s.0
    → dials (next o first r).0 ≡ dials (next o first s).0
unfolding next prefixed
dials-next again first r s h = omega (arith, h, dials-append first r.0, dials-append first s.0)
dials-next (stopped stored) first r s h = refl
dials-next (failed e stored) first r s h = refl

next-quiet :
    (o : Outcome) (first : List Effect) (r : List Effect × Outcome)
    → dials first ≡ 0
    → (IsFailed o → ⊥)
    → (dials r.0 ≡ 0) × (IsFailed r.1 → ⊥)
    → (dials (next o first r).0 ≡ 0) × (IsFailed (next o first r).1 → ⊥)
unfolding next prefixed
next-quiet again first r d n (e, m) = (omega (arith, dials-append first r.0), m)
next-quiet (stopped stored) first r d n m = (d, n)
next-quiet (failed e stored) first r d n m = (d, n)

or_true : (b c : Bool) → c ≡ true → (b || c) ≡ true
or_true true c h = refl
or_true false c h = h

module _ (turn : Bool → Turn → Branch → List Effect × Outcome) (quiet : IsQuiet turn) where
  loop-quiet :
      (ts : List Turn) → (dials (loop turn true ts).0 ≡ 0) × (IsFailed (loop turn true ts).1 → ⊥)
  unfolding loop dials
  loop-quiet [] = (refl, λ h. h)
  loop-quiet (t ∷ ts) = let q = quiet t t.branch in next-quiet _ _ _ q.0 q.1 (loop-quiet ts)

  loop-dials :
      (pending : Bool) (before : List Turn) (t : Turn) (after : List Turn)
      → t.arrived ≡ true
      → dials (loop turn pending (before ++ t ∷ after)).0 ≡ dials (loop turn pending before).0
  unfolding loop dials
  loop-dials pending [] t after h =
      let e : (pending || t.arrived) ≡ true = or_true pending t.arrived h in
      rw e ((loop-quiet (t ∷ after)).0)
  loop-dials pending (b ∷ before) t after h =
      let signalled = pending || b.arrived in
      let ran = turn signalled b b.branch in
      dials-next ran.1 ran.0 (loop turn signalled (before ++ t ∷ after))
        (loop turn signalled before) (loop-dials signalled before t after h)

-- Once the logout signal has arrived, a sync in follow mode begins no reconnect: a run through a turn
-- before which the signal arrives reconnects no more often than the turns before that one.
pub run_sync_follow-dials :
    (max_reconnect : ℕ) (before : List Turn) (t : Turn) (after : List Turn)
    → t.arrived ≡ true
    → dials (run_sync_follow max_reconnect false (before ++ t ∷ after)).0
      ≡ dials (run_sync_follow max_reconnect false before).0
unfolding run_sync_follow
run_sync_follow-dials max_reconnect before t after h =
    loop-dials (follow_branch max_reconnect) (follow_branch-IsQuiet max_reconnect) false before t
      after h

-- Once the logout signal has arrived, a sync until idle begins no reconnect either.
pub run_sync_until_idle-dials :
    (idle_exit max_reconnect : ℕ) (before : List Turn) (t : Turn) (after : List Turn)
    → t.arrived ≡ true
    → dials (run_sync_until_idle idle_exit max_reconnect false (before ++ t ∷ after)).0
      ≡ dials (run_sync_until_idle idle_exit max_reconnect false before).0
unfolding run_sync_until_idle
run_sync_until_idle-dials idle_exit max_reconnect before t after h =
    loop-dials (idle_branch idle_exit max_reconnect) (idle_branch-IsQuiet idle_exit max_reconnect)
      false before t after h

-- A sync that starts with the logout signal pending never fails, in either mode: it ends with its
-- messages counted, or has not ended yet.
pub logged_out-no_failure :
    (idle_exit max_reconnect : ℕ) (ts : List Turn)
    → (IsFailed (run_sync_follow max_reconnect true ts).1 → ⊥)
      × (IsFailed (run_sync_until_idle idle_exit max_reconnect true ts).1 → ⊥)
unfolding run_sync_follow run_sync_until_idle
logged_out-no_failure idle_exit max_reconnect ts = (
  (loop-quiet (follow_branch max_reconnect) (follow_branch-IsQuiet max_reconnect) ts).1,
  (loop-quiet (idle_branch idle_exit max_reconnect) (idle_branch-IsQuiet idle_exit max_reconnect)
      ts).1,
)
