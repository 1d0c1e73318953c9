-- ===== src/Recovery/Capture/Laws.antt =====
-- A capture hands on exactly the snapshot, and never leaves a ticket behind.
use wacli.Common.{
  if◌then◌else◌, Bool-cases, ==_iff, Text, text_eq, ℕ, ◌≡◌, refl, sym, ap, ◌∙◌, inl, inr, Bool,
  true, false, ◌&&◌, Option, none, some, List, [], ◌∷◌, ◌++◌, arith,
}
use wacli.Recovery.Capture.{
  Event, sync_complete, mutation, Completion, Capture, new_capture, contains, finish_capture,
  handle, handle_all, without_ticket, release_completion, stop, waited, events_of, timed_out,
  take_answer, wait_for_primary, Wake, superseded, stopped, too_late, completes, run_late,
}

-- The snapshot in a stream of events: those of the collection before the first end of its recovery.
unfoldable pub snapshot_after : Text → List ℕ → List Event → Option (List ℕ)
unfolding contains
snapshot_after c seen [] = none
snapshot_after c seen (sync_complete none ∷ es) = snapshot_after c seen es
snapshot_after c seen (sync_complete (some (recovery, name)) ∷ es) =
    let rest = snapshot_after c seen es in if recovery && text_eq name c then some seen else rest
snapshot_after c seen (mutation collections id ∷ es) =
    let kept = snapshot_after c (seen ++ id ∷ []) es in
    let rest = snapshot_after c seen es in if contains c collections then kept else rest

abbrev pub events_in : Option Completion → Option (List ℕ)
events_in none = none
events_in (some d) = some d.events

-- The tickets of a capture that are open are the one of the completion nobody took.
abbrev pub IsBalanced : Capture → Type 0
IsBalanced c = c.open_tickets ≡ elim c.completed [ none ↦ [] | some d ↦ d.ticket ∷ [] ]

-- … and there is no completion before the end.
record IsRunning (c : Capture) : Type 0 where
  unfinished : c.finished ≡ false
  empty : c.completed ≡ none
  owed : c.open_tickets ≡ []

handle-finished : (e : Event) (c : Capture) → c.finished ≡ true → handle e c ≡ c
unfolding handle
handle-finished (sync_complete none) c h = refl
handle-finished (sync_complete (some (r, name))) c h = ground arith
handle-finished (mutation cs id) c h = ground arith

handle_all-finished : (es : List Event) (c : Capture) → c.finished ≡ true → handle_all es c ≡ c
unfolding handle_all
handle_all-finished [] c h = refl
handle_all-finished (e ∷ es) c h =
    ap (handle_all es) (handle-finished e c h) ∙ handle_all-finished es c h

handle-ends :
    (r : Bool) (name : Text) (c : Capture)
    → c.finished ≡ false
    → handle (sync_complete (some (r, name))) c
      ≡ (if r && text_eq name c.collection then finish_capture c else c)
unfolding handle
handle-ends r name c h = ground arith

handle-mutates :
    (cs : List Text) (id : ℕ) (c : Capture)
    → c.finished ≡ false
    → handle (mutation cs id) c
      ≡ (if contains c.collection cs then record c { captured = c.captured ++ id ∷ [] } else c)
unfolding handle
handle-mutates cs id c h = ground arith

-- What a capture that is running comes to: the snapshot, and the tickets that go with it.
record Comes (collection : Text) (seen : List ℕ) (es : List Event) (c : Capture) : Type 0 where
  is_snapshot : events_in c.completed ≡ snapshot_after collection seen es
  balanced : IsBalanced c

IsRunning-Comes :
    (es : List Event) (c : Capture)
    → IsRunning c
    → Comes c.collection c.captured es (handle_all es c)
unfolding handle_all snapshot_after
IsRunning-Comes [] c h = record {
  is_snapshot = rw h.empty refl;
  balanced = rw (h.owed, h.empty) refl;
}
IsRunning-Comes (sync_complete none ∷ es) c h =
    let later = IsRunning-Comes es c h in
    unfold handle in record { is_snapshot = later.is_snapshot; balanced = later.balanced }
IsRunning-Comes (sync_complete (some (r, name)) ∷ es) c h =
    rw (handle-ends r name c h.unfinished) (elim (Bool-cases (r && text_eq name c.collection)) [
      | inl y ↦
          rw (y, handle_all-finished es (finish_capture c) (unfold finish_capture in refl))
            (unfold finish_capture in record { is_snapshot = rw y refl; balanced = rw h.owed refl })
      | inr n ↦
          let later = IsRunning-Comes es c h in
          rw n (record { is_snapshot = rw n later.is_snapshot; balanced = later.balanced })
    ])
IsRunning-Comes (mutation cs id ∷ es) c h =
    rw (handle-mutates cs id c h.unfinished) (elim (Bool-cases (contains c.collection cs)) [
      | inl y ↦
          let more : Capture = record c { captured = c.captured ++ id ∷ [] } in
          let later =
            IsRunning-Comes es more
              (record { unfinished = h.unfinished; empty = h.empty; owed = h.owed }) in
          rw y (record { is_snapshot = rw y later.is_snapshot; balanced = later.balanced })
      | inr n ↦
          let later = IsRunning-Comes es c h in
          rw n (record { is_snapshot = rw n later.is_snapshot; balanced = later.balanced })
    ])

handle_all-append :
    (es more : List Event) (c : Capture)
    → handle_all more (handle_all es c) ≡ handle_all (es ++ more) c
unfolding handle_all
handle_all-append [] more c = refl
handle_all-append (e ∷ es) more c = handle_all-append es more (handle e c)

new_capture-Comes :
    (collection : Text) (next : ℕ) (es : List Event)
    → Comes collection [] es (handle_all es (new_capture collection next))
new_capture-Comes collection next es =
    IsRunning-Comes es (new_capture collection next)
      (record { unfinished = refl; empty = refl; owed = refl })

abbrev tickets_of : Option Completion → List ℕ
tickets_of none = []
tickets_of (some d) = d.ticket ∷ []

own_ticket : (t : ℕ) (xs : List ℕ) → xs ≡ t ∷ [] → without_ticket t xs ≡ []
unfolding without_ticket
own_ticket t xs h = rw h (ground (arith, ==_iff t t))

release_completion-open :
    (o : Option Completion) (c : Capture)
    → c.open_tickets ≡ tickets_of o
    → (release_completion o c).open_tickets ≡ []
unfolding release_completion
release_completion-open none c h = h
release_completion-open (some d) c h = own_ticket d.ticket c.open_tickets h

Balanced-tickets :
    (o : Option Completion) → (elim o [ none ↦ [] | some d ↦ d.ticket ∷ [] ]) ≡ tickets_of o
Balanced-tickets none = refl
Balanced-tickets (some d) = refl

stop-open : (c : Capture) → IsBalanced c → (stop c).open_tickets ≡ []
unfolding stop
stop-open c h =
    release_completion-open c.completed (record c { finished = true })
      (h ∙ Balanced-tickets c.completed)

run_late-open :
    (wake : Wake) (o : Option Completion) (c : Capture)
    → c.completed ≡ o
    → IsBalanced c
    → ((run_late wake o c).1.open_tickets ≡ [])
      × ((xs : List ℕ) → (run_late wake o c).0 ≡ some xs → events_in o ≡ some xs)
unfolding run_late stop release_completion
run_late-open completes none c same h =
    (h ∙ Balanced-tickets c.completed ∙ ap tickets_of same, λ xs e. e)
run_late-open completes (some d) c same h = (
  own_ticket d.ticket c.open_tickets (h ∙ Balanced-tickets c.completed ∙ ap tickets_of same),
  λ xs e. e,
)
run_late-open superseded o c same h = (stop-open c h, λ xs e. absurd cc)
run_late-open stopped o c same h = (stop-open c h, λ xs e. absurd cc)
run_late-open too_late o c same h = (stop-open c h, λ xs e. absurd cc)

take_answer-late :
    (b : Bool) (o : Option Completion) (c : Capture)
    → (take_answer b o c).0 ≡ timed_out
    → (take_answer b o c).1 ≡ c
unfolding take_answer
take_answer-late b none c h = refl
take_answer-late true (some d) c h = refl
take_answer-late false (some d) c h = absurd cc

take_answer-timely :
    (b : Bool) (o : Option Completion) (c : Capture) (xs : List ℕ)
    → c.completed ≡ o
    → IsBalanced c
    → (take_answer b o c).0 ≡ events_of xs
    → (events_in o ≡ some xs) × ((take_answer b o c).1.open_tickets ≡ [])
unfolding take_answer stop release_completion
take_answer-timely b none c xs same h e = absurd cc
take_answer-timely true (some d) c xs same h e = absurd cc
take_answer-timely false (some d) c xs same h e =
    (cc, own_ticket d.ticket c.open_tickets (h ∙ Balanced-tickets c.completed ∙ ap tickets_of same))

-- When the primary answers in time, the events handed on are exactly the snapshot: those of the collection
-- before the end of its recovery, in their order. The ticket reserved for them is completed.
pub wait_for_primary-timely :
    (collection : Text) (next : ℕ) (es : List Event) (context_first : Bool) (xs : List ℕ)
    → (wait_for_primary (waited es context_first) (new_capture collection next)).0 ≡ events_of xs
    → (snapshot_after collection [] es ≡ some xs)
      × ((wait_for_primary (waited es context_first) (new_capture collection next)).1.open_tickets
          ≡ [])
unfolding wait_for_primary
wait_for_primary-timely collection next es context_first xs answered =
    let later = handle_all es (new_capture collection next) in
    let comes = new_capture-Comes collection next es in
    let (events, released) =
      take_answer-timely context_first later.completed later xs refl comes.balanced answered in
    (sym comes.is_snapshot ∙ events, released)

-- When the wait for the primary's answer ends without it, the continuation that takes over after `more`
-- events persists exactly the snapshot of the whole stream, or nothing; whatever wakes it, no ticket of
-- the capture stays open.
pub run_late-snapshot :
    (collection : Text) (next : ℕ) (es more : List Event) (context_first : Bool) (wake : Wake)
    → (wait_for_primary (waited es context_first) (new_capture collection next)).0 ≡ timed_out
    → let later =
        handle_all more
          (wait_for_primary (waited es context_first) (new_capture collection next)).1 in
      let late = run_late wake later.completed later in
      (late.1.open_tickets ≡ [])
      × ((xs : List ℕ) → late.0 ≡ some xs → snapshot_after collection [] (es ++ more) ≡ some xs)
unfolding wait_for_primary
run_late-snapshot collection next es more context_first wake timeout =
    let first = handle_all es (new_capture collection next) in
    let same : handle_all more (take_answer context_first first.completed first).1
        ≡ handle_all (es ++ more) (new_capture collection next) =
      ap (handle_all more) (take_answer-late context_first first.completed first timeout)
      ∙ handle_all-append es more (new_capture collection next) in
    let later = handle_all (es ++ more) (new_capture collection next) in
    let comes = new_capture-Comes collection next (es ++ more) in
    let (released, events) = run_late-open wake later.completed later refl comes.balanced in
    rw same (released, λ xs e. sym comes.is_snapshot ∙ events xs e)
