-- ===== src/AppState/Sequencer/Drain.antt =====
-- Draining ends, and ends with nothing left when every reserved task is ready.
use wacli.Common.{
  ℕ, zero, suc, ◌+◌, ◌-◌, ◌*◌, ◌≤◌, ◌<◌, ◌≡◌, refl, true, List, [], ◌∷◌, ◌++◌, ◌∙◌, ap, arith,
  ==_iff, ltb, if◌then◌else◌,
}
use wacli.AppState.Sequencer.{Sequencer, Drainer, at_top, in_run, is_ready, drain_step, wait_idle}
use wacli.AppState.Sequencer.System.{System, Reach, drains, later, below, Fits, Inv}
use wacli.AppState.Sequencer.Invariant.{Reach-Inv}
use wacli.AppState.Sequencer.Order.{idle_queue}

-- The drainers move, `fuel` times at most, and nobody else does.
pub drain_alone : ℕ → System → System
drain_alone zero s = s
drain_alone (suc fuel) s = elim s.drainers [
  | [] ↦ s
  | d ∷ ds ↦
      drain_alone fuel
        (record { seq = (drain_step d s.seq).1; drainers = (drain_step d s.seq).0 ++ ds })
]

-- The moves left to a drainer besides three for each ticket: hand off, check, return.
abbrev pub moves : ℕ → ℕ → List Drainer → ℕ
moves next serving [] = 0
moves next serving (at_top f ∷ ds) = 3 * (next - serving) + (if ltb f serving then 3 else 2)
moves next serving (in_run f ∷ ds) = 3 * (next - serving) + 1

abbrev pub fuel_for : System → ℕ
fuel_for s = moves s.seq.next s.seq.serving s.drainers

abbrev pub AllReady : Sequencer → Type 0
AllReady s = (c : ℕ) → s.serving ≤ c → c < s.next → is_ready (s.tasks c) ≡ true

abbrev stepped : System → Drainer → System
stepped s d = record { seq = (drain_step d s.seq).1; drainers = (drain_step d s.seq).0 ++ [] }

moves-step :
    (s : Sequencer) (d : Drainer)
    → Fits s (d ∷ [])
    → (is_ready (s.tasks s.serving) ≡ true → s.serving < s.next)
    → moves (drain_step d s).1.next (drain_step d s).1.serving ((drain_step d s).0 ++ [])
      < moves s.next s.serving (d ∷ [])
unfolding drain_step
moves-step s (at_top f) h lt = ground arith
moves-step s (in_run f) h lt = ground arith

-- A state whose drainers are written out, so that a match on them shows in it.
abbrev sys : Sequencer → List Drainer → System
sys q ds = record { seq = q; drainers = ds }

ready-lt :
    (q : Sequencer) (ds : List Drainer)
    → Inv (sys q ds)
    → is_ready (q.tasks q.serving) ≡ true
    → q.serving < q.next
ready-lt q ds inv e = ground (arith, inv.fresh q.serving)

drain_step-AllReady :
    (q : Sequencer) (d : Drainer)
    → (is_ready (q.tasks q.serving) ≡ true → q.serving < q.next)
    → AllReady q
    → AllReady (drain_step d q).1
unfolding drain_step
drain_step-AllReady q (at_top f) lt h c a b = ground (arith, h c)
drain_step-AllReady q (in_run f) lt h c a b = ground (arith, h c)

-- What draining alone leaves.
record Drained (q : Sequencer) (t : System) : Type 0 where
  reached : Reach t
  none_left : t.drainers ≡ []
  all_ready : AllReady q → AllReady t.seq
  next : t.seq.next ≡ q.next

drain_step-next : (q : Sequencer) (d : Drainer) → (drain_step d q).1.next ≡ q.next
unfolding drain_step
drain_step-next q (at_top f) = ground arith
drain_step-next q (in_run f) = refl

drain_alone-Drained :
    (fuel : ℕ) (q : Sequencer) (ds : List Drainer)
    → Reach (sys q ds)
    → moves q.next q.serving ds < fuel
    → Drained q (drain_alone fuel (sys q ds))
unfolding drain_alone
drain_alone-Drained zero q ds r lt = absurd (omega arith)
drain_alone-Drained (suc fuel) q [] r lt = record {
  reached = r;
  none_left = refl;
  all_ready = λ h. h;
  next = refl;
}
drain_alone-Drained (suc fuel) q (d ∷ e ∷ ds) r lt = absurd ((Reach-Inv r).fits)
drain_alone-Drained (suc fuel) q (d ∷ []) r lt =
    let inv = Reach-Inv r in
    let q' = (drain_step d q).1 in
    let fewer = moves-step q d inv.fits (ready-lt q (d ∷ []) inv) in
    let rest =
      drain_alone-Drained fuel q' ((drain_step d q).0 ++ []) (later r (drains [] [] d refl))
        (omega (arith, fewer)) in
    record {
      reached = rest.reached;
      none_left = rest.none_left;
      all_ready = λ h. rest.all_ready (drain_step-AllReady q d (ready-lt q (d ∷ []) inv) h);
      next = rest.next ∙ drain_step-next q d;
    }

Fits-ran : (q : Sequencer) (ds : List Drainer) → Fits q ds → ds ≡ [] → q.ran ≡ below q.serving
Fits-ran q [] h e = h.1
Fits-ran q (d ∷ ds) h e = cc

idle_ran :
    {t : System}
    → Reach t
    → t.drainers ≡ []
    → AllReady t.seq
    → (wait_idle t.seq ≡ true) × (t.seq.ran ≡ below t.seq.next)
unfolding wait_idle
idle_ran {t} r e h =
    let idle = (idle_queue r e).1 h in
    let at_end : t.seq.serving ≡ t.seq.next = (==_iff _ _).0 idle in
    (idle, Fits-ran t.seq t.drainers (Reach-Inv r).fits e ∙ ap below at_end)

-- From a reachable state in which nobody else moves, draining ends within `fuel_for s + 1` moves of
-- the drainers, in a reachable state with no drainer; and if every reserved task was ready, then
-- `waitIdle` returns and the closures of all reserved tickets have been called in order.
pub drain_alone-idle :
    {s : System} (fuel : ℕ)
    → Reach s
    → fuel_for s < fuel
    → (Reach (drain_alone fuel s))
      × ((drain_alone fuel s).drainers ≡ [])
      × (AllReady s.seq
          → (wait_idle (drain_alone fuel s).seq ≡ true)
            × ((drain_alone fuel s).seq.ran ≡ below s.seq.next))
drain_alone-idle {s} fuel r lt =
    let d = drain_alone-Drained fuel s.seq s.drainers r lt in
    (
      d.reached,
      d.none_left,
      (λ h.
          let (idle, ran) = idle_ran d.reached d.none_left (d.all_ready h) in
          (idle, ran ∙ ap below d.next)),
    )
