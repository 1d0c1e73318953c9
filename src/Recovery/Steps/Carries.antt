-- ===== src/Recovery/Steps/Carries.antt =====
-- The debt of a collection through the steps of a repair: an intent that was pending stays so unless a
-- full replay or a snapshot was persisted.
use wacli.Common.{
  Result, ok, err, leb, if◌then◌else◌, Bool-cases, All, Text, text_eq, text_eq_iff, trim_space, ℕ,
  ◌+◌, ◌≤◌, ◌<◌, ◌≡◌, refl, ap, ◌∙◌, ◌≢◌, inl, inr, Bool, true, false, ◌&&◌, Option, none, some,
  List, [], ◌∷◌, arith,
}
use wacli.AppState.Intents.{Error, set_broken, clear_generation, any_intent, Intent, of_collection}
use wacli.AppState.Intents.Laws.{pending, is_intent, clear_generation_lem}
use wacli.AppState.Intents.Durable.{Op, covers, run_durable}
use wacli.Recovery.State.{
  Entry, fetched, replayed, restored, App, set_full_sync_result, load_results,
}
use wacli.Recovery.Steps.{
  FetchError, FetchAnswer, after_all, note_result, logged, entry_of, fetch_and_persist,
  clear_completed, cleared_or, Primary, refused, silent, answered, SnapshotAnswer, adopt_late,
  restored_or, on_primary, recover_mismatching, persistence_error,
}

abbrev pub is_repair : Entry → ℕ
is_repair (fetched c) = 0
is_repair (replayed c) = 1
is_repair (restored c) = 1

-- How many full replays and snapshots were persisted.
unfoldable pub repairs : List Entry → ℕ
repairs [] = 0
repairs (e ∷ es) = is_repair e + repairs es

-- None of the operations erases the generation.
abbrev pub IsQuiet : Text → ℕ → List Op → Type 0
IsQuiet c g ops = All (λ op. covers op c g ≡ false) ops

pub record Carries (c : Text) (g : ℕ) (a b : App) : Type 0 where
  pub grows : repairs a.entries ≤ repairs b.entries
  pub keeps :
      repairs b.entries ≤ repairs a.entries
      → pending c g a.tables ≡ true
      → pending c g b.tables ≡ true

cleared_or-entries :
    (k : Text) (between : List Op) (r : Result Error Bool) (b : App)
    → (cleared_or k between r b).1.entries ≡ b.entries
unfolding cleared_or
cleared_or-entries k between (err e) b = refl
cleared_or-entries k between (ok true) b = refl
cleared_or-entries k between (ok false) b = refl

-- Clearing keeps the entries.
pub clear_completed-entries :
    (k : Text) (n : ℕ) (between : List Op) (a : App)
    → (clear_completed k n between a).1.entries ≡ a.entries
unfolding clear_completed
clear_completed-entries k n between a =
    cleared_or-entries k between (clear_generation k n a.tables).0
      (record a { tables = (clear_generation k n a.tables).1 })

module _ (c : Text) (g : ℕ) where
  pub Carries-refl : (a : App) → Carries c g a a
  Carries-refl a = record { grows = omega arith; keeps = λ le h. h }

  pub Carries-trans : {a b d : App} → Carries c g a b → Carries c g b d → Carries c g a d
  Carries-trans p q = record {
    grows = omega (arith, p.grows, q.grows);
    keeps = λ le h. q.keeps (omega (arith, p.grows)) (p.keeps (omega (arith, q.grows)) h);
  }

  -- Steps that leave the entries and the intents alone.
  pub Carries-same :
      (a b : App) → a.entries ≡ b.entries → a.tables.intents ≡ b.tables.intents → Carries c g a b
  unfolding pending
  Carries-same a b e i = record { grows = rw e (omega arith); keeps = λ le h. rw (← i) h }

  pub Carries-after : (ops : List Op) (a : App) → IsQuiet c g ops → Carries c g a (after_all ops a)
  Carries-after ops a q = record {
    grows = omega arith;
    keeps = λ le h. run_durable ops a.tables c g h q;
  }

  -- A step that persisted a repair, whatever it clears.
  pub Carries-repaired : (a b : App) → repairs a.entries < repairs b.entries → Carries c g a b
  Carries-repaired a b lt = record { grows = omega arith; keeps = λ le h. absurd (omega arith) }

  pub load_results-Carries : (readable : Bool) (a : App) → Carries c g a (load_results readable a)
  unfolding load_results
  load_results-Carries readable a = Carries-same _ _ (ground arith) (ground arith)

  set_full_sync_result-Carries :
      (r w : Bool) (k : Text) (broken : Bool) (a : App)
      → Carries c g a (set_full_sync_result r w k broken a)
  unfolding set_full_sync_result load_results set_broken
  set_full_sync_result-Carries r w k broken a = Carries-same _ _ (ground arith) (ground arith)

  note_result-Carries :
      (k : Text) (o : Option FetchError) (f : FetchAnswer) (a : App)
      → Carries c g a (note_result k o f a)
  unfolding note_result
  note_result-Carries k none f a = set_full_sync_result-Carries f.readable f.writable k false a
  note_result-Carries k (some e) f a = elim (Bool-cases e.mismatching_lthash) [
    | inl y ↦ rw y (set_full_sync_result-Carries f.readable f.writable k true a)
    | inr n ↦ rw n (Carries-refl a)
  ]

  logged-Carries :
      (e : Entry) (o : Option FetchError) (p : Option ℕ) (a : App) → Carries c g a (logged e o p a)
  unfolding logged repairs
  logged-Carries e none none a = record { grows = omega arith; keeps = λ le h. h }
  logged-Carries e none (some p) a = Carries-refl a
  logged-Carries e (some f) p a = Carries-refl a

  noted-Carries :
      (full : Bool) (k : Text) (o : Option FetchError) (f : FetchAnswer) (a : App)
      → Carries c g a (if full then note_result k o f a else a)
  noted-Carries true k o f a = note_result-Carries k o f a
  noted-Carries false k o f a = Carries-refl a

  pub fetch_and_persist-Carries :
      (k : Text) (full : Bool) (f : FetchAnswer) (a : App)
      → IsQuiet c g f.meanwhile
      → Carries c g a (fetch_and_persist k full f a).1
  unfolding fetch_and_persist
  fetch_and_persist-Carries k full f a q =
      let noted : App = if full then note_result k f.error f a else a in
      let later : App = record noted { now = noted.now + f.took } in
      let p = persistence_error f.wait_error f.events in
      Carries-trans (noted-Carries full k f.error f a) (
        Carries-trans (Carries-same noted later refl refl) (
          Carries-trans (Carries-after f.meanwhile later q)
            (logged-Carries (entry_of full k) f.error p (after_all f.meanwhile later))))

  cleared_or-Carries :
      (k : Text) (between : List Op) (r : Result Error Bool) (b : App)
      → IsQuiet c g between
      → Carries c g b (cleared_or k between r b).1
  unfolding cleared_or
  cleared_or-Carries k between (err e) b q = Carries-refl b
  cleared_or-Carries k between (ok true) b q = Carries-refl b
  cleared_or-Carries k between (ok false) b q = Carries-after between b q

  -- Clearing up to a generation carries the debt of other collections, and of later generations.
  pub clear_completed-Carries :
      (k : Text) (n : ℕ) (between : List Op) (a : App)
      → trim_space k ≢ []
      → IsQuiet c g between
      → (text_eq (trim_space k) c && leb g n) ≡ false
      → Carries c g a (clear_completed k n between a).1
  unfolding clear_completed
  clear_completed-Carries k n between a named q other =
      let kept : Carries c g a (record a { tables = (clear_generation k n a.tables).1 }) = record {
        grows = omega arith;
        keeps = λ le h. ((clear_generation_lem k n a.tables named).1 c g) ∙ rw other h;
      } in
      Carries-trans kept (
        cleared_or-Carries k between (clear_generation k n a.tables).0
          (record a { tables = (clear_generation k n a.tables).1 }) q)

  restored_or-Carries :
      (k : Text) (n : ℕ) (s : SnapshotAnswer) (o : Option ℕ) (a : App)
      → Carries c g a (restored_or k n s o a).1
  unfolding restored_or
  restored_or-Carries k n s (some e) a = Carries-refl a
  restored_or-Carries k n s none a =
      let b : App = record a { entries = restored k ∷ a.entries } in
      Carries-repaired a (clear_completed k n s.between b).1
        (rw (clear_completed-entries k n s.between b) (unfold repairs in omega arith))

  adopt_late-Carries : (k : Text) (n : ℕ) (a : App) → Carries c g a (adopt_late k n a)
  unfolding adopt_late
  adopt_late-Carries k n a = Carries-same _ _ (ground arith) (ground arith)

  on_primary-Carries :
      (k : Text) (n : ℕ) (s : SnapshotAnswer) (w : Option ℕ) (p : Primary) (a : App)
      → Carries c g a (on_primary k n s w p a).1
  unfolding on_primary
  on_primary-Carries k n s (some e) (refused r) a = Carries-refl a
  on_primary-Carries k n s none (refused r) a = Carries-refl a
  on_primary-Carries k n s (some e) silent a = adopt_late-Carries k n a
  on_primary-Carries k n s none silent a = adopt_late-Carries k n a
  on_primary-Carries k n s (some e) (answered events) a = Carries-refl a
  on_primary-Carries k n s none (answered events) a = restored_or-Carries k n s _ a

  -- Asking the primary carries every debt, or a snapshot was persisted.
  pub recover_mismatching-Carries :
      (k : Text) (n : ℕ) (s : SnapshotAnswer) (a : App)
      → IsQuiet c g s.meanwhile
      → Carries c g a (recover_mismatching k n s a).1
  unfolding recover_mismatching
  recover_mismatching-Carries k n s a q =
      let later : App = record a { now = a.now + s.took } in
      Carries-trans (Carries-same a later refl refl) (
        Carries-trans (Carries-after s.meanwhile later q)
          (on_primary-Carries k n s s.wait_error s.primary (after_all s.meanwhile later)))

logged-repaired :
    (k : Text) (o : Option FetchError) (p : Option ℕ) (a : App)
    → o ≡ none
    → p ≡ none
    → repairs a.entries < repairs (logged (replayed k) o p a).entries
unfolding logged repairs
logged-repaired k none none a h e = omega arith
logged-repaired k none (some p) a h e = cc
logged-repaired k (some f) p a h e = cc

note_result-entries :
    (k : Text) (o : Option FetchError) (f : FetchAnswer) (a : App)
    → (note_result k o f a).entries ≡ a.entries
unfolding note_result set_full_sync_result load_results
note_result-entries k none f a = ground arith
note_result-entries k (some e) f a = ground arith

-- A full replay that was fetched and persisted is entered.
pub fetch_and_persist-repaired :
    (k : Text) (f : FetchAnswer) (a : App)
    → (fetch_and_persist k true f a).0.0 ≡ none
    → (fetch_and_persist k true f a).0.1 ≡ none
    → repairs a.entries < repairs (fetch_and_persist k true f a).1.entries
unfolding fetch_and_persist
fetch_and_persist-repaired k f a h e =
    let noted : App = note_result k f.error f a in
    let done : App = after_all f.meanwhile (record noted { now = noted.now + f.took }) in
    let lt = logged-repaired k f.error (persistence_error f.wait_error f.events) done h e in
    omega (arith, lt, ap repairs (note_result-entries k f.error f a))

-- A collection with an intent is one that must be recovered.
pub pending-of_collection :
    (c k : Text) (g : ℕ) (rs : List Intent)
    → any_intent (is_intent c g) rs ≡ true
    → text_eq k c ≡ true
    → any_intent (of_collection k) rs ≡ true
unfolding any_intent
pending-of_collection c k g [] e same = cc
pending-of_collection c k g (r ∷ rs) e same = ground (
  arith,
  pending-of_collection c k g rs,
  text_eq_iff k c,
  text_eq_iff r.collection c,
  text_eq_iff r.collection k,
)
