-- ===== src/Recovery/State/Laws.antt =====
-- The flag of a collection whose full sync does not verify outlives the process.
use wacli.Common.{
  if◌then◌else◌, Bool-cases, Text, text_eq, text_eq_iff, trim_space, ℕ, ◌≡◌, refl, sym, ap, ◌∙◌,
  ◌≢◌, inl, inr, Bool, true, false, none, List, [], ◌∷◌, arith,
}
use wacli.AppState.Intents.{Tables, without, set_broken}
use wacli.Recovery.State.{
  App, is_marked, load_results, bool_eq, set_full_sync_result, is_full_sync_broken,
}

-- A process that starts on the tables of another.
unfoldable pub restarted : Tables → App
restarted d = record {
  tables = d;
  flags = λ c. false;
  loaded = false;
  requested = λ c. none;
  late = λ c. none;
  closing = false;
  now = 0;
  entries = [];
}

is_marked-without :
    (c k : Text) (rows : List (Text × ℕ))
    → is_marked c (without k rows) ≡ (if text_eq k c then false else is_marked c rows)
unfolding is_marked without
is_marked-without c k [] = ground arith
is_marked-without c k ((j, t) ∷ rest) =
    ground (arith, is_marked-without c k rest, text_eq_iff j k, text_eq_iff k c, text_eq_iff j c)

-- The flags in memory say what the table says.
pub record IsMirrored (a : App) : Type 0 where
  pub loaded : a.loaded ≡ true
  pub same : (c : Text) → a.flags c ≡ is_marked c a.tables.broken

pub load_results-IsMirrored : (d : Tables) → IsMirrored (load_results true (restarted d))
unfolding load_results restarted
load_results-IsMirrored d = record { loaded = refl; same = λ c. ground arith }

load_results-loaded : (readable : Bool) (a : App) → a.loaded ≡ true → load_results readable a ≡ a
unfolding load_results
load_results-loaded readable a h = rw h

set_broken-marked :
    (now : ℕ) (c : Text) (broken : Bool) (d : Tables) (k : Text)
    → c ≢ []
    → trim_space c ≡ c
    → is_marked k (set_broken now c broken d).1.broken
      ≡ (if text_eq c k then broken else is_marked k d.broken)
unfolding set_broken is_marked
set_broken-marked now c true d k named trimmed =
    rw trimmed (ground (arith, text_eq_iff c [], is_marked-without k c d.broken))
set_broken-marked now c false d k named trimmed =
    rw trimmed (ground (arith, text_eq_iff c [], is_marked-without k c d.broken))

bool_eq-eq : (b c : Bool) → bool_eq b c ≡ true → b ≡ c
unfolding bool_eq
bool_eq-eq true c h = sym h
bool_eq-eq false false h = refl
bool_eq-eq false true h = cc

pub set_full_sync_result-IsMirrored :
    (c : Text) (broken : Bool) (a : App)
    → c ≢ []
    → trim_space c ≡ c
    → IsMirrored a
    → IsMirrored (set_full_sync_result true true c broken a)
unfolding set_full_sync_result
set_full_sync_result-IsMirrored c broken a named trimmed m =
    rw (load_results-loaded true a m.loaded) (elim (Bool-cases (bool_eq (a.flags c) broken)) [
      | inl e ↦
          let same : a.flags c ≡ broken = bool_eq-eq (a.flags c) broken e in
          rw e (record {
            loaded = m.loaded;
            same = λ k. ground (arith, m.same k, text_eq_iff c k, ap (λ (t : Text). a.flags t));
          })
      | inr e ↦ rw e (record {
        loaded = m.loaded;
        same = λ k.
            ground (arith, m.same k, set_broken-marked a.now c broken a.tables k named trimmed);
      })
    ])

load_results-tables : (d : Tables) → (load_results true (restarted d)).tables ≡ d
unfolding load_results restarted
load_results-tables d = refl

set-flags :
    (c : Text) (broken : Bool) (a : App) (k : Text)
    → a.loaded ≡ true
    → (set_full_sync_result true true c broken a).flags k
      ≡ (if text_eq c k then broken else a.flags k)
unfolding set_full_sync_result
set-flags c broken a k h = rw (load_results-loaded true a h) (ground arith)

-- With the table readable and writable, and the flags of the old process loaded and equal to those of
-- the table (no write of them has failed before), a process that starts after the result of a full sync
-- was recorded for a named, trimmed collection finds that result for it, and for every other collection
-- what the old process held.
pub flag_survives :
    (c : Text) (broken : Bool) (a : App) (k : Text)
    → c ≢ []
    → trim_space c ≡ c
    → IsMirrored a
    → (is_full_sync_broken true k (restarted (set_full_sync_result true true c broken a).tables)).0
      ≡ (if text_eq c k then broken else a.flags k)
unfolding is_full_sync_broken
flag_survives c broken a k named trimmed m =
    let b : App = set_full_sync_result true true c broken a in
    let kept = (set_full_sync_result-IsMirrored c broken a named trimmed m).same k in
    let new = (load_results-IsMirrored b.tables).same k in
    new
    ∙ ap (λ (d : Tables). is_marked k d.broken) (load_results-tables b.tables)
    ∙ sym kept
    ∙ set-flags c broken a k m.loaded
