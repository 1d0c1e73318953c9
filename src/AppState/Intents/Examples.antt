-- ===== src/AppState/Intents/Examples.antt =====
-- The recovery intents of internal/store/app_state.go on two collections.
use wacli.Common.{
  is_space, trim_left, ok, ltb, leb, if◌then◌else◌, Text, codes, text_eq, trim_space, ℕ, ◌≡◌, refl,
  ◌≢◌, true, false, not, ◌&&◌, List, [], ◌∷◌, arith, Bool, ◌||◌, ◌==◌, ◌<◌, All,
}
use wacli.AppState.Intents.{
  Tables, any_intent, delete_intents, clear_generation, of_collection, Intent, begin_recovery,
  recovery_required,
}
use wacli.AppState.Intents.Laws.{pending, IsWellFormed, clear_generation_lem, begin_recovery_lem}
use wacli.AppState.Intents.Durable.{Op, marks, clears_generation, run, run_durable, run_cleared}

abbrev regular : Text
regular = codes "regular"

abbrev critical : Text
critical = codes "critical"

-- Two intents of one collection and one of another.
abbrev tables : Tables
tables = record {
  seq = 3;
  intents =
      record { id = 1; collection = regular }
      ∷ record { id = 2; collection = critical }
      ∷ record { id = 3; collection = regular }
      ∷ [];
  broken = [];
}

tables-IsWellFormed : IsWellFormed tables
tables-IsWellFormed = (omega arith, (omega arith, (omega arith, tt)))

regular-named : trim_space regular ≢ []
unfolding trim_space trim_left is_space
regular-named h = cc

-- A recovery up to the first generation leaves the newer intent.
clear_first : (clear_generation regular 1 tables).0 ≡ ok false
unfolding clear_generation delete_intents any_intent trim_space trim_left is_space
clear_first = refl

clear_generation_example :
    ((clear_generation regular 1 tables).0
      ≡ ok (
          not
            (any_intent (λ r. of_collection (trim_space regular) r && ltb 1 r.id) tables.intents)))
    × ((c' : Text) (g' : ℕ)
        → pending c' g' (clear_generation regular 1 tables).1
          ≡ (if text_eq (trim_space regular) c' && leb g' 1 then false else pending c' g' tables))
clear_generation_example = clear_generation_lem regular 1 tables regular-named

begin_recovery_example :
    (required : Bool) × (recovery_required regular tables ≡ ok required)
    × ((begin_recovery regular tables).0 ≡ ok (4, required))
    × All (λ (r : Intent). r.id < 4) tables.intents
    × ((c' : Text) (g' : ℕ)
        → pending c' g' (begin_recovery regular tables).1
          ≡ (pending c' g' tables || (text_eq (trim_space regular) c' && (4 == g'))))
begin_recovery_example = begin_recovery_lem regular tables regular-named tables-IsWellFormed

abbrev ops : List Op
ops =
    marks (regular ∷ critical ∷ [])
    ∷ clears_generation critical 9
    ∷ clears_generation regular 1
    ∷ []

run_durable_example : pending regular 3 (run ops tables) ≡ true
unfolding pending any_intent trim_space trim_left is_space
run_durable_example = run_durable ops tables regular 3 refl (refl, (refl, (refl, tt)))

run_cleared_example : pending critical 1 (run ops tables) ≡ false
unfolding pending any_intent
run_cleared_example = run_cleared ops tables critical 1 (omega arith) refl
