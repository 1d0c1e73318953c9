-- ===== src/Resolve.antt =====
-- A recipient typed by hand, resolved against contacts, groups and chats: internal/resolve/resolve.go.
-- Text is the list of its code points. `lower` stands for strings.ToLower, and the three lists for what
-- the source of candidates (the store) returns.
pub mod Phone
pub mod Ranking
pub mod Order
mod Examples
use wacli.Common.{
  ltb, leb, ◌==◌, if◌then◌else◌, Bool-cases, Option-cases, ltb→lt, lt→ltb, ==_iff, All, All-append,
  All-trim_space, is_space, Result, ok, err, Text, codes, text_eq, text_eq_iff, text_eq_refl,
  trim_space, has_prefix, length, take, drop, ℕ, zero, suc, ◌+◌, ◌-◌, ◌*◌, ◌/◌, ◌%◌, ◌≤◌, ◌<◌, min,
  max, ◌≡◌, refl, sym, ap, ◌∙◌, ◌≢◌, ◌↔◌, ◌⊎◌, inl, inr, Bool, true, false, not, ◌&&◌, ◌||◌, Option,
  none, some, List, [], ◌∷◌, ◌++◌, map, reverse, arith,
}

pub data Kind : Type 0 where
  contact : Kind
  group : Kind
  chat : Kind

abbrev pub score_exact : ℕ
score_exact = 100

abbrev pub score_prefix : ℕ
score_prefix = 60

abbrev pub score_word_start : ℕ
score_word_start = 30

abbrev pub score_substring : ℕ
score_substring = 10

pub record Candidate : Type 0 where
  jid : Text
  name : Text
  detail : Text
  kind : Kind
  score : ℕ

pub record Contact : Type 0 where
  jid : Text
  phone : Text
  name : Text
  alias : Text

pub record Group : Type 0 where
  jid : Text
  name : Text

pub record Chat : Type 0 where
  jid : Text
  kind : Text
  name : Text

unfoldable pub is_digit : ℕ → Bool
is_digit r = leb 48 r && leb r 57

-- The rest of LooksLikePhone's loop after its first character.
unfoldable pub phone_chars : Bool → Bool → Text → Bool
unfolding is_digit
phone_chars first has_digit [] = has_digit
phone_chars first has_digit (r ∷ s) = elim (is_digit r) [
  | true ↦ phone_chars false true s
  | false ↦
      ((first && (r == 43)) || (r == 32) || (r == 45) || (r == 40) || (r == 41) || (r == 46))
      && phone_chars false has_digit s
]

unfoldable pub contains : Text → Text → Bool
contains [] q = has_prefix [] q
contains (c ∷ s) q = has_prefix (c ∷ s) q || contains s q

unfoldable pub looks_like_phone : Text → Bool
unfolding contains phone_chars
looks_like_phone input =
    let s = trim_space input in
    if text_eq s [] || contains s (codes "@") then false else phone_chars true false s

unfoldable pub digits : Text → Text
unfolding is_digit
digits [] = []
digits (r ∷ s) = let rest = digits s in if is_digit r then r ∷ rest else rest

unfoldable pub normalize_phone : Text → Text
unfolding digits
normalize_phone input = digits (trim_space input)

unfoldable pub kind_rank : Kind → ℕ
kind_rank contact = 0
kind_rank group = 1
kind_rank chat = 2

unfoldable pub should_replace : Candidate → Candidate → Bool
unfolding kind_rank
should_replace old new =
    if not (new.score == old.score)
    then ltb old.score new.score
    else ltb (kind_rank new.kind) (kind_rank old.kind)

-- The first of the trimmed texts that is not empty.
unfoldable pub pick_contact_name : Contact → Text
pick_contact_name c =
    if not (text_eq (trim_space c.alias) [])
    then trim_space c.alias
    else if not (text_eq (trim_space c.name) [])
    then trim_space c.name
    else trim_space c.phone

-- `add`'s map of the JIDs seen is the first candidate of the list with the JID.
unfoldable pub replace_or_append : Candidate → List Candidate → List Candidate
unfolding should_replace
replace_or_append c [] = c ∷ []
replace_or_append c (old ∷ out) =
    let rest = replace_or_append c out in
    if text_eq old.jid c.jid
    then (if should_replace old c then c ∷ out else old ∷ out)
    else old ∷ rest

unfoldable pub add : Candidate → List Candidate → List Candidate
unfolding replace_or_append
add c out = if text_eq (trim_space c.jid) [] || (c.score == 0) then out else replace_or_append c out

unfoldable pub add_all : List Candidate → List Candidate → List Candidate
unfolding add
add_all [] out = out
add_all (c ∷ cs) out = add_all cs (add c out)

-- Whether a word starts with the prefix: no space of the text is part of it.
unfoldable pub word_has_prefix : Text → Text → Bool
word_has_prefix t [] = true
word_has_prefix [] (d ∷ p) = false
word_has_prefix (e ∷ t) (d ∷ p) = not (is_space e) && (e == d) && word_has_prefix t p

-- Whether a word of the text starts with the prefix, the words being those of `strings.FieldsSeq`:
-- `inside` tells whether the character before is part of a word.
unfoldable pub word_prefix : Bool → Text → Text → Bool
unfolding word_has_prefix
word_prefix inside [] q = false
word_prefix inside (c ∷ s) q = elim (is_space c) [
  | true ↦ word_prefix false s q
  | false ↦ (not inside && word_has_prefix (c ∷ s) q) || word_prefix true s q
]

unfoldable pub score_of : Text → Text → ℕ
unfolding word_prefix contains
score_of h q =
    if text_eq h q
    then score_exact
    else if has_prefix h q
    then score_prefix
    else if word_prefix false h q
    then score_word_start
    else if contains h q
    then score_substring
    else 0

-- Byte order, which on UTF-8 is the order of the code points.
unfoldable pub text_lt : Text → Text → Bool
text_lt s [] = false
text_lt [] (d ∷ t) = true
text_lt (c ∷ s) (d ∷ t) = ltb c d || ((c == d) && text_lt s t)

pub data Error : Type 0 where
  recipient_required : Error
  search_contacts : ℕ → Error
  list_groups : ℕ → Error
  list_chats : ℕ → Error

module _ (lower : Text → Text) (equal_fold : Text → Text → Bool) where
  -- The best score of the texts that are not blank.
  unfoldable pub best : Text → List Text → ℕ
  unfolding score_of
  best q [] = 0
  best q (h ∷ hs) =
      let rest = best q hs in
      let text = lower (trim_space h) in
      if text_eq text [] then rest else max (score_of text q) rest

  unfoldable pub rank : Text → List Text → ℕ
  unfolding best
  rank query haystacks =
      let q = lower (trim_space query) in if text_eq q [] then 0 else best q haystacks

  unfoldable pub contact_candidate : Text → Contact → Candidate
  unfolding rank pick_contact_name contains
  contact_candidate q c =
      let score = rank q (c.name ∷ c.alias ∷ c.phone ∷ []) in
      record {
        jid = c.jid;
        name = pick_contact_name c;
        detail = c.phone;
        kind = contact;
        score =
            if (score == 0) && not (contains (lower c.jid) (lower q))
            then score_substring
            else score;
      }

  unfoldable pub group_candidate : Text → Group → Candidate
  unfolding rank
  group_candidate q g = record {
    jid = g.jid;
    name = g.name;
    detail = codes "group";
    kind = group;
    score = rank q (g.name ∷ []);
  }

  unfoldable pub chat_candidate : Text → Chat → Candidate
  unfolding rank
  chat_candidate q c = record {
    jid = c.jid;
    name = c.name;
    detail = c.kind;
    kind = chat;
    score = rank q (c.name ∷ []);
  }

  unfoldable pub before : Candidate → Candidate → Bool
  unfolding kind_rank text_lt
  before a b =
      if not (a.score == b.score)
      then ltb b.score a.score
      else if not (kind_rank a.kind == kind_rank b.kind)
      then ltb (kind_rank a.kind) (kind_rank b.kind)
      else if not (equal_fold a.name b.name)
      then text_lt (lower a.name) (lower b.name)
      else text_lt a.jid b.jid

  -- `sort.SliceStable`: one goes before the first that does not come strictly before it.
  unfoldable pub insert : Candidate → List Candidate → List Candidate
  unfolding before
  insert c [] = c ∷ []
  insert c (d ∷ ds) = let rest = insert c ds in if before d c then d ∷ rest else c ∷ d ∷ ds

  unfoldable pub sort_stable : List Candidate → List Candidate
  unfolding insert
  sort_stable [] = []
  sort_stable (c ∷ cs) = insert c (sort_stable cs)

  unfoldable pub candidates : Text → List Contact → List Group → List Chat → List Candidate
  unfolding contact_candidate group_candidate chat_candidate add_all
  candidates q contacts groups chats =
      add_all (map (chat_candidate q) chats)
        (add_all (map (group_candidate q) groups) (add_all (map (contact_candidate q) contacts) []))

  -- Resolve from its first search on: an error of a search ends it before the next.
  unfoldable pub listed :
      ℕ
      → Text
      → Result ℕ (List Contact)
      → Result ℕ (List Group)
      → Result ℕ (List Chat)
      → Result Error (List Candidate)
  unfolding candidates sort_stable
  listed bound q (err e) groups chats = err (search_contacts e)
  listed bound q (ok contacts) (err e) chats = err (list_groups e)
  listed bound q (ok contacts) (ok groups) (err e) = err (list_chats e)
  listed bound q (ok contacts) (ok groups) (ok chats) =
      ok (take bound (sort_stable (candidates q contacts groups chats)))

  -- Resolve, with what the three searches return for the trimmed query; a limit of 0 stands for any
  -- limit that is not positive.
  unfoldable pub resolve :
      (Text → Result ℕ (List Contact))
      → (Text → Result ℕ (List Group))
      → (Text → Result ℕ (List Chat))
      → Text
      → ℕ
      → Result Error (List Candidate)
  unfolding listed
  resolve contacts_of groups_of chats_of input limit =
      let q = trim_space input in
      let bound = if limit == 0 then 10 else limit in
      if text_eq q []
      then err recipient_required
      else listed bound q (contacts_of q) (groups_of q) (chats_of q)
