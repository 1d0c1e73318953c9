-- ===== src/Polls.antt =====
-- Polls and votes of internal/store/polls.go, with the queries of internal/store/sqlc/queries.sql that it
-- names. A JSON column is the value it encodes; the moments of polls are in seconds and those of votes in
-- milliseconds; the zero moment, for which the code takes the clock, is no value here. What is purged is
-- in message_payload_purges.
pub mod Options
pub mod Votes
mod Examples
use wacli.Common.{
  Result, ok, err, ltb, leb, ◌==◌, if◌then◌else◌, Bool-cases, Option-cases, ltb→lt, lt→ltb, ==_iff,
  All, All-append, All-trim_space, Text, codes, text_eq, text_eq_iff, text_eq_refl, trim_space,
  has_prefix, length, take, drop, ℕ, zero, suc, ◌+◌, ◌-◌, ◌*◌, ◌/◌, ◌%◌, ◌≤◌, ◌<◌, min, max, ◌≡◌,
  refl, sym, ap, ◌∙◌, ◌≢◌, ◌↔◌, ◌⊎◌, inl, inr, Bool, true, false, not, ◌&&◌, ◌||◌, Option, none,
  some, List, [], ◌∷◌, ◌++◌, map, reverse, arith,
}

pub record Poll : Type 0 where
  pub chat_jid : Text
  pub msg_id : Text
  pub sender_jid : Text
  pub question : Text
  pub options : List Text
  pub selectable_count : ℕ
  pub created_at : ℕ

-- The JSON of a selection: an array, or an object with the hashes of no known option.
pub data Selection : Type 0 where
  plain : List Text → Selection
  with_unknown : List Text → List Text → Selection

pub record VoteRow : Type 0 where
  pub chat_jid : Text
  pub poll_msg_id : Text
  pub voter_jid : Text
  pub vote_msg_id : Text
  pub selection : Selection
  pub ts : ℕ

pub record PollVote : Type 0 where
  pub chat_jid : Text
  pub poll_msg_id : Text
  pub voter_jid : Text
  pub vote_msg_id : Text
  pub selected : List Text
  pub unknown_hashes : List Text
  pub voted_at : ℕ

pub record PollStore : Type 0 where
  pub polls : List Poll
  pub votes : List VoteRow
  pub purges : List (Text × Text)

unfoldable pub is_in : Text → List Text → Bool
is_in x [] = false
is_in x (y ∷ ys) = text_eq y x || is_in x ys

-- The options of `existing` that are not seen yet, each once.
unfoldable pub unseen : List Text → List Text → List Text
unfolding is_in
unseen seen [] = []
unseen seen (o ∷ os) =
    let skipped = unseen seen os in
    let added = unseen (o ∷ seen) os in if is_in o seen then skipped else o ∷ added

-- `mergePollOptions`
unfoldable pub merge_poll_options : List Text → List Text → List Text
unfolding unseen
merge_poll_options incoming existing = incoming ++ unseen incoming existing

unfoldable pub is_purged : Text → Text → List (Text × Text) → Bool
is_purged chat msg [] = false
is_purged chat msg ((c, m) ∷ rest) = (text_eq c chat && text_eq m msg) || is_purged chat msg rest

abbrev pub is_poll : Text → Text → Poll → Bool
is_poll chat msg p = text_eq p.chat_jid chat && text_eq p.msg_id msg

-- `pollOptions`; no row is none.
unfoldable pub poll_options : Text → Text → List Poll → Option (List Text)
poll_options chat msg [] = none
poll_options chat msg (p ∷ ps) =
    let others = poll_options chat msg ps in if is_poll chat msg p then some p.options else others

abbrev pub or_none : Option (List Text) → List Text
or_none none = []
or_none (some os) = os

-- INSERT … ON CONFLICT(chat_jid, msg_id) DO UPDATE of all columns.
unfoldable pub put_poll : Poll → List Poll → List Poll
put_poll p [] = p ∷ []
put_poll p (q ∷ qs) =
    let others = put_poll p qs in if is_poll p.chat_jid p.msg_id q then p ∷ qs else q ∷ others

abbrev pub is_empty_id : Text → Bool
is_empty_id s = text_eq (trim_space s) []

-- `UpsertPoll`
unfoldable pub upsert_poll : Poll → PollStore → Result Text PollStore
unfolding merge_poll_options poll_options is_purged put_poll
upsert_poll p d =
    if is_empty_id p.chat_jid || is_empty_id p.msg_id
    then err (codes "poll requires chat_jid and msg_id")
    else if is_purged p.chat_jid p.msg_id d.purges
    then ok d
    else ok (record d {
      polls =
          put_poll
            (record p {
              options =
                  merge_poll_options p.options (or_none (poll_options p.chat_jid p.msg_id d.polls));
              sender_jid = trim_space p.sender_jid;
            })
            d.polls;
    })

-- `marshalPollVoteSelection`
unfoldable pub marshal_selection : List Text → List Text → Selection
marshal_selection selected [] = plain selected
marshal_selection selected (h ∷ hs) = with_unknown selected (h ∷ hs)

-- `unmarshalPollVoteSelection`
unfoldable pub unmarshal_selection : Selection → List Text × List Text
unmarshal_selection (plain selected) = (selected, [])
unmarshal_selection (with_unknown selected hashes) = (selected, hashes)

abbrev pub is_vote : Text → Text → Text → VoteRow → Bool
is_vote chat poll voter v =
    text_eq v.chat_jid chat && text_eq v.poll_msg_id poll && text_eq v.voter_jid voter

-- INSERT … ON CONFLICT(chat_jid, poll_msg_id, voter_jid) DO UPDATE … WHERE excluded.ts >= poll_votes.ts
unfoldable pub put_vote : VoteRow → List VoteRow → List VoteRow
put_vote v [] = v ∷ []
put_vote v (x ∷ xs) =
    let others = put_vote v xs in
    if is_vote v.chat_jid v.poll_msg_id v.voter_jid x
    then (if leb x.ts v.ts then v ∷ xs else x ∷ xs)
    else x ∷ others

abbrev pub row_of : PollVote → VoteRow
row_of v = record {
  chat_jid = v.chat_jid;
  poll_msg_id = v.poll_msg_id;
  voter_jid = v.voter_jid;
  vote_msg_id = v.vote_msg_id;
  selection = marshal_selection v.selected v.unknown_hashes;
  ts = v.voted_at;
}

abbrev pub lacks_id : Text → Text → Text → Bool
lacks_id chat poll voter = is_empty_id chat || is_empty_id poll || is_empty_id voter

abbrev pub vote_ids_required : Text
vote_ids_required = codes "vote requires chat_jid, poll_msg_id, voter_jid"

-- `UpsertPollVote`
unfoldable pub upsert_poll_vote : PollVote → PollStore → Result Text PollStore
unfolding marshal_selection is_purged put_vote
upsert_poll_vote v d =
    if lacks_id v.chat_jid v.poll_msg_id v.voter_jid
    then err vote_ids_required
    else if is_purged v.chat_jid v.poll_msg_id d.purges
        || is_purged v.chat_jid v.vote_msg_id d.purges
    then ok d
    else ok (record d { votes = put_vote (row_of v) d.votes })

unfoldable pub without_votes : (VoteRow → Bool) → List VoteRow → List VoteRow
without_votes p [] = []
without_votes p (v ∷ vs) = let others = without_votes p vs in if p v then others else v ∷ others

unfoldable pub without_polls : (Poll → Bool) → List Poll → List Poll
without_polls p [] = []
without_polls p (q ∷ qs) = let others = without_polls p qs in if p q then others else q ∷ others

-- `DeletePollVote`
unfoldable pub delete_poll_vote : Text → Text → Text → ℕ → PollStore → Result Text PollStore
unfolding without_votes
delete_poll_vote chat poll voter ts d =
    if lacks_id chat poll voter
    then err vote_ids_required
    else ok
        (record d { votes = without_votes (λ v. is_vote chat poll voter v && leb v.ts ts) d.votes })

-- `DeletePoll`
unfoldable pub delete_poll : Text → Text → PollStore → PollStore
unfolding without_votes without_polls
delete_poll chat msg d = record d {
  votes = without_votes (λ v. text_eq v.chat_jid chat && text_eq v.poll_msg_id msg) d.votes;
  polls = without_polls (is_poll chat msg) d.polls;
}

-- `cleanPollFilterChatJIDs`
unfoldable pub clean_chat_jids_after : List Text → List Text → List Text
unfolding is_in
clean_chat_jids_after seen [] = []
clean_chat_jids_after seen (c ∷ cs) =
    let jid = trim_space c in
    let skipped = clean_chat_jids_after seen cs in
    let kept = clean_chat_jids_after (jid ∷ seen) cs in
    if text_eq jid [] || is_in jid seen then skipped else jid ∷ kept

unfoldable pub clean_poll_filter_chat_jids : List Text → Text → List Text
unfolding clean_chat_jids_after
clean_poll_filter_chat_jids [] chat_jid =
    if is_empty_id chat_jid then [] else clean_chat_jids_after [] (chat_jid ∷ [])
clean_poll_filter_chat_jids (c ∷ cs) chat_jid = clean_chat_jids_after [] (c ∷ cs)
