-- ===== src/Polls/Examples.antt =====
-- The polls of internal/store/polls.go: two votes of one voter.
use wacli.Common.{
  is_space, trim_left, Text, codes, trim_space, ℕ, ◌≡◌, refl, true, false, ◌||◌, List, [], ◌∷◌,
  ◌++◌, arith, false, some, ◌⊎◌, Result, ok,
}
use wacli.Polls.{
  Poll, PollVote, PollStore, is_in, unseen, merge_poll_options, is_purged, is_poll, poll_options,
  put_poll, or_none, is_empty_id, upsert_poll,
}
use wacli.Polls.Options.{IsDistinct, upsert_poll_lem}
use wacli.Polls.Votes.{
  get_vote, after_vote, is_accepted, VoteEvent, votes, deletes, apply_votes, IsSince,
  after_vote-either_order, vote_survives,
}

abbrev chat : Text
chat = codes "1@g.us"

abbrev poll : Text
poll = codes "P"

abbrev voter : Text
voter = codes "2@s.whatsapp.net"

abbrev vote_at : ℕ → Text → PollVote
vote_at t option = record {
  chat_jid = chat;
  poll_msg_id = poll;
  voter_jid = voter;
  vote_msg_id = option;
  selected = option ∷ [];
  unknown_hashes = [];
  voted_at = t;
}

abbrev empty_store : PollStore
empty_store = record { polls = []; votes = []; purges = [] }

abbrev yes_vote : PollVote
yes_vote = vote_at 10 (codes "yes")

abbrev no_vote : PollVote
no_vote = vote_at 20 (codes "no")

after_vote-either_order_example :
    get_vote chat poll voter (after_vote no_vote (after_vote yes_vote empty_store)).votes
    ≡ get_vote chat poll voter (after_vote yes_vote (after_vote no_vote empty_store)).votes
after_vote-either_order_example =
    after_vote-either_order yes_vote no_vote empty_store chat poll voter
      (λ e. absurd (omega (arith, e)))

accepted : is_accepted no_vote empty_store.purges ≡ true
unfolding is_purged trim_space trim_left is_space
accepted = refl

abbrev later : List VoteEvent
later = votes yes_vote ∷ deletes chat poll voter 15 ∷ []

vote_survives_example :
    IsSince 20 (get_vote chat poll voter (apply_votes later (after_vote no_vote empty_store)).votes)
vote_survives_example =
    vote_survives no_vote empty_store later accepted (tt, ((λ h. omega arith), tt))

abbrev poll_with : List Text → Poll
poll_with options = record {
  chat_jid = chat;
  msg_id = poll;
  sender_jid = voter;
  question = codes "When?";
  options = options;
  selectable_count = 1;
  created_at = 5;
}

abbrev stored : PollStore
stored = record empty_store { polls = poll_with (codes "mon" ∷ codes "tue" ∷ []) ∷ [] }

abbrev again : Poll
again = poll_with (codes "tue" ∷ codes "wed" ∷ [])

has_chat : is_empty_id again.chat_jid ≡ false
unfolding trim_space trim_left is_space
has_chat = refl

has_id : is_empty_id again.msg_id ≡ false
unfolding trim_space trim_left is_space
has_id = refl

abbrev after_again : Result Text PollStore
after_again = upsert_poll again stored

merges_options :
    after_again
    ≡ ok (record stored { polls = poll_with (codes "tue" ∷ codes "wed" ∷ codes "mon" ∷ []) ∷ [] })
unfolding upsert_poll merge_poll_options unseen is_in poll_options put_poll is_purged trim_space
    trim_left is_space
merges_options = refl

upsert_poll_example :
    ((is_purged chat poll stored.purges ≡ true) × (upsert_poll again stored ≡ ok stored))
    ⊎ ((d' : PollStore) × (added : List Text) × (upsert_poll again stored ≡ ok d')
        × (poll_options chat poll d'.polls ≡ some (again.options ++ added))
        × IsDistinct added
        × ((x : Text) → is_in x again.options ≡ true → is_in x added ≡ false)
        × ((x : Text)
            → is_in x (again.options ++ added)
              ≡ (is_in x again.options || is_in x (or_none (poll_options chat poll stored.polls))))
        × ((c m : Text)
            → is_poll c m again ≡ false
            → poll_options c m d'.polls ≡ poll_options c m stored.polls)
        × (d'.votes ≡ stored.votes))
upsert_poll_example = upsert_poll_lem again stored has_chat has_id
