-- ===== src/Polls/Votes.antt =====
-- Which vote of a voter is stored, whatever the order in which votes arrive.
use wacli.Common.{
  Result, ok, err, leb, if◌then◌else◌, Bool-cases, All, Text, text_eq, text_eq_iff, text_eq_refl, ℕ,
  ◌≤◌, ◌<◌, ◌≡◌, refl, sym, ap, ◌∙◌, ◌≢◌, inl, inr, Bool, true, false, not, ◌&&◌, ◌||◌, Option,
  none, some, List, [], ◌∷◌, arith,
}
use wacli.Polls.{
  VoteRow, PollVote, PollStore, is_purged, is_vote, put_vote, row_of, lacks_id, upsert_poll_vote,
  without_votes, delete_poll_vote,
}

-- The stored vote of a voter.
unfoldable pub get_vote : Text → Text → Text → List VoteRow → Option VoteRow
get_vote chat poll voter [] = none
get_vote chat poll voter (v ∷ vs) =
    let others = get_vote chat poll voter vs in if is_vote chat poll voter v then some v else others

-- The vote that holds after `v` arrives.
unfoldable pub newer_vote : VoteRow → Option VoteRow → Option VoteRow
newer_vote v none = some v
newer_vote v (some x) = if leb x.ts v.ts then some v else some x

-- Two rows of one voter.
is_vote-same :
    (chat poll voter : Text) (v x : VoteRow)
    → is_vote v.chat_jid v.poll_msg_id v.voter_jid x ≡ true
    → is_vote chat poll voter x ≡ is_vote chat poll voter v
is_vote-same chat poll voter v x h =
    let c = text_eq_iff x.chat_jid v.chat_jid in
    let p = text_eq_iff x.poll_msg_id v.poll_msg_id in
    let w = text_eq_iff x.voter_jid v.voter_jid in
    let split : (text_eq x.chat_jid v.chat_jid ≡ true)
        × (text_eq x.poll_msg_id v.poll_msg_id ≡ true)
        × (text_eq x.voter_jid v.voter_jid ≡ true) =
      (ground arith, ground arith, ground arith) in
    rw (c.0 split.0, p.0 split.1, w.0 split.2) refl

is_vote-both :
    (chat poll voter : Text) (v x : VoteRow)
    → is_vote chat poll voter v ≡ true
    → is_vote chat poll voter x ≡ true
    → is_vote v.chat_jid v.poll_msg_id v.voter_jid x ≡ true
is_vote-both chat poll voter v x h k =
    let split : (text_eq v.chat_jid chat ≡ true)
        × (text_eq v.poll_msg_id poll ≡ true)
        × (text_eq v.voter_jid voter ≡ true) =
      (ground arith, ground arith, ground arith) in
    rw
      (
        (text_eq_iff v.chat_jid chat).0 split.0,
        (text_eq_iff v.poll_msg_id poll).0 split.1,
        (text_eq_iff v.voter_jid voter).0 split.2,
      )
      k

put_vote-get :
    (chat poll voter : Text) (v : VoteRow) (xs : List VoteRow)
    → get_vote chat poll voter (put_vote v xs) ≡ (
        if is_vote chat poll voter v
        then newer_vote v (get_vote chat poll voter xs)
        else get_vote chat poll voter xs)
unfolding put_vote get_vote newer_vote
put_vote-get chat poll voter v [] = ground arith
put_vote-get chat poll voter v (x ∷ xs) =
    let rest = put_vote-get chat poll voter v xs in
    elim (Bool-cases (is_vote v.chat_jid v.poll_msg_id v.voter_jid x)) [
      | inl y ↦
          let same = is_vote-same chat poll voter v x y in
          elim (Bool-cases (leb x.ts v.ts)) [
            | inl l ↦ elim (Bool-cases (is_vote chat poll voter v)) [
              | inl t ↦ rw (y, l, same, t, l) refl
              | inr f ↦ rw (y, l, same, f) refl
            ]
            | inr l ↦ elim (Bool-cases (is_vote chat poll voter v)) [
              | inl t ↦ rw (y, l, same, t, l) refl
              | inr f ↦ rw (y, l, same, f) refl
            ]
          ]
      | inr n ↦ elim (Bool-cases (is_vote chat poll voter x)) [
        | inl u ↦ elim (Bool-cases (is_vote chat poll voter v)) [
          | inl t ↦ let both = is_vote-both chat poll voter v x t u in absurd (cc (both, n))
          | inr f ↦ rw (n, u, f) refl
        ]
        | inr u ↦ rw (n, u) rest
      ]
    ]

abbrev pub or_same : Result Text PollStore → PollStore → PollStore
or_same (ok d) old = d
or_same (err e) old = old

-- The store after a vote arrives; one that is refused changes nothing.
abbrev pub after_vote : PollVote → PollStore → PollStore
after_vote v d = or_same (upsert_poll_vote v d) d

-- Is the vote stored at all?
abbrev pub is_accepted : PollVote → List (Text × Text) → Bool
is_accepted v purges =
    not (lacks_id v.chat_jid v.poll_msg_id v.voter_jid)
    && not (is_purged v.chat_jid v.poll_msg_id purges || is_purged v.chat_jid v.vote_msg_id purges)

abbrev put_if : Bool → VoteRow → List VoteRow → List VoteRow
put_if true v xs = put_vote v xs
put_if false v xs = xs

after_vote-fields :
    (v : PollVote) (d : PollStore)
    → ((after_vote v d).purges ≡ d.purges)
      × ((after_vote v d).votes ≡ put_if (is_accepted v d.purges) (row_of v) d.votes)
unfolding upsert_poll_vote
after_vote-fields v d = elim (Bool-cases (lacks_id v.chat_jid v.poll_msg_id v.voter_jid)) [
  | inl y ↦ rw y (refl, refl)
  | inr n ↦
      elim (Bool-cases (
        is_purged v.chat_jid v.poll_msg_id d.purges
        || is_purged v.chat_jid v.vote_msg_id d.purges)) [
          | inl y ↦ rw (n, y) (refl, refl)
          | inr m ↦ rw (n, m) (refl, refl)
        ]
]

after_vote-twice :
    (v w : PollVote) (d : PollStore)
    → (after_vote w (after_vote v d)).votes
      ≡ put_if
          (is_accepted w d.purges)
          (row_of w)
          (put_if (is_accepted v d.purges) (row_of v) d.votes)
after_vote-twice v w d =
    let (purges, votes) = after_vote-fields v d in
    (after_vote-fields w (after_vote v d)).1
    ∙ ap (λ (p : List (Text × Text)). put_if (is_accepted w p) (row_of w) (after_vote v d).votes)
        purges
    ∙ ap (λ (xs : List VoteRow). put_if (is_accepted w d.purges) (row_of w) xs) votes

newer_vote-either :
    (v w : VoteRow) (o : Option VoteRow)
    → v.ts ≢ w.ts
    → newer_vote w (newer_vote v o) ≡ newer_vote v (newer_vote w o)
unfolding newer_vote
newer_vote-either v w none apart = ground arith
newer_vote-either v w (some x) apart = ground arith

put_if-either :
    (chat poll voter : Text) (a b : Bool) (v w : VoteRow) (xs : List VoteRow)
    → v.ts ≢ w.ts
    → get_vote chat poll voter (put_if b w (put_if a v xs))
      ≡ get_vote chat poll voter (put_if a v (put_if b w xs))
put_if-either chat poll voter true false v w xs apart = refl
put_if-either chat poll voter false true v w xs apart = refl
put_if-either chat poll voter false false v w xs apart = refl
put_if-either chat poll voter true true v w xs apart = ground (
  arith,
  put_vote-get chat poll voter w (put_vote v xs),
  put_vote-get chat poll voter v (put_vote w xs),
  put_vote-get chat poll voter v xs,
  put_vote-get chat poll voter w xs,
  newer_vote-either v w (get_vote chat poll voter xs) apart,
)

-- Two votes of different moments may arrive in either order: for every voter of every poll the store then
-- holds the same vote, also when one of the two is refused or belongs to a purged message.
pub after_vote-either_order :
    (v w : PollVote) (d : PollStore) (chat poll voter : Text)
    → v.voted_at ≢ w.voted_at
    → get_vote chat poll voter (after_vote w (after_vote v d)).votes
      ≡ get_vote chat poll voter (after_vote v (after_vote w d)).votes
after_vote-either_order v w d chat poll voter apart =
    ap (get_vote chat poll voter) (after_vote-twice v w d)
    ∙ put_if-either chat poll voter (is_accepted v d.purges) (is_accepted w d.purges) (row_of v)
        (row_of w) d.votes apart
    ∙ sym (ap (get_vote chat poll voter) (after_vote-twice w v d))

-- What arrives for a poll: a vote, or the deletion of a voter's vote.
pub data VoteEvent : Type 0 where
  votes : PollVote → VoteEvent
  deletes : Text → Text → Text → ℕ → VoteEvent

unfoldable pub apply_vote : VoteEvent → PollStore → PollStore
apply_vote (votes v) d = after_vote v d
apply_vote (deletes chat poll voter ts) d = or_same (delete_poll_vote chat poll voter ts d) d

unfoldable pub apply_votes : List VoteEvent → PollStore → PollStore
unfolding apply_vote
apply_votes [] d = d
apply_votes (e ∷ es) d = apply_votes es (apply_vote e d)

-- A vote of that moment or later.
abbrev pub IsSince : ℕ → Option VoteRow → Type 0
IsSince t none = ⊥
IsSince t (some v) = t ≤ v.ts

-- The event deletes no vote of that voter from moment t on.
abbrev pub IsEarlier : Text → Text → Text → ℕ → VoteEvent → Type 0
IsEarlier chat poll voter t (votes v) = Unit
IsEarlier chat poll voter t (deletes c p w ts) =
    ((text_eq chat c && text_eq poll p && text_eq voter w) ≡ true) → ts < t

module _ (chat poll voter : Text) (t : ℕ) where
  newer_vote-IsSince : (v : VoteRow) (o : Option VoteRow) → IsSince t o → IsSince t (newer_vote v o)
  unfolding newer_vote
  newer_vote-IsSince v none h = absurd h
  newer_vote-IsSince v (some x) h = elim (Bool-cases (leb x.ts v.ts)) [
    | inl y ↦ rw y (ground arith)
    | inr n ↦ rw n h
  ]

  put_if-IsSince :
      (a : Bool) (v : VoteRow) (xs : List VoteRow)
      → IsSince t (get_vote chat poll voter xs)
      → IsSince t (get_vote chat poll voter (put_if a v xs))
  put_if-IsSince false v xs h = h
  put_if-IsSince true v xs h = elim (Bool-cases (is_vote chat poll voter v)) [
    | inl y ↦
        rw (put_vote-get chat poll voter v xs, y)
          (newer_vote-IsSince v (get_vote chat poll voter xs) h)
    | inr n ↦ rw (put_vote-get chat poll voter v xs, n) h
  ]

  without_votes-IsSince :
      (p : VoteRow → Bool) (xs : List VoteRow)
      → ((x : VoteRow) → is_vote chat poll voter x ≡ true → t ≤ x.ts → p x ≡ false)
      → IsSince t (get_vote chat poll voter xs)
      → IsSince t (get_vote chat poll voter (without_votes p xs))
  unfolding get_vote without_votes
  without_votes-IsSince p [] spared h = h
  without_votes-IsSince p (x ∷ xs) spared h = elim (Bool-cases (is_vote chat poll voter x)) [
    | inl y ↦ let since : t ≤ x.ts = rw y at h in rw (spared x y since) (rw y since)
    | inr n ↦
        let later = without_votes-IsSince p xs spared (rw n at h) in
        elim (Bool-cases (p x)) [ inl gone ↦ rw gone later | inr kept ↦ rw (kept, n) later ]
  ]

  is_vote-parts :
      (c q w : Text) (x : VoteRow)
      → is_vote chat poll voter x ≡ true
      → is_vote c q w x ≡ true
      → (text_eq chat c && text_eq poll q && text_eq voter w) ≡ true
  is_vote-parts c q w x h k =
      let split : (text_eq x.chat_jid chat ≡ true)
          × (text_eq x.poll_msg_id poll ≡ true)
          × (text_eq x.voter_jid voter ≡ true) =
        (ground arith, ground arith, ground arith) in
      rw⁻¹
        (
          (text_eq_iff x.chat_jid chat).0 split.0,
          (text_eq_iff x.poll_msg_id poll).0 split.1,
          (text_eq_iff x.voter_jid voter).0 split.2,
        )
        k

  spares :
      (c q w : Text) (ts : ℕ) (x : VoteRow)
      → (((text_eq chat c && text_eq poll q && text_eq voter w) ≡ true) → ts < t)
      → is_vote chat poll voter x ≡ true
      → t ≤ x.ts
      → (is_vote c q w x && leb x.ts ts) ≡ false
  spares c q w ts x early h since = elim (Bool-cases (is_vote c q w x)) [
    | inl y ↦ let lt = early (is_vote-parts c q w x h y) in rw y (ground arith)
    | inr n ↦ rw n refl
  ]

  delete_poll_vote-IsSince :
      (c q w : Text) (ts : ℕ) (d : PollStore)
      → (((text_eq chat c && text_eq poll q && text_eq voter w) ≡ true) → ts < t)
      → IsSince t (get_vote chat poll voter d.votes)
      → IsSince t (get_vote chat poll voter (or_same (delete_poll_vote c q w ts d) d).votes)
  unfolding delete_poll_vote
  delete_poll_vote-IsSince c q w ts d early h = elim (Bool-cases (lacks_id c q w)) [
    | inl y ↦ rw y h
    | inr n ↦ rw n (
        without_votes-IsSince (λ v. is_vote c q w v && leb v.ts ts) d.votes
          (λ x u since. spares c q w ts x early u since) h)
  ]

  apply_vote-IsSince :
      (e : VoteEvent) (d : PollStore)
      → IsEarlier chat poll voter t e
      → IsSince t (get_vote chat poll voter d.votes)
      → IsSince t (get_vote chat poll voter (apply_vote e d).votes)
  unfolding apply_vote
  apply_vote-IsSince (votes v) d early h =
      rw ((after_vote-fields v d).1) (put_if-IsSince (is_accepted v d.purges) (row_of v) d.votes h)
  apply_vote-IsSince (deletes c q w ts) d early h = delete_poll_vote-IsSince c q w ts d early h

  apply_votes-IsSince :
      (es : List VoteEvent) (d : PollStore)
      → All (IsEarlier chat poll voter t) es
      → IsSince t (get_vote chat poll voter d.votes)
      → IsSince t (get_vote chat poll voter (apply_votes es d).votes)
  unfolding apply_votes
  apply_votes-IsSince [] d early h = h
  apply_votes-IsSince (e ∷ es) d (here, early) h =
      apply_votes-IsSince es (apply_vote e d) early (apply_vote-IsSince e d here h)

newer_vote-now : (v : VoteRow) (o : Option VoteRow) → IsSince v.ts (newer_vote v o)
unfolding newer_vote
newer_vote-now v none = omega arith
newer_vote-now v (some x) = elim (Bool-cases (leb x.ts v.ts)) [
  | inl y ↦ rw y (omega arith)
  | inr n ↦ rw n (ground arith)
]

-- Once a vote is accepted, the store holds a vote of that voter that is no older, whatever votes arrive
-- after it and in whatever order, and unless the voter's vote is deleted as of that moment or later.
pub vote_survives :
    (v : PollVote) (d : PollStore) (es : List VoteEvent)
    → is_accepted v d.purges ≡ true
    → All (IsEarlier v.chat_jid v.poll_msg_id v.voter_jid v.voted_at) es
    → IsSince v.voted_at
        (get_vote v.chat_jid v.poll_msg_id v.voter_jid (apply_votes es (after_vote v d)).votes)
vote_survives v d es accepted early =
    let own : is_vote v.chat_jid v.poll_msg_id v.voter_jid (row_of v) ≡ true =
      rw (text_eq_refl v.chat_jid, text_eq_refl v.poll_msg_id, text_eq_refl v.voter_jid) refl in
    let got = put_vote-get v.chat_jid v.poll_msg_id v.voter_jid (row_of v) d.votes in
    apply_votes-IsSince v.chat_jid v.poll_msg_id v.voter_jid v.voted_at es (after_vote v d) early (
      rw ((after_vote-fields v d).1, accepted, got, own)
        (newer_vote-now (row_of v) (get_vote v.chat_jid v.poll_msg_id v.voter_jid d.votes)))
