-- ===== src/Resolve/Order.antt =====
-- What Resolve of internal/resolve/resolve.go returns: candidates of different JIDs, best score first,
-- and no more than the limit.
use wacli.Common.{
  ◌==◌, if◌then◌else◌, Bool-cases, All, Text, text_eq, Result, ok, err, trim_space, length, take, ℕ,
  zero, suc, ◌≤◌, ◌≡◌, refl, ◌∙◌, inl, inr, Bool, true, false, List, [], ◌∷◌, map, arith,
}
use mathlib.Core.Path.{subst}
use wacli.Resolve.{
  Candidate, Contact, Group, Chat, add_all, Error, recipient_required, contact_candidate,
  group_candidate, chat_candidate, before, insert, sort_stable, candidates, listed, resolve,
}
use wacli.Resolve.Ranking.{has_jid, distinct_jids, add_all-distinct, text_eq-other}

-- No candidate scores more than the bound.
abbrev pub AtMost : ℕ → List Candidate → Type 0
AtMost n cs = All (λ c. c.score ≤ n) cs

-- Each scores at least what those after it do.
abbrev pub IsRanked : List Candidate → Type 0
IsRanked [] = Unit
IsRanked (c ∷ cs) = AtMost c.score cs × IsRanked cs

AtMost-weaken : (m n : ℕ) (cs : List Candidate) → m ≤ n → AtMost m cs → AtMost n cs
AtMost-weaken m n [] h k = tt
AtMost-weaken m n (c ∷ cs) h (p, k) = (omega arith, AtMost-weaken m n cs h k)

take-AtMost : (k n : ℕ) (cs : List Candidate) → AtMost n cs → AtMost n (take k cs)
take-AtMost zero n cs h = tt
take-AtMost (suc k) n [] h = tt
take-AtMost (suc k) n (c ∷ cs) (p, h) = (p, take-AtMost k n cs h)

take-IsRanked : (k : ℕ) (cs : List Candidate) → IsRanked cs → IsRanked (take k cs)
take-IsRanked zero cs h = tt
take-IsRanked (suc k) [] h = tt
take-IsRanked (suc k) (c ∷ cs) (p, h) = (take-AtMost k c.score cs p, take-IsRanked k cs h)

take-length : (k : ℕ) (cs : List Candidate) → length (take k cs) ≤ k
take-length zero cs = omega arith
take-length (suc k) [] = omega arith
take-length (suc k) (c ∷ cs) = omega (arith, take-length k cs)

take-has_jid :
    (k : ℕ) (j : Text) (cs : List Candidate) → has_jid j cs ≡ false → has_jid j (take k cs) ≡ false
unfolding has_jid
take-has_jid zero j cs h = refl
take-has_jid (suc k) j [] h = refl
take-has_jid (suc k) j (c ∷ cs) h = ground (arith, take-has_jid k j cs)

take-distinct :
    (k : ℕ) (cs : List Candidate) → distinct_jids cs ≡ true → distinct_jids (take k cs) ≡ true
unfolding distinct_jids
take-distinct zero cs h = refl
take-distinct (suc k) [] h = refl
take-distinct (suc k) (c ∷ cs) h = ground (arith, take-has_jid k c.jid cs, take-distinct k cs)

module _ (lower : Text → Text) (equal_fold : Text → Text → Bool) where
  before-score :
      (a b : Candidate)
      → ((before lower equal_fold a b ≡ true) → b.score ≤ a.score)
        × ((before lower equal_fold a b ≡ false) → a.score ≤ b.score)
  unfolding before
  before-score a b = ground arith

  insert-AtMost :
      (n : ℕ) (c : Candidate) (cs : List Candidate)
      → c.score ≤ n
      → AtMost n cs
      → AtMost n (insert lower equal_fold c cs)
  unfolding insert
  insert-AtMost n c [] p h = (p, tt)
  insert-AtMost n c (d ∷ ds) p (q, h) = elim (Bool-cases (before lower equal_fold d c)) [
    | inl e ↦ rw e (q, insert-AtMost n c ds p h)
    | inr e ↦ rw e (p, (q, h))
  ]

  insert-IsRanked :
      (c : Candidate) (cs : List Candidate) → IsRanked cs → IsRanked (insert lower equal_fold c cs)
  unfolding insert
  insert-IsRanked c [] h = (tt, tt)
  insert-IsRanked c (d ∷ ds) (p, h) = elim (Bool-cases (before lower equal_fold d c)) [
    | inl e ↦ rw e (insert-AtMost d.score c ds ((before-score d c).0 e) p, insert-IsRanked c ds h)
    | inr e ↦
        let le = (before-score d c).1 e in
        rw e ((le, AtMost-weaken d.score c.score ds le p), (p, h))
  ]

  sort_stable-IsRanked : (cs : List Candidate) → IsRanked (sort_stable lower equal_fold cs)
  unfolding sort_stable
  sort_stable-IsRanked [] = tt
  sort_stable-IsRanked (c ∷ cs) =
      insert-IsRanked c (sort_stable lower equal_fold cs) (sort_stable-IsRanked cs)

  insert-has_jid :
      (j : Text) (c : Candidate) (cs : List Candidate)
      → has_jid j (insert lower equal_fold c cs) ≡ has_jid j (c ∷ cs)
  unfolding insert has_jid
  insert-has_jid j c [] = refl
  insert-has_jid j c (d ∷ ds) = elim (Bool-cases (before lower equal_fold d c)) [
    | inl e ↦ rw e (rw (insert-has_jid j c ds) ground arith)
    | inr e ↦ rw e refl
  ]

  sort_stable-has_jid :
      (j : Text) (cs : List Candidate) → has_jid j (sort_stable lower equal_fold cs) ≡ has_jid j cs
  unfolding sort_stable has_jid
  sort_stable-has_jid j [] = refl
  sort_stable-has_jid j (c ∷ cs) =
      ground (arith, insert-has_jid j c (sort_stable lower equal_fold cs), sort_stable-has_jid j cs)

  insert-distinct :
      (c : Candidate) (cs : List Candidate)
      → has_jid c.jid cs ≡ false
      → distinct_jids cs ≡ true
      → distinct_jids (insert lower equal_fold c cs) ≡ true
  unfolding insert distinct_jids has_jid
  insert-distinct c [] n h = refl
  insert-distinct c (d ∷ ds) n h = elim (Bool-cases (before lower equal_fold d c)) [
    | inl e ↦
        let other : text_eq c.jid d.jid ≡ false = text_eq-other d.jid c.jid (ground arith) in
        let fresh : has_jid c.jid ds ≡ false = ground arith in
        let rest : distinct_jids ds ≡ true = ground arith in
        rw e (ground (arith, insert-has_jid d.jid c ds, insert-distinct c ds fresh rest, other))
    | inr e ↦ rw e (ground arith)
  ]

  sort_stable-distinct :
      (cs : List Candidate)
      → distinct_jids cs ≡ true
      → distinct_jids (sort_stable lower equal_fold cs) ≡ true
  unfolding sort_stable distinct_jids
  sort_stable-distinct [] h = refl
  sort_stable-distinct (c ∷ cs) h =
      let fresh : has_jid c.jid cs ≡ false = ground arith in
      let rest : distinct_jids cs ≡ true = ground arith in
      insert-distinct c (sort_stable lower equal_fold cs) (sort_stable-has_jid c.jid cs ∙ fresh)
        (sort_stable-distinct cs rest)

  candidates-distinct :
      (q : Text) (contacts : List Contact) (groups : List Group) (chats : List Chat)
      → distinct_jids (candidates lower equal_fold q contacts groups chats) ≡ true
  unfolding candidates distinct_jids
  candidates-distinct q contacts groups chats =
      let first : List Candidate =
        add_all (map (contact_candidate lower equal_fold q) contacts) [] in
      let second : List Candidate =
        add_all (map (group_candidate lower equal_fold q) groups) first in
      let one : distinct_jids first ≡ true =
        add_all-distinct (map (contact_candidate lower equal_fold q) contacts) [] refl in
      let two = add_all-distinct (map (group_candidate lower equal_fold q) groups) first one in
      add_all-distinct (map (chat_candidate lower equal_fold q) chats) second two

  record IsAnswer (bound : ℕ) (found : List Candidate) : Type 0 where
    distinct : distinct_jids found ≡ true
    ranked : IsRanked found
    bounded : length found ≤ bound

  listed-IsAnswer :
      (bound : ℕ) (q : Text) (contacts : Result ℕ (List Contact)) (groups : Result ℕ (List Group))
      (chats : Result ℕ (List Chat)) (found : List Candidate)
      → listed lower equal_fold bound q contacts groups chats ≡ ok found
      → IsAnswer bound found
  unfolding listed
  listed-IsAnswer bound q (err e) groups chats found h = absurd cc
  listed-IsAnswer bound q (ok contacts) (err e) chats found h = absurd cc
  listed-IsAnswer bound q (ok contacts) (ok groups) (err e) found h = absurd cc
  listed-IsAnswer bound q (ok contacts) (ok groups) (ok chats) found h =
      let all : List Candidate = candidates lower equal_fold q contacts groups chats in
      let sorted : List Candidate = sort_stable lower equal_fold all in
      let same : take bound sorted ≡ found = cc in
      subst (IsAnswer bound) same (record {
        distinct =
            take-distinct bound sorted
              (sort_stable-distinct all (candidates-distinct q contacts groups chats));
        ranked = take-IsRanked bound sorted (sort_stable-IsRanked all);
        bounded = take-length bound sorted;
      })

  -- What Resolve returns, whatever the sources return, the folding of case and the equality of names
  -- up to case: no two candidates with the same JID, the scores in descending order, and at most
  -- `limit` candidates, or 10 where the limit is not positive.
  pub resolve_lem :
      (contacts_of : Text → Result ℕ (List Contact)) (groups_of : Text → Result ℕ (List Group))
      (chats_of : Text → Result ℕ (List Chat)) (input : Text) (limit : ℕ) (found : List Candidate)
      → resolve lower equal_fold contacts_of groups_of chats_of input limit ≡ ok found
      → (distinct_jids found ≡ true)
        × IsRanked found
        × (length found ≤ (if limit == 0 then 10 else limit))
  unfolding resolve
  resolve_lem contacts_of groups_of chats_of input limit found h =
      let q = trim_space input in
      elim (Bool-cases (text_eq q [])) [
        | inl e ↦ absurd (no_answer found (rw (e, resolve) at h))
        | inr e ↦
            let answer =
              listed-IsAnswer (if limit == 0 then 10 else limit) q (contacts_of q) (groups_of q)
                (chats_of q) found (rw (e, resolve) at h) in
            (answer.distinct, answer.ranked, answer.bounded)
      ]
    where
      no_answer :
          (cs : List Candidate)
          → ◌≡◌ {A = Result Error (List Candidate)} (err recipient_required) (ok cs)
          → ⊥
      no_answer cs e = cc
