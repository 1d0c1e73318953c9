-- ===== src/Polls/Options.antt =====
-- The options of a poll that is stored again.
use wacli.Common.{
  Bool-cases, Text, text_eq, text_eq_iff, text_eq_refl, ◌≡◌, refl, ap, ◌∙◌, inl, inr, true, ◌||◌,
  List, [], ◌∷◌, ◌++◌, arith, some, false, ok, ◌&&◌, trim_space, sym, ◌⊎◌,
}
use wacli.Polls.{
  Poll, PollStore, is_in, unseen, merge_poll_options, is_poll, put_poll, poll_options, or_none,
  upsert_poll, is_purged, is_empty_id,
}

is_in-append : (x : Text) (xs ys : List Text) → is_in x (xs ++ ys) ≡ (is_in x xs || is_in x ys)
unfolding is_in
is_in-append x [] ys = refl
is_in-append x (y ∷ xs) ys = ground (arith, is_in-append x xs ys)

-- No option twice.
unfoldable pub IsDistinct : List Text → Type 0
IsDistinct [] = Unit
IsDistinct (x ∷ xs) = (is_in x xs ≡ false) × IsDistinct xs

unseen-in :
    (x : Text) (seen os : List Text)
    → (is_in x seen || is_in x (unseen seen os)) ≡ (is_in x seen || is_in x os)
unfolding unseen is_in
unseen-in x seen [] = refl
unseen-in x seen (o ∷ os) = elim (Bool-cases (text_eq o x)) [
  | inl y ↦
      let same = (text_eq_iff o x).0 y in
      let moved : is_in o seen ≡ is_in x seen = ap (λ z. is_in z seen) same in
      ground (arith, moved, unseen-in x seen os, unseen-in x (o ∷ seen) os)
  | inr n ↦ ground (arith, unseen-in x seen os, unseen-in x (o ∷ seen) os)
]

unseen-new :
    (x : Text) (seen os : List Text) → is_in x seen ≡ true → is_in x (unseen seen os) ≡ false
unfolding unseen is_in
unseen-new x seen [] h = refl
unseen-new x seen (o ∷ os) h = elim (Bool-cases (text_eq o x)) [
  | inl y ↦
      let same = (text_eq_iff o x).0 y in
      let moved : is_in o seen ≡ is_in x seen = ap (λ z. is_in z seen) same in
      ground (arith, moved, unseen-new x seen os h)
  | inr n ↦ ground (arith, unseen-new x seen os h, unseen-new x (o ∷ seen) os)
]

unseen-IsDistinct : (seen os : List Text) → IsDistinct (unseen seen os)
unfolding unseen is_in IsDistinct
unseen-IsDistinct seen [] = tt
unseen-IsDistinct seen (o ∷ os) = elim (Bool-cases (is_in o seen)) [
  | inl y ↦ rw y (unseen-IsDistinct seen os)
  | inr n ↦
      rw n (unseen-new o (o ∷ seen) os (rw (text_eq_refl o) refl), unseen-IsDistinct (o ∷ seen) os)
]

merge_poll_options_lem :
    (incoming existing : List Text)
    → (added : List Text) × (merge_poll_options incoming existing ≡ incoming ++ added)
      × IsDistinct added
      × ((x : Text) → is_in x incoming ≡ true → is_in x added ≡ false)
      × ((x : Text)
          → is_in x (merge_poll_options incoming existing) ≡ (is_in x incoming || is_in x existing))
unfolding merge_poll_options
merge_poll_options_lem incoming existing = (
  unseen incoming existing,
  refl,
  unseen-IsDistinct incoming existing,
  λ x h. unseen-new x incoming existing h,
  λ x. is_in-append x incoming (unseen incoming existing) ∙ unseen-in x incoming existing,
)

is_poll_refl :
    (p q : Poll)
    → p.chat_jid ≡ q.chat_jid
    → p.msg_id ≡ q.msg_id
    → is_poll q.chat_jid q.msg_id p ≡ true
is_poll_refl p q c m = rw (c, m, text_eq_refl q.chat_jid, text_eq_refl q.msg_id) refl

-- What is found of a poll after it was put.
poll_options-put_poll :
    (p : Poll) (qs : List Poll) → poll_options p.chat_jid p.msg_id (put_poll p qs) ≡ some p.options
unfolding poll_options put_poll
poll_options-put_poll p [] = rw (is_poll_refl p p refl refl) refl
poll_options-put_poll p (q ∷ qs) = elim (Bool-cases (is_poll p.chat_jid p.msg_id q)) [
  | inl y ↦ rw (y, poll_options, is_poll_refl p p refl refl) refl
  | inr n ↦ rw (n, poll_options, n) (poll_options-put_poll p qs)
]

same_key :
    (p q : Poll) (chat msg : Text)
    → is_poll p.chat_jid p.msg_id q ≡ true
    → is_poll chat msg q ≡ is_poll chat msg p
same_key p q chat msg h =
    let c : q.chat_jid ≡ p.chat_jid = (text_eq_iff _ _).0 (ground (arith, h)) in
    let m : q.msg_id ≡ p.msg_id = (text_eq_iff _ _).0 (ground (arith, h)) in
    ap (λ (t : Text). text_eq t chat && text_eq q.msg_id msg) c
    ∙ ap (λ (t : Text). text_eq p.chat_jid chat && text_eq t msg) m

poll_options-other :
    (p : Poll) (chat msg : Text) (qs : List Poll)
    → is_poll chat msg p ≡ false
    → poll_options chat msg (put_poll p qs) ≡ poll_options chat msg qs
unfolding poll_options put_poll
poll_options-other p chat msg [] h = rw h refl
poll_options-other p chat msg (q ∷ qs) h = elim (Bool-cases (is_poll p.chat_jid p.msg_id q)) [
  | inl y ↦ rw (y, poll_options, h, same_key p q chat msg y, h) refl
  | inr n ↦ rw (n, poll_options, poll_options-other p chat msg qs h) refl
]

-- Storing a named poll again: if its payload was purged nothing changes; else it is found with the
-- incoming options first, in their order, and behind them those of the stored ones that are not among
-- them, each once, so that no option of either side is lost and none is added. Other polls keep their
-- options, and no vote changes.
pub upsert_poll_lem :
    (p : Poll) (d : PollStore)
    → is_empty_id p.chat_jid ≡ false
    → is_empty_id p.msg_id ≡ false
    → ((is_purged p.chat_jid p.msg_id d.purges ≡ true) × (upsert_poll p d ≡ ok d))
      ⊎ ((d' : PollStore) × (added : List Text) × (upsert_poll p d ≡ ok d')
          × (poll_options p.chat_jid p.msg_id d'.polls ≡ some (p.options ++ added))
          × IsDistinct added
          × ((x : Text) → is_in x p.options ≡ true → is_in x added ≡ false)
          × ((x : Text)
              → is_in x (p.options ++ added) ≡ (
                  is_in x p.options
                  || is_in x (or_none (poll_options p.chat_jid p.msg_id d.polls))))
          × ((chat msg : Text)
              → is_poll chat msg p ≡ false
              → poll_options chat msg d'.polls ≡ poll_options chat msg d.polls)
          × (d'.votes ≡ d.votes))
unfolding upsert_poll
upsert_poll_lem p d chat msg = elim (Bool-cases (is_purged p.chat_jid p.msg_id d.purges)) [
  | inl y ↦ inl (y, rw (chat, msg, y) refl)
  | inr n ↦
      let old = or_none (poll_options p.chat_jid p.msg_id d.polls) in
      let (added, same, distinct, new, all) = merge_poll_options_lem p.options old in
      let row : Poll = record p {
        options = merge_poll_options p.options old;
        sender_jid = trim_space p.sender_jid;
      } in
      inr (
        record d { polls = put_poll row d.polls },
        added,
        rw (chat, msg, n) refl,
        poll_options-put_poll row d.polls ∙ ap some same,
        distinct,
        new,
        (λ x. ap (is_in x) (sym same) ∙ all x),
        (λ c m other. poll_options-other row c m d.polls other),
        refl,
      )
]
