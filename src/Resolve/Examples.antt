-- ===== src/Resolve/Examples.antt =====
-- A name resolved against two contacts and a chat, after internal/resolve/resolve.go.
use wacli.Common.{
  is_space, trim_left, ok, ◌==◌, if◌then◌else◌, Text, codes, text_eq, trim_space, has_prefix,
  length, ℕ, ◌≤◌, ◌≡◌, refl, true, List, [], ◌∷◌,
}
use wacli.Resolve.{
  Kind, contact, Candidate, Contact, Chat, resolve, listed, candidates, sort_stable, add_all,
  insert, before, add, replace_or_append, should_replace, kind_rank, contact_candidate,
  group_candidate, chat_candidate, rank, best, score_of, word_prefix, word_has_prefix, contains,
  pick_contact_name, text_lt,
}
use wacli.Resolve.Ranking.{distinct_jids}
use wacli.Resolve.Order.{IsRanked, resolve_lem}

abbrev found : ℕ → Kind → Candidate
found score kind = record { jid = codes "a@x"; name = []; detail = []; kind = kind; score = score }

abbrev same : Text → Text
same t = t

abbrev ann : Contact
ann = record { jid = codes "1@x"; phone = codes "1"; name = codes "ann"; alias = [] }

abbrev joanna : Contact
joanna = record { jid = codes "2@x"; phone = codes "2"; name = codes "mary ann"; alias = [] }

abbrev ann_chat : Chat
ann_chat = record { jid = codes "1@x"; kind = codes "dm"; name = codes "anna" }

abbrev answer : List Candidate
answer =
    record {
      jid = codes "1@x";
      name = codes "ann";
      detail = codes "1";
      kind = contact;
      score = 100;
    }
    ∷ record {
      jid = codes "2@x";
      name = codes "mary ann";
      detail = codes "2";
      kind = contact;
      score = 30;
    }
    ∷ []

resolved :
    resolve same text_eq
      (λ q. ok (joanna ∷ ann ∷ []))
      (λ q. ok [])
      (λ q. ok (ann_chat ∷ []))
      (codes " ann ")
      5
    ≡ ok answer
unfolding resolve listed candidates sort_stable insert before add_all add replace_or_append
    should_replace kind_rank contact_candidate group_candidate chat_candidate rank best score_of
    word_prefix word_has_prefix contains pick_contact_name text_lt trim_space trim_left is_space
    has_prefix
resolved = refl

resolve_example :
    (distinct_jids answer ≡ true) × IsRanked answer × (length answer ≤ (if 5 == 0 then 10 else 5))
resolve_example =
    resolve_lem same text_eq (λ q. ok (joanna ∷ ann ∷ [])) (λ q. ok []) (λ q. ok (ann_chat ∷ []))
      (codes " ann ") 5 answer resolved
