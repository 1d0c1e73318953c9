-- ===== src/Resolve/Ranking.antt =====
-- What Resolve of internal/resolve/resolve.go returns: one candidate per JID, the best of each, in
-- order of score, and no more than the limit.
use wacli.Common.{
  ◌==◌, Bool-cases, All, Text, text_eq, text_eq_iff, text_eq_refl, trim_space, ◌≡◌, refl, sym, inl,
  inr, Bool, true, false, not, ◌&&◌, ◌||◌, List, [], ◌∷◌, arith,
}
use wacli.Resolve.{Candidate, should_replace, replace_or_append, add, add_all}

-- Whether a candidate has the JID.
unfoldable pub has_jid : Text → List Candidate → Bool
has_jid j [] = false
has_jid j (c ∷ cs) = text_eq c.jid j || has_jid j cs

-- No two candidates have the same JID.
unfoldable pub distinct_jids : List Candidate → Bool
unfolding has_jid
distinct_jids [] = true
distinct_jids (c ∷ cs) = not (has_jid c.jid cs) && distinct_jids cs

-- A candidate of the JID that is at least as good as the other: nothing would be replaced.
unfoldable pub holds_as_good : Candidate → List Candidate → Bool
holds_as_good c [] = false
holds_as_good c (old ∷ out) =
    (text_eq old.jid c.jid && not (should_replace old c)) || holds_as_good c out

should_replace_irrefl : (c : Candidate) → should_replace c c ≡ false
unfolding should_replace
should_replace_irrefl c = ground arith

should_replace_keeps :
    (old c x : Candidate)
    → should_replace old c ≡ true
    → should_replace old x ≡ false
    → should_replace c x ≡ false
unfolding should_replace
should_replace_keeps old c x h k = ground arith

pub text_eq-other : (s t : Text) → text_eq s t ≡ false → text_eq t s ≡ false
text_eq-other s t h = elim (Bool-cases (text_eq t s)) [
  | inl e ↦ let same = (text_eq_iff t s).0 e in let again = (text_eq_iff s t).1 (sym same) in cc
  | inr e ↦ e
]

has_jid-other :
    (j : Text) (c : Candidate) (out : List Candidate)
    → text_eq c.jid j ≡ false
    → has_jid j (replace_or_append c out) ≡ has_jid j out
unfolding has_jid replace_or_append
has_jid-other j c [] n = rw n refl
has_jid-other j c (old ∷ out) n = elim (Bool-cases (text_eq old.jid c.jid)) [
  | inl e ↦
      let same : old.jid ≡ c.jid = (text_eq_iff old.jid c.jid).0 e in
      elim (Bool-cases (should_replace old c)) [
        | inl r ↦ rw (e, r, same) refl
        | inr r ↦ rw (e, r) refl
      ]
  | inr e ↦ rw (e, has_jid-other j c out n) refl
]

replace_or_append-distinct :
    (c : Candidate) (out : List Candidate)
    → distinct_jids out ≡ true
    → distinct_jids (replace_or_append c out) ≡ true
unfolding distinct_jids replace_or_append has_jid
replace_or_append-distinct c [] h = refl
replace_or_append-distinct c (old ∷ out) h = elim (Bool-cases (text_eq old.jid c.jid)) [
  | inl e ↦
      let same : old.jid ≡ c.jid = (text_eq_iff old.jid c.jid).0 e in
      elim (Bool-cases (should_replace old c)) [ inl r ↦ rw (e, r, ← same) h | inr r ↦ rw (e, r) h ]
  | inr e ↦
      let kept = has_jid-other old.jid c out (text_eq-other old.jid c.jid e) in
      let rest : distinct_jids out ≡ true = ground arith in
      rw (e, kept, replace_or_append-distinct c out rest) ground arith
]

add-distinct :
    (c : Candidate) (out : List Candidate)
    → distinct_jids out ≡ true
    → distinct_jids (add c out) ≡ true
unfolding add
add-distinct c out h = elim (Bool-cases (text_eq (trim_space c.jid) [] || (c.score == 0))) [
  | inl e ↦ rw e h
  | inr e ↦ rw e (replace_or_append-distinct c out h)
]

pub add_all-distinct :
    (cs out : List Candidate) → distinct_jids out ≡ true → distinct_jids (add_all cs out) ≡ true
unfolding add_all
add_all-distinct [] out h = h
add_all-distinct (c ∷ cs) out h = add_all-distinct cs (add c out) (add-distinct c out h)

replace_or_append-holds :
    (c : Candidate) (out : List Candidate) → holds_as_good c (replace_or_append c out) ≡ true
unfolding holds_as_good replace_or_append
replace_or_append-holds c [] = rw (text_eq_refl c.jid, should_replace_irrefl c) refl
replace_or_append-holds c (old ∷ out) = elim (Bool-cases (text_eq old.jid c.jid)) [
  | inl e ↦ elim (Bool-cases (should_replace old c)) [
    | inl r ↦ rw (e, r, text_eq_refl c.jid, should_replace_irrefl c) refl
    | inr r ↦ rw (e, r, e, r) refl
  ]
  | inr e ↦ rw (e, replace_or_append-holds c out) ground arith
]

replace_or_append-keeps :
    (x c : Candidate) (out : List Candidate)
    → holds_as_good x out ≡ true
    → holds_as_good x (replace_or_append c out) ≡ true
unfolding holds_as_good replace_or_append
replace_or_append-keeps x c [] h = absurd cc
replace_or_append-keeps x c (old ∷ out) h = elim (Bool-cases (text_eq old.jid c.jid)) [
  | inl e ↦
      let same : old.jid ≡ c.jid = (text_eq_iff old.jid c.jid).0 e in
      elim (Bool-cases (should_replace old c)) [
        | inl r ↦ rw (e, r, ← same) ground (arith, should_replace_keeps old c x r)
        | inr r ↦ rw (e, r) h
      ]
  | inr e ↦ rw e ground (arith, replace_or_append-keeps x c out)
]

-- What `add` lets in: a JID that is not blank, and a score.
abbrev pub is_admitted : Candidate → Bool
is_admitted c = not (text_eq (trim_space c.jid) [] || (c.score == 0))

add-keeps :
    (x c : Candidate) (out : List Candidate)
    → holds_as_good x out ≡ true
    → holds_as_good x (add c out) ≡ true
unfolding add
add-keeps x c out h = elim (Bool-cases (text_eq (trim_space c.jid) [] || (c.score == 0))) [
  | inl e ↦ rw e h
  | inr e ↦ rw e (replace_or_append-keeps x c out h)
]

add-holds :
    (c : Candidate) (out : List Candidate)
    → is_admitted c ≡ true
    → holds_as_good c (add c out) ≡ true
unfolding add
add-holds c out h = elim (Bool-cases (text_eq (trim_space c.jid) [] || (c.score == 0))) [
  | inl e ↦ absurd (false_true (rw e at h))
  | inr e ↦ rw e (replace_or_append-holds c out)
]
  where
    false_true : false ≡ true → ⊥
    false_true e = cc

add_all-keeps :
    (x : Candidate) (cs out : List Candidate)
    → holds_as_good x out ≡ true
    → holds_as_good x (add_all cs out) ≡ true
unfolding add_all
add_all-keeps x [] out h = h
add_all-keeps x (c ∷ cs) out h = add_all-keeps x cs (add c out) (add-keeps x c out h)

-- Adding candidates keeps one per JID, if there was one per JID before, and for every candidate added
-- whose JID is not blank and whose score is not 0, one of its JID that it would not replace.
pub add_all_lem :
    (cs out : List Candidate)
    → distinct_jids out ≡ true
    → (distinct_jids (add_all cs out) ≡ true)
      × All (λ c. is_admitted c ≡ true → holds_as_good c (add_all cs out) ≡ true) cs
unfolding add_all
add_all_lem cs out h = (add_all-distinct cs out h, holds cs out)
  where
    holds :
        (ds os : List Candidate)
        → All (λ c. is_admitted c ≡ true → holds_as_good c (add_all ds os) ≡ true) ds
    holds [] os = tt
    holds (d ∷ ds) os =
        (λ admitted. add_all-keeps d ds (add d os) (add-holds d os admitted), holds ds (add d os))
