-- ===== src/Resolve/Phone.antt =====
-- Phone numbers typed by hand: LooksLikePhone and NormalizePhone of internal/resolve/resolve.go.
use wacli.Common.{
  Bool-cases, All, Text, trim_space, ◌≡◌, ◌≢◌, inl, inr, Bool, true, false, ◌&&◌, [], ◌∷◌, arith,
}
use wacli.Resolve.{is_digit, phone_chars, looks_like_phone, digits, normalize_phone}

digits-All : (s : Text) → All (λ r. is_digit r ≡ true) (digits s)
unfolding digits
digits-All [] = tt
digits-All (r ∷ s) = elim (Bool-cases (is_digit r)) [
  | inl e ↦ rw e (e, digits-All s)
  | inr e ↦ rw e (digits-All s)
]

-- A text that the loop accepts with no digit read yet has one.
phone_chars-digits : (first : Bool) (s : Text) → phone_chars first false s ≡ true → digits s ≢ []
unfolding phone_chars digits
phone_chars-digits first [] h = absurd cc
phone_chars-digits first (r ∷ s) h = elim (Bool-cases (is_digit r)) [
  | inl e ↦ rw e (λ n. cc)
  | inr e ↦ rw e (phone_chars-digits false s (and_right _ _ (rw (e, phone_chars) at h)))
]
  where
    and_right : (b c : Bool) → (b && c) ≡ true → c ≡ true
    and_right b c k = ground arith

-- NormalizePhone keeps digits only, and where LooksLikePhone accepts the input it keeps one at least.
pub normalize_phone_lem :
    (input : Text)
    → All (λ r. is_digit r ≡ true) (normalize_phone input)
      × (looks_like_phone input ≡ true → normalize_phone input ≢ [])
unfolding normalize_phone looks_like_phone
normalize_phone_lem input =
    (digits-All (trim_space input), λ h. phone_chars-digits true (trim_space input) (ground arith))
