-- ===== src/Chats/Mute.antt =====
-- The end of a mute, of internal/app/chat_state.go, and the filter on it of internal/store/chats.go. A
-- mute that does not end is -1, no mute 0; durations and the clock are in nanoseconds.
use wacli.Common.{
  ltb, leb, ◌==◌, if◌then◌else◌, Bool-cases, ℕ, ◌+◌, ◌/◌, ◌≡◌, refl, inl, inr, Bool, true, false,
  not, ◌&&◌, ◌||◌, Option, none, some, arith,
}
use wacli.Common.Int.{ℤ, pos, negsuc}

abbrev second_ns : ℕ
second_ns = 1000000000

-- The action's mute flag and the end of the mute in milliseconds; no action is none.
-- `mutedUntilFromAction`
unfoldable pub muted_until_from_action : Option (Bool × ℤ) → ℤ
muted_until_from_action none = pos 0
muted_until_from_action (some (false, ms)) = pos 0
muted_until_from_action (some (true, negsuc n)) = negsuc 0
muted_until_from_action (some (true, pos ms)) = if ltb 0 ms then pos (ms / 1000) else negsuc 0

-- `mutedUntilUnix`
unfoldable pub muted_until_unix : Bool → ℤ → ℕ → ℤ
muted_until_unix false duration base = pos 0
muted_until_unix true (negsuc n) base = negsuc 0
muted_until_unix true (pos duration) base =
    if duration == 0 then negsuc 0 else pos ((base + duration) / second_ns)

-- The two sides of the filter Muted of ListChatsFiltered, at `now` in seconds.
unfoldable pub is_muted : ℕ → ℤ → Bool
is_muted now (negsuc n) = n == 0
is_muted now (pos t) = ltb now t

unfoldable pub is_not_muted : ℕ → ℤ → Bool
is_not_muted now (negsuc n) = false
is_not_muted now (pos t) = (t == 0) || (ltb 0 t && leb t now)

lists-pos : (now t : ℕ) → is_not_muted now (pos t) ≡ not (is_muted now (pos t))
unfolding is_muted is_not_muted
lists-pos now t = ground arith

Parted : ℕ → ℤ → Type 0
Parted now v = is_not_muted now v ≡ not (is_muted now v)

lists-unix :
    (mute : Bool) (duration : ℤ) (base now : ℕ) → Parted now (muted_until_unix mute duration base)
unfolding muted_until_unix is_muted is_not_muted Parted
lists-unix false duration base now = lists-pos now 0
lists-unix true (negsuc n) base now = refl
lists-unix true (pos duration) base now = elim (Bool-cases (duration == 0)) [
  | inl y ↦ rw y refl
  | inr n ↦ rw n (lists-pos now ((base + duration) / second_ns))
]

lists-action : (action : Option (Bool × ℤ)) (now : ℕ) → Parted now (muted_until_from_action action)
unfolding muted_until_from_action is_muted is_not_muted Parted
lists-action none now = lists-pos now 0
lists-action (some (false, ms)) now = lists-pos now 0
lists-action (some (true, negsuc n)) now = refl
lists-action (some (true, pos ms)) now = elim (Bool-cases (ltb 0 ms)) [
  | inl y ↦ rw y (lists-pos now (ms / 1000))
  | inr n ↦ rw n refl
]

-- A chat muted from an action or by a command is listed as muted or as not muted, and never
-- as both.
pub muted_lists :
    (mute : Bool) (duration : ℤ) (action : Option (Bool × ℤ)) (base now : ℕ)
    → (is_not_muted now (muted_until_unix mute duration base)
        ≡ not (is_muted now (muted_until_unix mute duration base)))
      × (is_not_muted now (muted_until_from_action action)
          ≡ not (is_muted now (muted_until_from_action action)))
unfolding Parted
muted_lists mute duration action base now =
    (lists-unix mute duration base now, lists-action action now)
