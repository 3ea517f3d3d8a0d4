-- ===== src/Lookup/Prefix.antt =====
-- `prefix_match` of source_codes/stardictd/src/lib/stddict.cpp: how many characters two words have
-- in common, case folded. glib's UTF-8 and Unicode functions are parameters.
use stardictd.Base.{
  ℕ, zero, suc, ◌+◌, ◌≤◌, ◌<◌, Bool, false, not, ◌&&◌, [], ◌∷◌, ◌≡◌, refl, arith, Bytes, length,
  ◌==◌, if◌then◌else◌, sym, ◌∙◌,
}

-- `g_utf8_get_char`, `g_utf8_next_char` and `g_unichar_tolower`, over the bytes up to the
-- terminator.
pub record Unicode : Type 0 where
  pub get_char : Bytes → ℕ
  pub next_char : Bytes → Bytes
  pub to_lower : ℕ → ℕ

-- The documented behaviour that is used: only the end of the text reads as 0, a character takes at
-- least one byte, and only 0 is 0 in lower case.
pub record IsUnicode (u : Unicode) : Type 0 where
  pub end_is_zero : u.get_char [] ≡ 0
  pub next_shorter : (c : ℕ) (s : Bytes) → length (u.next_char (c ∷ s)) ≤ length s
  pub lower_zero : u.to_lower 0 ≡ 0
  pub lower_ne_zero : (c : ℕ) → u.to_lower c ≡ 0 → c ≡ 0

module _ (u : Unicode) where
  abbrev same_char : Bytes → Bytes → Bool
  same_char s1 s2 =
      not (u.get_char s1 == 0) && u.to_lower (u.get_char s1) == u.to_lower (u.get_char s2)

  -- The `do … while`, after `ret` rounds. The fuel is more than the bytes of the first word, and is
  -- never used up.
  unfoldable pub match_loop : ℕ → ℕ → Bytes → Bytes → ℕ
  match_loop zero ret s1 s2 = ret
  match_loop (suc fuel) ret s1 s2 =
      let more = match_loop fuel (ret + 1) (u.next_char s1) (u.next_char s2) in
      if same_char s1 s2 then more else ret

  unfoldable pub prefix_match : Bytes → Bytes → ℕ
  unfolding match_loop
  prefix_match s1 s2 = match_loop (length s1 + 1) 0 s1 s2

  module _ (law : IsUnicode u) where
    same_char-nil : (s2 : Bytes) → same_char [] s2 ≡ false
    same_char-nil s2 = ground (arith, law.end_is_zero)

    match_loop_fuel :
        (fuel more ret : ℕ) (s1 s2 : Bytes)
        → length s1 < fuel
        → length s1 < more
        → match_loop fuel ret s1 s2 ≡ match_loop more ret s1 s2
    unfolding match_loop
    match_loop_fuel zero more ret s1 s2 h k = absurd (omega arith)
    match_loop_fuel (suc fuel) zero ret s1 s2 h k = absurd (omega arith)
    match_loop_fuel (suc fuel) (suc more) ret [] s2 h k = rw same_char-nil
    match_loop_fuel (suc fuel) (suc more) ret (c ∷ s1) s2 h k =
        let shorter = law.next_shorter c s1 in
        let same =
          match_loop_fuel fuel more (ret + 1) (u.next_char (c ∷ s1)) (u.next_char s2) (omega arith)
            (omega arith) in
        rw same

    -- Under the laws of the Unicode functions, any fuel above the length of the first word gives the
    -- same count: the loop ends by its test.
    pub prefix_match_fuel :
        (fuel : ℕ) (s1 s2 : Bytes) → length s1 < fuel → match_loop fuel 0 s1 s2 ≡ prefix_match s1 s2
    unfolding prefix_match
    prefix_match_fuel fuel s1 s2 h = match_loop_fuel fuel (length s1 + 1) 0 s1 s2 h (omega arith)

    same_char_comm : (s1 s2 : Bytes) → same_char s1 s2 ≡ same_char s2 s1
    same_char_comm s1 s2 = ground (
      arith,
      law.lower_zero,
      law.lower_ne_zero (u.get_char s1),
      law.lower_ne_zero (u.get_char s2),
    )

    match_loop_comm :
        (fuel ret : ℕ) (s1 s2 : Bytes) → match_loop fuel ret s1 s2 ≡ match_loop fuel ret s2 s1
    unfolding match_loop
    match_loop_comm zero ret s1 s2 = refl
    match_loop_comm (suc fuel) ret s1 s2 =
        rw (match_loop_comm fuel (ret + 1) (u.next_char s1) (u.next_char s2), same_char_comm s1 s2)

    -- Under the laws of the Unicode functions, the count does not depend on which of the two words
    -- comes first.
    pub prefix_match_comm : (s1 s2 : Bytes) → prefix_match s1 s2 ≡ prefix_match s2 s1
    prefix_match_comm s1 s2 =
        let fuel = length s1 + length s2 + 1 in
        sym (prefix_match_fuel fuel s1 s2 (omega arith))
        ∙ match_loop_comm fuel 0 s1 s2
        ∙ prefix_match_fuel fuel s2 s1 (omega arith)
