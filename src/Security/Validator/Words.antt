-- ===== src/Security/Validator/Words.antt =====
-- The bare words of the dangerous patterns: a command that holds one as a word is blocked, in either
-- case of its letters.
use storage_bot.Base.{
  ℕ, ◌≡◌, ◌≢◌, refl, sym, subst, true, false, none, List, [], ◌∷◌, ◌++◌, map, append-nil, ◌<◌,
  length, get_or, arith, Text, lit, to_lower, lower_byte, trim_space, In, All, All-In, In-get_or,
  ◌≤◌,
}
use storage_bot.Regex.{empty, is_word, holds, word_edge}
use storage_bot.Regex.Meaning.{Occurs, Means, back}
use storage_bot.Security.Patterns.{Pattern, dangerous_patterns, bare_word, either_case}
use storage_bot.Security.Validator.{validate_command}
use storage_bot.Security.Validator.Laws.{validate_command_iff}

-- No word goes on at the head of the text.
abbrev pub IsApart : Text → Type 0
IsApart [] = Unit
IsApart (c ∷ s) = is_word c ≡ false

abbrev IsLower : ℕ → Type 0
IsLower c = (b'a' ≤ c) × (c ≤ b'z')

either_case-Means : (w u b a : Text) → to_lower u ≡ w → Means (either_case w) b u a
unfolding either_case to_lower
either_case-Means [] [] b a h = refl
either_case-Means [] (x ∷ u) b a h = cc
either_case-Means (c ∷ w) [] b a h = cc
either_case-Means (c ∷ w) (x ∷ u) b a h =
    (x ∷ [], u, refl, (x, refl, ground arith), either_case-Means w u (x ∷ b) a (cc))

-- A byte whose lower case is a letter is part of a word.
is_word_of_lower : (x c : ℕ) → lower_byte x ≡ c → IsLower c → is_word x ≡ true
unfolding lower_byte
is_word_of_lower x c h k = ground arith

edge_before : (x : ℕ) (b u : Text) → is_word x ≡ true → IsApart b → holds word_edge b (x ∷ u) ≡ true
edge_before x [] u h k = h
edge_before x (c ∷ b) u h k = rw (k, h)

edge_after :
    (w u b a : Text) (x c : ℕ)
    → to_lower (x ∷ u) ≡ c ∷ w
    → All IsLower (c ∷ w)
    → IsApart a
    → holds word_edge (back (x ∷ u) b) a ≡ true
unfolding to_lower
edge_after w [] b [] x c h (k, _) t = let e = is_word_of_lower x c (cc) k in rw e
edge_after w [] b (d ∷ a) x c h (k, _) t = let e = is_word_of_lower x c (cc) k in rw (e, t)
edge_after [] (y ∷ u) b a x c h k t = cc
edge_after (d ∷ w) (y ∷ u) b a x c h (_, k) t = edge_after w u (x ∷ b) a y d (cc) k t

lower_nil : (c : ℕ) (w : Text) → to_lower [] ≡ c ∷ w → ⊥
unfolding to_lower
lower_nil c w h = cc

head_eq : (x c : ℕ) (u w : Text) → to_lower (x ∷ u) ≡ c ∷ w → lower_byte x ≡ c
unfolding to_lower
head_eq x c u w h = cc

abbrev no_pattern : Pattern
no_pattern = record { source = []; re = empty }

bare_word-Occurs :
    (w pre u post : Text)
    → w ≢ []
    → All IsLower w
    → to_lower u ≡ w
    → IsApart (back pre [])
    → IsApart post
    → Occurs (bare_word w) (pre ++ (u ++ post))
unfolding bare_word
bare_word-Occurs [] pre u post ne k h l r = absurd (ne refl)
bare_word-Occurs (c ∷ w) pre [] post ne k h l r = absurd (lower_nil c w h)
bare_word-Occurs (c ∷ w) pre (x ∷ u) post ne k h l r =
    let here : is_word x ≡ true = is_word_of_lower x c (head_eq x c u w h) k.0 in
    (
      pre,
      x ∷ u,
      post,
      refl,
      (
        [],
        x ∷ u,
        refl,
        (refl, edge_before x (back pre []) (u ++ post) here l),
        (
          x ∷ u,
          [],
          sym (append-nil (x ∷ u)),
          either_case-Means (c ∷ w) (x ∷ u) (back pre []) post h,
          (refl, edge_after w u (back pre []) post x c h k r),
        ),
      ),
    )

unfoldable pub bare_words : List Text
bare_words = map lit (
    "mkfs" ∷ "format" ∷ "shutdown" ∷ "reboot" ∷ "halt" ∷ "poweroff" ∷ "killall" ∷ "pkill"
    ∷ "useradd" ∷ "userdel" ∷ "passwd" ∷ "eval" ∷ [])

-- A word of lower case letters that some dangerous pattern asks for alone.
record IsListed (w : Text) : Type 0 where
  position : ℕ
  inside : position < length dangerous_patterns
  pattern_is : (get_or dangerous_patterns position no_pattern).re ≡ bare_word w
  not_empty : w ≢ []
  letters_only : All IsLower w

IsListed-at :
    (k : ℕ) (w : Text)
    → k < length dangerous_patterns
    → (get_or dangerous_patterns k no_pattern).re ≡ bare_word w
    → w ≢ []
    → All IsLower w
    → IsListed w
IsListed-at k w h e n l = record {
  position = k;
  inside = h;
  pattern_is = e;
  not_empty = n;
  letters_only = l;
}

listed : All IsListed bare_words
unfolding bare_words dangerous_patterns lit
listed = (
  IsListed-at 3 _ (omega arith) refl (cc) (omega arith),
  (
    IsListed-at 5 _ (omega arith) refl (cc) (omega arith),
    (
      IsListed-at 7 _ (omega arith) refl (cc) (omega arith),
      (
        IsListed-at 8 _ (omega arith) refl (cc) (omega arith),
        (
          IsListed-at 9 _ (omega arith) refl (cc) (omega arith),
          (
            IsListed-at 11 _ (omega arith) refl (cc) (omega arith),
            (
              IsListed-at 14 _ (omega arith) refl (cc) (omega arith),
              (
                IsListed-at 15 _ (omega arith) refl (cc) (omega arith),
                (
                  IsListed-at 18 _ (omega arith) refl (cc) (omega arith),
                  (
                    IsListed-at 19 _ (omega arith) refl (cc) (omega arith),
                    (
                      IsListed-at 20 _ (omega arith) refl (cc) (omega arith),
                      (IsListed-at 25 _ (omega arith) refl (cc) (omega arith), tt),
                    ),
                  ),
                ),
              ),
            ),
          ),
        ),
      ),
    ),
  ),
)

-- A command is blocked if one of the bare words stands in what is left of it without the white
-- space at its ends, in any case of its letters, with no byte of a word next to it on either side.
pub bare_word_blocked :
    (w cmd pre u post : Text)
    → In w bare_words
    → trim_space cmd ≡ pre ++ (u ++ post)
    → to_lower u ≡ w
    → IsApart (back pre [])
    → IsApart post
    → validate_command cmd ≢ none
bare_word_blocked w cmd pre u post m e h l r ok =
    let it = All-In IsListed bare_words w listed m in
    let (_, clear) = (validate_command_iff cmd).0 ok in
    let p = get_or dangerous_patterns it.position no_pattern in
    let miss : ¬ Occurs p.re (trim_space cmd) =
      All-In (λ q. ¬ Occurs q.re (trim_space cmd)) dangerous_patterns p clear
        (In-get_or dangerous_patterns it.position no_pattern it.inside) in
    miss (
      subst (λ r. Occurs r (trim_space cmd)) (sym it.pattern_is)
        (subst (Occurs (bare_word w)) (sym e)
          (bare_word-Occurs w pre u post it.not_empty it.letters_only h l r)))
