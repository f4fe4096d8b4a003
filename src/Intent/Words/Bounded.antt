-- ===== src/Intent/Words/Bounded.antt =====
-- A name is found where it stands as a word.
use storage_bot.Base.{
  ◌≡◌, ◌↔◌, refl, sym, ap, ◌∙◌, subst, inl, inr, Bool, true, not, ◌&&◌, [], ◌∷◌, ◌++◌, arith, Text,
  Bool-cases, has_prefix, has_prefix_iff, drop, length,
}
use storage_bot.Intent.Words.{is_name_char, clear_start, word_from, contains_word}

-- The text does not end in a character of a name; `clear` stands for the empty text.
pub clear_end : Bool → Text → Bool
clear_end clear [] = clear
clear_end clear (c ∷ s) = clear_end (not (is_name_char c)) s

-- The name stands in the message with no character of a name on either side.
abbrev pub Stands : Bool → Text → Text → Type 0
Stands clear name s =
    (before : Text) × (after : Text) × (s ≡ before ++ (name ++ after))
    × (clear_end clear before ≡ true)
    × (clear_start after ≡ true)

drop-prefix : (p r : Text) → drop (length p) (p ++ r) ≡ r
drop-prefix [] r = refl
drop-prefix (c ∷ p) r = drop-prefix p r

word_from-Stands :
    (clear : Bool) (name s : Text) → word_from clear name s ≡ true → Stands clear name s
unfolding word_from clear_end
word_from-Stands clear name [] h = cc
word_from-Stands clear name (c ∷ s) h =
    elim (Bool-cases
      (clear && has_prefix (c ∷ s) name && clear_start (drop (length name) (c ∷ s)))) [
        | inl k ↦
            let (rest, e) = (has_prefix_iff (c ∷ s) name).0 (ground arith) in
            let right : clear_start (drop (length name) (c ∷ s)) ≡ true = ground arith in
            (
              [],
              rest,
              e,
              ground arith,
              subst (λ t. clear_start t ≡ true) (ap (drop (length name)) e ∙ drop-prefix name rest)
                  right,
            )
        | inr k ↦
            let (before, after, e, l, r) =
              word_from-Stands (not (is_name_char c)) name s (ground arith) in
            (c ∷ before, after, ap (◌∷◌ c) e, l, r)
      ]

Stands-word_from :
    (clear : Bool) (c : _) (name before after : Text)
    → clear_end clear before ≡ true
    → clear_start after ≡ true
    → word_from clear (c ∷ name) (before ++ ((c ∷ name) ++ after)) ≡ true
unfolding word_from clear_end
Stands-word_from clear c name [] after l r =
    let p : has_prefix ((c ∷ name) ++ after) (c ∷ name) ≡ true =
      (has_prefix_iff ((c ∷ name) ++ after) (c ∷ name)).1 (after, refl) in
    let q : clear_start (drop (length (c ∷ name)) ((c ∷ name) ++ after)) ≡ true =
      subst (λ t. clear_start t ≡ true) (sym (drop-prefix (c ∷ name) after)) r in
    rw (l, p, q) refl
Stands-word_from clear c name (b ∷ before) after l r =
    let later = Stands-word_from (not (is_name_char b)) c name before after l r in ground arith

-- A name is found in a message exactly where it is not empty and stands between the message's ends or
-- characters that are no part of a name.
pub contains_word_iff :
    (s name : Text) → (contains_word s name ≡ true) ↔ ((name ≡ [] → ⊥) × Stands true name s)
unfolding contains_word
contains_word_iff s [] = (λ h. cc, λ (n, k). absurd (n refl))
contains_word_iff s (c ∷ name) = (
  λ h. (λ e. cc, word_from-Stands true (c ∷ name) s h),
  λ (n, k).
      let (before, after, e, l, r) = k in
      ap (word_from true (c ∷ name)) e ∙ Stands-word_from true c name before after l r,
)
