-- ===== src/Regex/Meaning.antt =====
-- What an expression means, without a matcher; the matcher decides it (Sound, Complete).
use storage_bot.Base.{ℕ, ◌≡◌, refl, ◌⊎◌, inl, inr, ◌↔◌, true, List, [], ◌∷◌, ◌++◌, Text, In, All}
use storage_bot.Regex.{
  Re, empty, word_edge, line_begin, line_end, text_begin, text_end, one, many, seq, alt, group,
  Place, holds,
}

-- A word put behind the bytes that are read already.
abbrev pub back : Text → Text → Text
back [] b = b
back (x ∷ w) b = back w (x ∷ b)

-- `Means r b w a`: `r` matches the word `w` that stands between the bytes `b`, last one first,
-- and `a`.
abbrev pub Means : Re → Text → Text → Text → Type 0
Means empty b w a = w ≡ []
Means (one c) b w a = (x : ℕ) × (w ≡ x ∷ []) × (c x ≡ true)
Means (many c) b w a = All (λ x. c x ≡ true) w
Means (seq r s) b w a =
    (u : Text) × (v : Text) × (w ≡ u ++ v) × Means r b u (v ++ a) × Means s (back u b) v a
Means (alt r s) b w a = Means r b w a ⊎ Means s b w a
Means (group n r) b w a = Means r b w a
Means word_edge b w a = (w ≡ []) × (holds word_edge b a ≡ true)
Means line_begin b w a = (w ≡ []) × (holds line_begin b a ≡ true)
Means line_end b w a = (w ≡ []) × (holds line_end b a ≡ true)
Means text_begin b w a = (w ≡ []) × (holds text_begin b a ≡ true)
Means text_end b w a = (w ≡ []) × (holds text_end b a ≡ true)

-- `r` matches somewhere in the text.
abbrev pub Occurs : Re → Text → Type 0
Occurs r s =
    (pre : Text) × (w : Text) × (post : Text) × (s ≡ pre ++ (w ++ post))
    × Means r (back pre []) w post

-- The place `q` is reached from `p` by reading a word that `r` means.
abbrev pub Reached : Re → Place → Place → Type 0
Reached r p q =
    (w : Text) × (p.after ≡ w ++ q.after)
    × (q.before ≡ back w p.before)
    × Means r p.before w q.after

pub back-append : (u v b : Text) → back (u ++ v) b ≡ back v (back u b)
back-append [] v b = refl
back-append (x ∷ u) v b = back-append u v (x ∷ b)

pub In-append : {A : Type 0} (x : A) (xs ys : List A) → In x (xs ++ ys) ↔ (In x xs ⊎ In x ys)
In-append x [] ys = (λ h. inr h, λ h. elim h [ inl e ↦ absurd e | inr e ↦ e ])
In-append x (y ∷ xs) ys = (
  λ h. elim h [
    | inl e ↦ inl (inl e)
    | inr e ↦ elim ((In-append x xs ys).0 e) [ inl k ↦ inl (inr k) | inr k ↦ inr k ]
  ],
  λ h. elim h [
    | inl k ↦ elim k [ inl e ↦ inl e | inr e ↦ inr ((In-append x xs ys).1 (inl e)) ]
    | inr k ↦ inr ((In-append x xs ys).1 (inr k))
  ],
)
