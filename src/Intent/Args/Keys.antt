-- ===== src/Intent/Args/Keys.antt =====
-- The keys of the parameters that are read from a message.
use storage_bot.Base.{
  ◌≡◌, refl, sym, ◌∙◌, subst, inl, inr, false, List, [], ◌∷◌, Text, Option, none, some, Bool-cases,
  text_eq, text_eq_iff, All,
}
use storage_bot.Regex.{find}
use storage_bot.Skill.Context.{arg}
use storage_bot.Cluster.Nodes.{put}
use storage_bot.Intent.Args.{
  equals_re, number_of, set_number, first_number_of, args_from, extract_skill_args,
}

-- A write under another key is not seen.
pub arg-put :
    (m : List (Text × Text)) (k v key : Text)
    → text_eq k key ≡ false
    → arg (put m k v) key ≡ arg m key
unfolding arg put
arg-put [] k v key h = rw h refl
arg-put ((j, u) ∷ m) k v key h = elim (Bool-cases (text_eq j k)) [
  | inl e ↦
      let same = (text_eq_iff j k).0 e in
      let other : text_eq j key ≡ false = subst (λ x. text_eq x key ≡ false) (sym same) h in
      rw (e, other) refl
  | inr e ↦
      rw e (elim (Bool-cases (text_eq j key)) [
        | inl d ↦ rw d refl
        | inr d ↦ rw d (arg-put m k v key h)
      ])
]

arg-set_number :
    (args : List (Text × Text)) (p : Text) (o : Option Text) (key : Text)
    → text_eq p key ≡ false
    → arg (set_number args p o) key ≡ arg args key
unfolding set_number
arg-set_number args p none key h = refl
arg-set_number args p (some n) key h = arg-put args p n key h

arg-args_from :
    (args : List (Text × Text)) (lower : Text) (ps : List Text) (key : Text)
    → All (λ p. text_eq p key ≡ false) ps
    → arg (args_from args lower ps) key ≡ arg args key
unfolding args_from
arg-args_from args lower [] key h = refl
arg-args_from args lower (p ∷ ps) key (h, hs) =
    arg-args_from
      (set_number args p (first_number_of lower p (number_of (find (equals_re p) lower)))) lower ps
      key hs
    ∙ arg-set_number args p (first_number_of lower p (number_of (find (equals_re p) lower))) key h

pub arg-extract_skill_args :
    (lower : Text) (ps : List Text) (key : Text)
    → All (λ p. text_eq p key ≡ false) ps
    → arg (extract_skill_args lower ps) key ≡ []
unfolding extract_skill_args arg
arg-extract_skill_args lower ps key h = arg-args_from [] lower ps key h
