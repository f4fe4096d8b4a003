-- ===== src/Storage/Path/Render.antt =====
-- normalizeQuotaPath renders the components of its path.
use storage_bot.Base.{
  ℕ, ◌≡◌, refl, sym, ap, ◌∙◌, inl, inr, false, List, [], ◌∷◌, Text, text_eq, if◌then◌else◌,
  has_prefix, split_at, join, trim_space, All, Bool-cases,
}
use storage_bot.Storage.Path.{parts, render, clean, resolve, step, normalize_quota_path}
use storage_bot.Storage.Path.Parts.{IsName, parts-IsName, parts_slash, parts-render}

-- The components of a path that the user or the server gives, white space at its ends left out.
unfoldable pub components : Text → List Text
components p = parts (trim_space p)

pub components-IsName : (p : Text) → All IsName (components p)
unfolding components
components-IsName p = parts-IsName (trim_space p)

render-ne-dot : (cs : List Text) → text_eq (render cs) (b'.' ∷ []) ≡ false
unfolding render text_eq
render-ne-dot cs = refl

normalize_rooted :
    (c : ℕ) (s : Text)
    → clean (if has_prefix (c ∷ s) (b'/' ∷ []) then c ∷ s else b'/' ∷ c ∷ s)
      ≡ render (parts (c ∷ s))
unfolding clean
normalize_rooted c s = elim (Bool-cases (has_prefix (c ∷ s) (b'/' ∷ []))) [
  | inl e ↦ rw e
  | inr e ↦ rw e (ap render (parts_slash (c ∷ s)))
]

render-parts-nil : render (parts []) ≡ b'/' ∷ []
unfolding render parts resolve step split_at text_eq join
render-parts-nil = refl

pub normalize-render : (p : Text) → normalize_quota_path p ≡ render (components p)
unfolding normalize_quota_path components
normalize-render p = go (trim_space p)
  where
    go :
        (t : Text)
        → (elim t as (λ _. Text) [
          | [] ↦ b'/' ∷ []
          | c ∷ s ↦
              let rooted : Text = if has_prefix (c ∷ s) (b'/' ∷ []) then c ∷ s else b'/' ∷ c ∷ s in
              let cleaned = clean rooted in
              if text_eq cleaned (b'.' ∷ []) then b'/' ∷ [] else cleaned
        ])
          ≡ render (parts t)
    go [] = sym render-parts-nil
    go (c ∷ s) = rw (normalize_rooted c s, render-ne-dot (parts (c ∷ s)))

-- Cleaning the normalised path again changes nothing, and its components are those of the path.
pub parts-normalize : (p : Text) → parts (normalize_quota_path p) ≡ components p
parts-normalize p =
    ap parts (normalize-render p) ∙ parts-render (components p) (components-IsName p)
