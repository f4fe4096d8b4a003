-- ===== src/Storage/Path/Parts.antt =====
-- The components of a path: what they look like, and that rendering and reading them back is the
-- identity.
use storage_bot.Base.{
  ℕ, ◌≡◌, ◌≢◌, refl, sym, ap, ◌∙◌, inl, inr, false, ◌||◌, List, [], ◌∷◌, ◌++◌, append_assoc,
  append-nil, reverse, arith, Text, text_eq, text_eq_iff, split_at, join, All, All-reverse, ◌==◌,
  Bool-cases,
}
use mathlib.Core.List.{reverse-append}
use storage_bot.Storage.Path.{parts, render, pop, step, resolve}

abbrev pub Lacks : ℕ → Text → Type 0
Lacks b = All (λ c. c ≢ b)

-- A component that Clean keeps.
pub record IsName (c : Text) : Type 0 where
  pub not_empty : c ≢ []
  pub not_dot : c ≢ b'.' ∷ []
  pub not_up : c ≢ b'.' ∷ b'.' ∷ []
  pub no_slash : Lacks b'/' c

reverse-cons-append : (x : ℕ) (s t : Text) → reverse (x ∷ s) ++ t ≡ reverse s ++ x ∷ t
reverse-cons-append x s t =
    ap (λ r. r ++ t) (reverse-append (x ∷ []) s) ∙ append_assoc (reverse s) (x ∷ []) t

split_at_sep :
    (u cur rest : Text)
    → Lacks b'/' u
    → split_at b'/' cur (u ++ b'/' ∷ rest) ≡ (reverse cur ++ u) ∷ split_at b'/' [] rest
unfolding split_at
split_at_sep [] cur rest h = ap (λ t. t ∷ split_at b'/' [] rest) (sym (append-nil (reverse cur)))
split_at_sep (x ∷ u) cur rest (n, h) =
    ground (arith, split_at_sep u (x ∷ cur) rest h, reverse-cons-append x cur u)

split_at_end : (u cur : Text) → Lacks b'/' u → split_at b'/' cur u ≡ (reverse cur ++ u) ∷ []
unfolding split_at
split_at_end [] cur h = ap (λ t. t ∷ []) (sym (append-nil (reverse cur)))
split_at_end (x ∷ u) cur (n, h) =
    ground (arith, split_at_end u (x ∷ cur) h, reverse-cons-append x cur u)

split_at-Lacks : (cur s : Text) → Lacks b'/' cur → All (Lacks b'/') (split_at b'/' cur s)
unfolding split_at
split_at-Lacks cur [] h = (All-reverse (λ c. c ≢ b'/') cur h, tt)
split_at-Lacks cur (x ∷ s) h = elim (Bool-cases (x == b'/')) [
  | inl e ↦ rw (e, All) (All-reverse (λ c. c ≢ b'/') cur h, split_at-Lacks [] s tt)
  | inr e ↦ rw (e, All) (split_at-Lacks (x ∷ cur) s (ground arith, h))
]

pop-IsName : (stack : List Text) → All IsName stack → All IsName (pop stack)
unfolding pop
pop-IsName [] h = tt
pop-IsName (q ∷ stack) (k, h) = h

step-IsName :
    (stack : List Text) (p : Text) → All IsName stack → Lacks b'/' p → All IsName (step stack p)
unfolding step
step-IsName stack p h l = elim (Bool-cases (text_eq p [] || text_eq p (b'.' ∷ []))) [
  | inl skip ↦ rw skip h
  | inr kept ↦ rw kept (elim (Bool-cases (text_eq p (b'.' ∷ b'.' ∷ []))) [
    | inl up ↦ rw up (pop-IsName stack h)
    | inr name ↦ rw name (name_of kept name, h)
  ])
]
  where
    name_of :
        (text_eq p [] || text_eq p (b'.' ∷ [])) ≡ false
        → text_eq p (b'.' ∷ b'.' ∷ []) ≡ false
        → IsName p
    name_of kept name = record {
      not_empty = ground (arith, text_eq_iff p []);
      not_dot = ground (arith, text_eq_iff p (b'.' ∷ []));
      not_up = ground (arith, text_eq_iff p (b'.' ∷ b'.' ∷ []));
      no_slash = l;
    }

resolve-IsName :
    (ps stack : List Text) → All IsName stack → All (Lacks b'/') ps → All IsName (resolve stack ps)
unfolding resolve
resolve-IsName [] stack h l = All-reverse IsName stack h
resolve-IsName (p ∷ ps) stack h (l, ls) =
    resolve-IsName ps (step stack p) (step-IsName stack p h l) ls

-- No component of a cleaned path is empty, a dot or a step up, or holds a slash.
pub parts-IsName : (p : Text) → All IsName (parts p)
unfolding parts
parts-IsName p = resolve-IsName (split_at b'/' [] p) [] tt (split_at-Lacks [] p tt)

step_name : (stack : List Text) (c : Text) → IsName c → step stack c ≡ c ∷ stack
unfolding step
step_name stack c n =
    ground (arith, text_eq_iff c [], text_eq_iff c (b'.' ∷ []), text_eq_iff c (b'.' ∷ b'.' ∷ []))

resolve_names : (cs stack : List Text) → All IsName cs → resolve stack cs ≡ reverse stack ++ cs
unfolding resolve
resolve_names [] stack h = sym (append-nil (reverse stack))
resolve_names (c ∷ cs) stack (n, h) =
    ap (λ t. resolve t cs) (step_name stack c n)
    ∙ resolve_names cs (c ∷ stack) h
    ∙ ap (λ t. t ++ cs) (reverse-append (c ∷ []) stack)
    ∙ append_assoc (reverse stack) (c ∷ []) cs

split_at-join :
    (c : Text) (cs : List Text)
    → All IsName (c ∷ cs)
    → split_at b'/' [] (join (c ∷ cs) (b'/' ∷ [])) ≡ c ∷ cs
unfolding join
split_at-join c [] (n, _) = split_at_end c [] n.no_slash
split_at-join c (d ∷ cs) (n, h) =
    split_at_sep c [] (join (d ∷ cs) (b'/' ∷ [])) n.no_slash ∙ ap (◌∷◌ c) (split_at-join d cs h)

-- A slash at the head changes nothing.
pub parts_slash : (p : Text) → parts (b'/' ∷ p) ≡ parts p
unfolding parts resolve step split_at text_eq
parts_slash p = refl

-- The components of a rendered path are those that it was rendered from.
pub parts-render : (cs : List Text) → All IsName cs → parts (render cs) ≡ cs
unfolding render
parts-render [] h = unfold parts resolve step split_at join text_eq in refl
parts-render (c ∷ cs) h =
    parts_slash (join (c ∷ cs) (b'/' ∷ []))
    ∙ unfold parts in ap (resolve []) (split_at-join c cs h) ∙ resolve_names (c ∷ cs) [] h
