-- ===== src/Intent/Order.antt =====
-- The table is searched in order, and what that order is for.
use storage_bot.Base.{
  ◌≡◌, ◌≢◌, refl, sym, ap, ◌∙◌, inl, inr, true, false, ◌||◌, List, [], ◌∷◌, ◌++◌, arith, Text, lit,
  text_eq, if◌then◌else◌, text_eq_refl, contains_iff, append_assoc, subst, In, map, take, drop,
  get_or, any, any_iff, contains, Option, none, some, Bool-cases, All,
}
use storage_bot.Intent.{AliasEntry, alias_entry, skill_alias_table, hits, first_skill}

abbrev pub Missed : Text → List AliasEntry → Type 0
Missed lower = All (λ e. hits lower e ≡ false)

-- The entry that a search of the table ends at.
abbrev pub Ends : List AliasEntry → Text → Option Text → Type 0
Ends table lower none = Missed lower table
Ends table lower (some skill) =
    (before : List AliasEntry) × (e : AliasEntry) × (after : List AliasEntry) × (table
      ≡ before ++ e ∷ after)
    × (e.skill ≡ skill)
    × (hits lower e ≡ true)
    × Missed lower before

Ends-later :
    (lower : Text) (e : AliasEntry) (es : List AliasEntry) (o : Option Text)
    → hits lower e ≡ false
    → Ends es lower o
    → Ends (e ∷ es) lower o
Ends-later lower e es none h k = (h, k)
Ends-later lower e es (some skill) h (before, x, after, p, q, r, m) =
    (e ∷ before, x, after, ap (◌∷◌ e) p, q, r, (h, m))

first_skill-step :
    (e : AliasEntry) (es : List AliasEntry) (lower : Text)
    → first_skill (e ∷ es) lower ≡ (if hits lower e then some e.skill else first_skill es lower)
unfolding first_skill
first_skill-step e es lower = refl

first_skill-nil : (lower : Text) → first_skill [] lower ≡ none
unfolding first_skill
first_skill-nil lower = refl

-- The search names the skill of an entry that the message hits, where it hits none of those before,
-- and names none only if the message hits no entry of the table.
pub first_skill-Ends :
    (table : List AliasEntry) (lower : Text) → Ends table lower (first_skill table lower)
first_skill-Ends [] lower = rw (first_skill-nil lower) tt
first_skill-Ends (e ∷ es) lower = elim (Bool-cases (hits lower e)) [
  | inl h ↦ rw (first_skill-step e es lower, h) ([], e, es, refl, refl, h, tt)
  | inr h ↦
      rw (first_skill-step e es lower, h)
        (Ends-later lower e es (first_skill es lower) h (first_skill-Ends es lower))
]

abbrev no_entry : AliasEntry
no_entry = record { skill = []; aliases = [] }

-- A message that hits an entry gets that entry's skill, or that of one before it.
hit_bounds :
    (before : List AliasEntry) (e : AliasEntry) (after : List AliasEntry) (lower : Text)
    → hits lower e ≡ true
    → (s : Text) × (first_skill (before ++ e ∷ after) lower ≡ some s)
      × In s (map (λ x. x.skill) (before ++ e ∷ []))
hit_bounds [] e after lower h = (e.skill, rw (first_skill-step e after lower, h) refl, inl refl)
hit_bounds (b ∷ before) e after lower h = elim (Bool-cases (hits lower b)) [
  | inl k ↦ (b.skill, rw (first_skill-step b (before ++ e ∷ after) lower, k) refl, inl refl)
  | inr k ↦
      let (s, p, m) = hit_bounds before e after lower h in
      (s, rw (first_skill-step b (before ++ e ∷ after) lower, k) p, inr m)
]

alias_hits :
    (lower : Text) (e : AliasEntry) (a : Text)
    → In a e.aliases
    → contains lower a ≡ true
    → hits lower e ≡ true
alias_hits lower e a m h =
    (any_iff (λ alias. text_eq lower e.skill || contains lower alias) e.aliases).1
      (a, m, ground arith)

-- The search of the table for a text that contains `unset nobackfill` ends at the skill that unsets the
-- flag, or at a restart.
pub unset_before_set :
    (lower : Text)
    → contains lower (lit "unset nobackfill") ≡ true
    → (s : Text) × (first_skill skill_alias_table lower ≡ some s)
      × In s (lit "restart_mon" ∷ lit "restart_mgr" ∷ lit "unset_no_backfill" ∷ [])
unfolding skill_alias_table alias_entry
unset_before_set lower h =
    hit_bounds (take 2 skill_alias_table) (get_or skill_alias_table 2 no_entry)
      (drop 3 skill_alias_table) lower
      (alias_hits lower (get_or skill_alias_table 2 no_entry) (lit "unset nobackfill") (inl refl) h)

contains_inner : (s u v : Text) → contains s (u ++ v) ≡ true → contains s v ≡ true
contains_inner s u v h =
    let (b, a, e) = (contains_iff s (u ++ v)).0 h in
    (contains_iff s v).1
      (b ++ u, a, e ∙ ap (λ t. b ++ t) (append_assoc u v a) ∙ sym (append_assoc b u (v ++ a)))

not_In : (t : Text) (xs : List Text) → any (text_eq t) xs ≡ false → ¬ In t xs
not_In t xs h m = let k = (any_iff (text_eq t) xs).1 (t, m, text_eq_refl t) in cc

not_before :
    any (text_eq (lit "optimize_rgw_pg")) (map (λ x. x.skill) (take 11 skill_alias_table)) ≡ false
unfolding skill_alias_table alias_entry lit text_eq
not_before = refl

rgw_pg_parts : lit "rgw pg" ≡ lit "rgw " ++ lit "pg"
unfolding lit
rgw_pg_parts = refl

within :
    (lower : Text)
    → contains lower (lit "rgw pg") ≡ true
    → (s : Text) × (first_skill skill_alias_table lower ≡ some s)
      × In s (map (λ x. x.skill) (take 11 skill_alias_table))
unfolding skill_alias_table alias_entry
within lower h =
    hit_bounds (take 10 skill_alias_table) (get_or skill_alias_table 10 no_entry)
      (drop 11 skill_alias_table) lower
      (alias_hits lower (get_or skill_alias_table 10 no_entry) (lit "pg") (inl refl) (
        contains_inner lower (lit "rgw ") (lit "pg")
          (subst (λ t. contains lower t ≡ true) rgw_pg_parts h)))

-- A message that contains the alias `rgw pg` is never taken for the skill optimize_rgw_pg, whose
-- alias it is: the alias `pg` of pg_status stands before it.
pub rgw_pg_shadowed :
    (lower : Text)
    → contains lower (lit "rgw pg") ≡ true
    → first_skill skill_alias_table lower ≢ some (lit "optimize_rgw_pg")
rgw_pg_shadowed lower h e =
    let (s, p, m) = within lower h in
    let same : s ≡ lit "optimize_rgw_pg" = cc in
    not_In s (map (λ x. x.skill) (take 11 skill_alias_table)) (rw same not_before) m
