-- ===== src/Security/Validator/Laws.antt =====
-- What the validator lets through, and what it blocks.
use storage_bot.Base.{
  ℕ, zero, suc, ◌≤◌, length, length-take, take, keep, In-get_or, ◌≡◌, ◌≢◌, refl, sym, ap, ◌∙◌,
  subst, ◌↔◌, ◌⊎◌, inl, inr, Bool, true, false, Option, none, some, List, [], ◌∷◌, ◌++◌, arith,
  Text, lit, to_lower, trim_space, fields, join, has_prefix, text_eq, text_eq_iff, text_eq_refl,
  any, any_iff, In, All, Bool-cases, if◌then◌else◌, has_prefix_iff,
}
use storage_bot.Regex.{match_string}
use storage_bot.Regex.Meaning.{Occurs}
use storage_bot.Regex.Search.{match_string_iff}
use storage_bot.Security.Patterns.{Pattern, dangerous_patterns, shell_meta_chars}
use storage_bot.Security.Validator.{
  Denial, empty_command, first_match, validate_command, validate_ceph_command, check_ceph,
  validate_ssh_command, check_first, read_only_prefixes, allowed_write_exact, safe_commands,
  sanitize_for_llm, llm_visible,
}

first_match_iff :
    (ps : List Pattern) (cmd : Text) → (first_match ps cmd ≡ none) ↔ All (λ p. ¬ Occurs p.re cmd) ps
unfolding first_match
first_match_iff [] cmd = (λ h. tt, λ h. refl)
first_match_iff (p ∷ ps) cmd = elim (Bool-cases (match_string p.re cmd)) [
  | inl hit ↦
      (λ h. cc (rw hit at h), λ (miss, _). absurd (miss ((match_string_iff p.re cmd).0 hit)))
  | inr miss ↦ (
    λ h. (
      λ o. let e = (match_string_iff p.re cmd).1 o in cc,
      (first_match_iff ps cmd).0 (rw miss at h),
    ),
    λ (_, h). rw miss ((first_match_iff ps cmd).1 h),
  )
]

-- A command passes ValidateCommand exactly if it is not blank and no dangerous pattern occurs in what
-- is left of it without the white space at its ends.
pub validate_command_iff :
    (cmd : Text)
    → (validate_command cmd ≡ none)
      ↔ ((trim_space cmd ≢ []) × All (λ p. ¬ Occurs p.re (trim_space cmd)) dangerous_patterns)
unfolding validate_command
validate_command_iff cmd = go (trim_space cmd)
  where
    go :
        (t : Text)
        → ((elim t [ [] ↦ some empty_command | c ∷ s ↦ first_match dangerous_patterns (c ∷ s) ])
            ≡ none)
          ↔ ((t ≢ []) × All (λ p. ¬ Occurs p.re t) dangerous_patterns)
    go [] = (λ h. cc, λ (h, _). absurd (h refl))
    go (c ∷ s) =
        let (f, g) = first_match_iff dangerous_patterns (c ∷ s) in (λ h. (cc, f h), λ (_, h). g h)

-- A ceph command that is allowed, by its text in lower case.
abbrev pub IsAllowed : Text → Type 0
IsAllowed lower =
    ((p : Text) × In p read_only_prefixes × ((rest : Text) × (lower ≡ p ++ rest)))
    ⊎ In lower allowed_write_exact

In-any : (lower : Text) (xs : List Text) → (any (text_eq lower) xs ≡ true) ↔ In lower xs
In-any lower xs = (
  λ h.
      let (x, m, e) = (any_iff (text_eq lower) xs).0 h in
      subst (λ t. In t xs) (sym ((text_eq_iff lower x).0 e)) m,
  λ m. (any_iff (text_eq lower) xs).1 (lower, m, text_eq_refl lower),
)

prefix-any :
    (lower : Text) (xs : List Text)
    → (any (has_prefix lower) xs ≡ true)
      ↔ ((p : Text) × In p xs × ((rest : Text) × (lower ≡ p ++ rest)))
prefix-any lower xs = (
  λ h. let (p, m, e) = (any_iff (has_prefix lower) xs).0 h in (p, m, (has_prefix_iff lower p).0 e),
  λ (p, m, r). (any_iff (has_prefix lower) xs).1 (p, m, (has_prefix_iff lower p).1 r),
)

check_ceph_iff : (full : Text) → (check_ceph full ≡ none) ↔ IsAllowed (to_lower full)
unfolding check_ceph
check_ceph_iff full =
    let lower = to_lower full in
    let (to, from) = prefix-any lower read_only_prefixes in
    let (to', from') = In-any lower allowed_write_exact in
    elim (Bool-cases (any (has_prefix lower) read_only_prefixes)) [
      | inl read ↦ (λ _. inl (to read), λ _. rw read)
      | inr write ↦ elim (Bool-cases (any (text_eq lower) allowed_write_exact)) [
        | inl flag ↦ (λ _. inr (to' flag), λ _. rw (write, flag))
        | inr other ↦ (
          λ h. cc (rw (write, other) at h),
          λ h. elim h [ inl r ↦ let e = from r in cc | inr m ↦ let e = from' m in cc ],
        )
      ]
    ]

-- A ceph command passes exactly if it has words and, in lower case and joined by spaces, begins with
-- one of the read-only prefixes or is one of the allowed flag changes.
pub validate_ceph_command_iff :
    (args : List Text)
    → (validate_ceph_command args ≡ none)
      ↔ ((args ≢ []) × IsAllowed (to_lower (join args (lit " "))))
unfolding validate_ceph_command
validate_ceph_command_iff [] = (λ h. cc, λ (h, _). absurd (h refl))
validate_ceph_command_iff (a ∷ args) =
    let (f, g) = check_ceph_iff (join (a ∷ args) (lit " ")) in (λ h. (cc, f h), λ (_, h). g h)

check_first_iff :
    (parts : List Text)
    → (check_first parts ≡ none)
      ↔ ((p : Text) (ps : List Text) → parts ≡ p ∷ ps → In p safe_commands)
unfolding check_first
check_first_iff [] = (λ h p ps e. cc, λ h. refl)
check_first_iff (q ∷ qs) = elim (Bool-cases (any (text_eq q) safe_commands)) [
  | inl safe ↦ (
    λ _ p ps e.
        let same : q ≡ p = cc in
        subst (λ t. In t safe_commands) same ((In-any q safe_commands).0 safe),
    λ _. rw safe,
  )
  | inr other ↦
      (λ h. cc (rw other at h), λ h. let e = (In-any q safe_commands).1 (h q qs refl) in cc)
]

-- A command may run over SSH exactly if it passes ValidateCommand and, where a shell meta character
-- occurs in it, its first word, if it has one, is a safe command.
pub validate_ssh_command_iff :
    (cmd : Text)
    → (validate_ssh_command cmd ≡ none) ↔ (
        (validate_command cmd ≡ none)
        × (Occurs shell_meta_chars cmd
            → (p : Text) (ps : List Text) → fields cmd ≡ p ∷ ps
            → In p safe_commands))
unfolding validate_ssh_command
validate_ssh_command_iff cmd =
    go (validate_command cmd) (Bool-cases (match_string shell_meta_chars cmd))
  where
    IsGuarded : Type 0
    IsGuarded =
        Occurs shell_meta_chars cmd
        → (p : Text) (ps : List Text) → fields cmd ≡ p ∷ ps
        → In p safe_commands

    after : Option Denial
    after = if match_string shell_meta_chars cmd then check_first (fields cmd) else none

    go :
        (v : Option Denial)
        → (match_string shell_meta_chars cmd ≡ true) ⊎ (match_string shell_meta_chars cmd ≡ false)
        → (elim v as (λ _. Option Denial) [ some e ↦ some e | none ↦ after ] ≡ none)
          ↔ ((v ≡ none) × IsGuarded)
    go (some e) _ = (λ h. cc, λ (h, _). cc)
    go none (inl meta) =
        let (f, g) = check_first_iff (fields cmd) in
        (
          λ h. (refl, λ _. f (rw meta at h)),
          λ (_, h). rw meta (g (h ((match_string_iff shell_meta_chars cmd).0 meta))),
        )
    go none (inr plain) =
        (λ h. (refl, λ o. let e = (match_string_iff shell_meta_chars cmd).1 o in cc), λ _. rw plain)

-- `auth get-or-create` makes keys, and passes for every list of arguments behind it: it begins with
-- the read-only prefix `auth get`.
pub auth_get_or_create_allowed :
    (args : List Text) → validate_ceph_command (lit "auth" ∷ lit "get-or-create" ∷ args) ≡ none
auth_get_or_create_allowed args =
    (validate_ceph_command_iff (lit "auth" ∷ lit "get-or-create" ∷ args)).1
      (cc, inl (auth_get, prefix_listed, rest args))
  where
    auth_get : Text
    auth_get = lit "auth get"

    prefix_listed : In auth_get read_only_prefixes
    prefix_listed = unfold read_only_prefixes in In-get_or read_only_prefixes 32 [] (omega arith)

    rest :
        (args : List Text)
        → (rest : Text) × (to_lower (join (lit "auth" ∷ lit "get-or-create" ∷ args) (lit " "))
            ≡ auth_get ++ rest)
    rest [] = unfold lit to_lower join in (_, refl)
    rest (a ∷ args) = unfold lit to_lower join in (_, refl)

keep-All : (p : ℕ → Bool) (s : Text) → All (λ c. p c ≡ true) (keep p s)
keep-All p [] = tt
keep-All p (c ∷ s) = elim (Bool-cases (p c)) [
  | inl e ↦ rw e (e, keep-All p s)
  | inr e ↦ rw e (keep-All p s)
]

take-All :
    (p : ℕ → Bool) (n : ℕ) (s : Text) → All (λ c. p c ≡ true) s → All (λ c. p c ≡ true) (take n s)
take-All p zero s h = tt
take-All p (suc n) [] h = tt
take-All p (suc n) (c ∷ s) (e, h) = (e, take-All p n s h)

keep_self : (p : ℕ → Bool) (s : Text) → All (λ c. p c ≡ true) s → keep p s ≡ s
keep_self p [] h = refl
keep_self p (c ∷ s) (e, h) = rw e (ap (◌∷◌ c) (keep_self p s h))

take_self : (n : ℕ) (s : Text) → length s ≤ n → take n s ≡ s
take_self zero [] h = refl
take_self zero (c ∷ s) h = absurd (omega arith)
take_self (suc n) [] h = refl
take_self (suc n) (c ∷ s) h = ap (◌∷◌ c) (take_self n s (omega arith))

-- What SanitizeForLLM lets through has at most 2000 bytes, all of them visible to the LLM, and an
-- input that is so already stays as it is.
pub sanitize_for_llm_lem :
    (s : Text)
    → (length (sanitize_for_llm s) ≤ 2000)
      × All (λ c. llm_visible c ≡ true) (sanitize_for_llm s)
      × (All (λ c. llm_visible c ≡ true) s → length s ≤ 2000 → sanitize_for_llm s ≡ s)
unfolding sanitize_for_llm
sanitize_for_llm_lem s = (
  omega (arith, length-take {0} 2000 (keep llm_visible s)),
  take-All llm_visible 2000 (keep llm_visible s) (keep-All llm_visible s),
  λ h l. ap (take 2000) (keep_self llm_visible s h) ∙ take_self 2000 s l,
)
