-- ===== src/Storage/Recycle/Pick.antt =====
-- The bin that is picked, and what the guard lets through.
use storage_bot.Base.{
  ℕ, ◌≡◌, ◌≢◌, ◌↔◌, ◌⊎◌, ◌≤◌, refl, ap, inl, inr, true, false, not, List, [], ◌∷◌, ◌++◌, arith,
  Text, if◌then◌else◌, ltb, length, Option, none, some, In, Bool-cases, append-nil, append_assoc,
  subst,
}
use storage_bot.Storage.Path.{normalize_quota_path, path_has_prefix, path_strictly_under}
use storage_bot.Storage.Recycle.{
  RecycleEntry, Yanrong, pick_from, pick_recycle_for_path, check_user_dir_path, given,
}

-- The bin holds the path.
abbrev pub Covers : RecycleEntry → Text → Type 0
Covers r q = path_has_prefix q (normalize_quota_path r.path) ≡ true

abbrev pub path_len : RecycleEntry → ℕ
path_len r = length (normalize_quota_path r.path)

-- A best bin of a list: one of its bins that hold the path, and no other that does has a longer path.
pub record IsBest (q : Text) (rs : List RecycleEntry) (b : RecycleEntry) : Type 0 where
  pub listed : In b rs
  pub covers : Covers b q
  pub longest : (r : RecycleEntry) → In r rs → Covers r q → path_len r ≤ path_len b

-- The answer on a list: a best bin, or none and no bin of the list holds the path.
abbrev pub Picks : Text → List RecycleEntry → Option RecycleEntry → Type 0
Picks q rs (some b) = IsBest q rs b
Picks q rs none = (r : RecycleEntry) → In r rs → ¬ Covers r q

best_of : Text → Option RecycleEntry → RecycleEntry → Option RecycleEntry
best_of q best r =
    if not (path_has_prefix q (normalize_quota_path r.path)) then best else elim best [
      | none ↦ some r
      | some b ↦ if ltb (path_len b) (path_len r) then some r else some b
    ]

In-snoc : (r x : RecycleEntry) (xs : List RecycleEntry) → In r (xs ++ x ∷ []) → In r xs ⊎ (r ≡ x)
In-snoc r x [] m = elim m [ inl e ↦ inr e | inr n ↦ absurd n ]
In-snoc r x (y ∷ xs) m = elim m [
  | inl e ↦ inl (inl e)
  | inr n ↦ elim (In-snoc r x xs n) [ inl k ↦ inl (inr k) | inr e ↦ inr e ]
]

In-left : (r x : RecycleEntry) (xs : List RecycleEntry) → In r xs → In r (xs ++ x ∷ [])
In-left r x [] m = absurd m
In-left r x (y ∷ xs) m = elim m [ inl e ↦ inl e | inr n ↦ inr (In-left r x xs n) ]

In-last : (x : RecycleEntry) (xs : List RecycleEntry) → In x (xs ++ x ∷ [])
In-last x [] = inl refl
In-last x (y ∷ xs) = inr (In-last x xs)

Picks-skip :
    (q : Text) (seen : List RecycleEntry) (best : Option RecycleEntry) (r : RecycleEntry)
    → path_has_prefix q (normalize_quota_path r.path) ≡ false
    → Picks q seen best
    → Picks q (seen ++ r ∷ []) best
Picks-skip q seen none r out h = λ x m c. elim (In-snoc x r seen m) [
  | inl n ↦ h x n c
  | inr e ↦ let k = ap (λ z. path_has_prefix q (normalize_quota_path z.path)) e in cc
]
Picks-skip q seen (some b) r out h = record {
  listed = In-left b r seen h.listed;
  covers = h.covers;
  longest = λ x m c. elim (In-snoc x r seen m) [
    | inl n ↦ h.longest x n c
    | inr e ↦ let k = ap (λ z. path_has_prefix q (normalize_quota_path z.path)) e in absurd (cc)
  ];
}

Picks-none :
    (q : Text) (seen : List RecycleEntry) (r : RecycleEntry)
    → Covers r q
    → Picks q seen none
    → IsBest q (seen ++ r ∷ []) r
Picks-none q seen r c h = record {
  listed = In-last r seen;
  covers = c;
  longest = λ x m k. elim (In-snoc x r seen m) [
    | inl n ↦ absurd (h x n k)
    | inr e ↦ let same = ap path_len e in omega arith
  ];
}

Picks-longer :
    (q : Text) (seen : List RecycleEntry) (b r : RecycleEntry)
    → Covers r q
    → IsBest q seen b
    → ltb (path_len b) (path_len r) ≡ true
    → IsBest q (seen ++ r ∷ []) r
Picks-longer q seen b r c h l = record {
  listed = In-last r seen;
  covers = c;
  longest = λ x m k. elim (In-snoc x r seen m) [
    | inl n ↦ let bound = h.longest x n k in ground arith
    | inr e ↦ let same = ap path_len e in omega arith
  ];
}

Picks-kept :
    (q : Text) (seen : List RecycleEntry) (b r : RecycleEntry)
    → Covers r q
    → IsBest q seen b
    → ltb (path_len b) (path_len r) ≡ false
    → IsBest q (seen ++ r ∷ []) b
Picks-kept q seen b r c h l = record {
  listed = In-left b r seen h.listed;
  covers = h.covers;
  longest = λ x m k. elim (In-snoc x r seen m) [
    | inl n ↦ h.longest x n k
    | inr e ↦ let same = ap path_len e in ground arith
  ];
}

Picks-step :
    (q : Text) (seen : List RecycleEntry) (best : Option RecycleEntry) (r : RecycleEntry)
    → Picks q seen best
    → Picks q (seen ++ r ∷ []) (best_of q best r)
unfolding best_of
Picks-step q seen best r h = elim (Bool-cases (path_has_prefix q (normalize_quota_path r.path))) [
  | inl c ↦ rw c (covered best c h)
  | inr out ↦ rw out (Picks-skip q seen best r out h)
]
  where
    covered :
        (o : Option RecycleEntry)
        → Covers r q
        → Picks q seen o
        → Picks q (seen ++ r ∷ []) (elim o as (λ _. Option RecycleEntry) [
          | none ↦ some r
          | some b ↦ if ltb (path_len b) (path_len r) then some r else some b
        ])
    covered none c k = Picks-none q seen r c k
    covered (some b) c k = elim (Bool-cases (ltb (path_len b) (path_len r))) [
      | inl l ↦ rw l (Picks-longer q seen b r c k l)
      | inr l ↦ rw l (Picks-kept q seen b r c k l)
    ]

pick_from_step :
    (q : Text) (best : Option RecycleEntry) (r : RecycleEntry) (rs : List RecycleEntry)
    → pick_from q best (r ∷ rs) ≡ pick_from q (best_of q best r) rs
unfolding pick_from best_of
pick_from_step q best r rs = refl

pick_from_end : (q : Text) (best : Option RecycleEntry) → pick_from q best [] ≡ best
unfolding pick_from
pick_from_end q best = refl

Picks-pick_from :
    (q : Text) (rs seen : List RecycleEntry) (best : Option RecycleEntry)
    → Picks q seen best
    → Picks q (seen ++ rs) (pick_from q best rs)
Picks-pick_from q [] seen best h = rw (append-nil seen, pick_from_end q best) h
Picks-pick_from q (r ∷ rs) seen best h =
    let k = Picks-pick_from q rs (seen ++ r ∷ []) (best_of q best r) (Picks-step q seen best r h) in
    rw (pick_from_step q best r rs) (
      subst (λ xs. Picks q xs (pick_from q (best_of q best r) rs)) (append_assoc seen (r ∷ []) rs)
        k)

-- pickRecycleForPath returns one of the bins that hold the normalised path, with none of the listed
-- bins that hold it having a longer normalised path; it returns nothing only if no listed bin holds
-- the path.
pub pick_recycle_for_path-Picks :
    (recycles : List RecycleEntry) (query_path : Text)
    → Picks (normalize_quota_path query_path) recycles (pick_recycle_for_path recycles query_path)
unfolding pick_recycle_for_path
pick_recycle_for_path-Picks recycles query_path =
    Picks-pick_from (normalize_quota_path query_path) recycles [] none (λ r m. absurd m)

-- The path lies below the prefix `p`, which is configured.
abbrev pub Below : Text → Text → Type 0
Below cleaned p = (p ≢ []) × (path_strictly_under cleaned (normalize_quota_path p) ≡ true)

given_iff : (p : Text) → (given p ≡ true) ↔ (p ≢ [])
given_iff [] = (λ h. cc, λ h. absurd (h refl))
given_iff (c ∷ p) = (λ h e. cc, λ h. refl)

-- The guard of the destructive calls lets a path through exactly if one of the two user prefixes is
-- configured and the path is strictly under it.
pub check_user_dir_path_iff :
    (quote : Text → Text) (y : Yanrong) (cleaned : Text)
    → (check_user_dir_path quote y cleaned ≡ none)
      ↔ (Below cleaned y.private_user_prefix ⊎ Below cleaned y.public_user_prefix)
unfolding check_user_dir_path
check_user_dir_path_iff quote y cleaned = (
  λ h. ground (arith, given_iff y.private_user_prefix, given_iff y.public_user_prefix),
  λ h. elim h [
    | inl (n, u) ↦ let g = (given_iff y.private_user_prefix).1 n in ground arith
    | inr (n, u) ↦ let g = (given_iff y.public_user_prefix).1 n in ground arith
  ],
)
