-- ===== src/Base/Sort/Order.antt =====
-- The order of the bytes, and that the sorted texts ascend in it.
use storage_bot.Base.Tests.{if_intro}
use storage_bot.Base.Lists.{All, All-append, All-reverse, take, drop}
use storage_bot.Base.Strings.{Text}
use storage_bot.Base.Sort.{text_lt, insert, sort_texts}
use Prim.Native.Nat.{ℕ, zero, suc}
use mathlib.Core.Path.{◌≡◌, refl}
use mathlib.Core.Bool.{true, false}
use mathlib.Core.List.{List, [], ◌∷◌, ◌++◌, reverse, reverse-append}
use native.Mathlib.Omega.{arith}

text_lt_asymm : (s t : Text) → text_lt s t ≡ true → text_lt t s ≡ false
unfolding text_lt
text_lt_asymm s [] h = absurd cc
text_lt_asymm [] (d ∷ t) h = refl
text_lt_asymm (c ∷ s) (d ∷ t) h = ground (arith, text_lt_asymm s t)

-- Not before is a preorder.
text_lt_trans : (s t u : Text) → text_lt t s ≡ false → text_lt u t ≡ false → text_lt u s ≡ false
unfolding text_lt
text_lt_trans [] t u h k = refl
text_lt_trans (c ∷ s) [] u h k = absurd cc
text_lt_trans (c ∷ s) (d ∷ t) [] h k = absurd cc
text_lt_trans (c ∷ s) (d ∷ t) (e ∷ u) h k = ground (arith, text_lt_trans s t u)

abbrev pub IsAscending : List Text → Type 0
IsAscending [] = Unit
IsAscending (s ∷ ts) = All (λ t. text_lt t s ≡ false) ts × IsAscending ts

All-insert : (P : Text → Type 0) (s : Text) (ts : List Text) → P s → All P ts → All P (insert s ts)
unfolding insert
All-insert P s [] p h = (p, tt)
All-insert P s (t ∷ ts) p (q, h) =
    if_intro (All P) (text_lt t s) (t ∷ insert s ts) (s ∷ t ∷ ts) (λ e. (q, All-insert P s ts p h))
      (λ e. (p, (q, h)))

All-after :
    (s t : Text) (ts : List Text)
    → text_lt t s ≡ false
    → All (λ u. text_lt u t ≡ false) ts
    → All (λ u. text_lt u s ≡ false) ts
All-after s t [] h k = tt
All-after s t (u ∷ ts) h (k, ks) = (text_lt_trans s t u h k, All-after s t ts h ks)

insert-IsAscending : (s : Text) (ts : List Text) → IsAscending ts → IsAscending (insert s ts)
unfolding insert
insert-IsAscending s [] h = (tt, tt)
insert-IsAscending s (t ∷ ts) (h, hs) =
    if_intro IsAscending (text_lt t s) (t ∷ insert s ts) (s ∷ t ∷ ts)
      (λ e. (
        All-insert (λ u. text_lt u t ≡ false) s ts (text_lt_asymm t s e) h,
        insert-IsAscending s ts hs,
      ))
      (λ e. ((e, All-after s t ts e h), (h, hs)))

pub sort_texts-IsAscending : (ts : List Text) → IsAscending (sort_texts ts)
unfolding sort_texts
sort_texts-IsAscending [] = tt
sort_texts-IsAscending (s ∷ ts) = insert-IsAscending s (sort_texts ts) (sort_texts-IsAscending ts)

-- Nothing is before a text that stands behind it.
abbrev pub IsDescending : List Text → Type 0
IsDescending [] = Unit
IsDescending (s ∷ ts) = All (λ t. text_lt s t ≡ false) ts × IsDescending ts

IsDescending-last :
    (ss : List Text) (t : Text)
    → IsDescending ss
    → All (λ s. text_lt s t ≡ false) ss
    → IsDescending (ss ++ t ∷ [])
IsDescending-last [] t h k = (tt, tt)
IsDescending-last (s ∷ ss) t (h, hs) (k, ks) =
    (All-append (λ u. text_lt s u ≡ false) ss (t ∷ []) h (k, tt), IsDescending-last ss t hs ks)

pub reverse-IsDescending : (ts : List Text) → IsAscending ts → IsDescending (reverse ts)
reverse-IsDescending [] h = tt
reverse-IsDescending (t ∷ ts) (h, hs) = rw (reverse-append (t ∷ []) ts) (
    IsDescending-last (reverse ts) t (reverse-IsDescending ts hs)
      (All-reverse (λ s. text_lt s t ≡ false) ts h))

-- What is dropped is not after what is taken.
pub drop-after-take :
    (n : ℕ) (ts : List Text)
    → IsDescending ts
    → All (λ old. All (λ new. text_lt new old ≡ false) (take n ts)) (drop n ts)
drop-after-take zero ts h = All-true ts
  where
    All-true : (us : List Text) → All (λ old. Unit {0}) us
    All-true [] = tt
    All-true (u ∷ us) = (tt, All-true us)
drop-after-take (suc n) [] h = tt
drop-after-take (suc n) (t ∷ ts) (h, hs) =
    both (drop n ts) (drop-All n ts h) (drop-after-take n ts hs)
  where
    drop-All :
        (n : ℕ) (us : List Text)
        → All (λ u. text_lt t u ≡ false) us
        → All (λ u. text_lt t u ≡ false) (drop n us)
    drop-All zero us k = k
    drop-All (suc n) [] k = tt
    drop-All (suc n) (u ∷ us) (k, ks) = drop-All n us ks

    both :
        (us : List Text)
        → All (λ u. text_lt t u ≡ false) us
        → All (λ old. All (λ new. text_lt new old ≡ false) (take n ts)) us
        → All (λ old. All (λ new. text_lt new old ≡ false) (t ∷ take n ts)) us
    both [] k l = tt
    both (u ∷ us) (k, ks) (l, ls) = ((k, l), both us ks ls)
