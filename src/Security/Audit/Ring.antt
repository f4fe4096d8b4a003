-- ===== src/Security/Audit/Ring.antt =====
-- The loop of Recent read as a window of the ring buffer: shifting, extending and writing.
use native.Mathlib.Nat.{mod-add-mod, mod-eq_of_lt, mod-eq-sub-mod}
use native.Mathlib.Decide.{dec_lt}
use storage_bot.Base.{
  ℕ, zero, suc, ◌+◌, ◌-◌, ◌%◌, ◌≤◌, ◌<◌, ◌≡◌, ◌≢◌, refl, sym, ap, ap₂, ◌∙◌, List, [], ◌∷◌, ◌++◌,
  arith, length, drop, get_or, set, get_or-set_self, get_or-set_ne,
}
use storage_bot.Security.Audit.{AuditEntry, no_entry, read_from}

module _ (buf : List AuditEntry) (m : ℕ) where
  mod_next : (s i s' i' : ℕ) → (s + i) % m ≡ (s' + i') % m → (s + (i + 1)) % m ≡ (s' + (i' + 1)) % m
  mod_next s i s' i' h = ground (arith, mod-add-mod (s + i) m 1, mod-add-mod (s' + i') m 1)

  -- Only the position in the ring matters, not how it is split into a start and a round.
  pub read_from_shift :
      (s i s' i' k : ℕ)
      → (s + i) % m ≡ (s' + i') % m
      → read_from buf m s i k ≡ read_from buf m s' i' k
  unfolding read_from
  read_from_shift s i s' i' zero h = refl
  read_from_shift s i s' i' (suc k) h =
      ap₂ ◌∷◌ (ap (λ j. get_or buf j no_entry) h)
        (read_from_shift s (i + 1) s' (i' + 1) k (mod_next s i s' i' h))

  pub read_from_snoc :
      (s i k : ℕ)
      → read_from buf m s i (suc k)
        ≡ read_from buf m s i k ++ get_or buf ((s + i + k) % m) no_entry ∷ []
  unfolding read_from
  read_from_snoc s i zero = ap (λ j. get_or buf (j % m) no_entry ∷ []) (omega arith)
  read_from_snoc s i (suc k) = ground (arith, read_from_snoc s (i + 1) k, snoc_index)
    where
      snoc_index : (s + (i + 1) + k) % m ≡ (s + i + suc k) % m
      snoc_index = ap (λ j. j % m) (omega arith)

  pub read_from-drop :
      (s i d k : ℕ) → read_from buf m s (i + d) k ≡ drop d (read_from buf m s i (d + k))
  unfolding read_from
  read_from-drop s i zero k = ap₂ (read_from buf m s) (omega arith) (omega arith)
  read_from-drop s i (suc d) k =
      let e : suc d + k ≡ suc (d + k) = omega arith in
      let f : i + suc d ≡ i + 1 + d = omega arith in rw (e, f) (read_from-drop s (i + 1) d k)

  pub length-read_from : (s i k : ℕ) → length (read_from buf m s i k) ≡ k
  unfolding read_from
  length-read_from s i zero = refl
  length-read_from s i (suc k) = ap suc (length-read_from s (i + 1) k)

  -- A write at a position that the loop does not read.
  pub read_from-set :
      (s i k p : ℕ) (e : AuditEntry)
      → ((j : ℕ) → i ≤ j → j < i + k → (s + j) % m ≢ p)
      → read_from (set buf p e) m s i k ≡ read_from buf m s i k
  unfolding read_from
  read_from-set s i zero p e h = refl
  read_from-set s i (suc k) p e h =
      ap₂ ◌∷◌ (get_or-set_ne buf e no_entry (λ q. h i (omega arith) (omega arith) (sym q)))
        (read_from-set s (i + 1) k p e (λ j a b. h j (omega arith) (omega arith)))

-- Fewer steps than a whole turn do not come back to the start.
pub turn_ne : (m p j : ℕ) → p < m → 1 ≤ j → j < m → (p + j) % m ≢ p
turn_ne m p j hp lo hi = elim (dec_lt (p + j) m) [
  | yes q ↦ omega (arith, mod-eq_of_lt q)
  | no q ↦ omega (
    arith,
    mod-eq-sub-mod {n = p + j} {m = m} (omega arith),
    mod-eq_of_lt {n = p + j - m} {m = m} (omega arith),
  )
]

module _ (buf : List AuditEntry) (m p : ℕ) (e : AuditEntry) (hp : p < m) (hl : length buf ≡ m) where
  -- After a write at `p` the ring from there on is the old one without its head, and the new entry.
  pub read_from_turn :
      (k : ℕ)
      → m ≡ suc k
      → read_from (set buf p e) m ((p + 1) % m) 0 (suc k)
        ≡ drop 1 (read_from buf m p 0 (suc k)) ++ e ∷ []
  read_from_turn k h =
      read_from_shift (set buf p e) m ((p + 1) % m) 0 p 1 (suc k)
        (ground (arith, mod-add-mod (p + 1) m 0))
      ∙ read_from_snoc (set buf p e) m p 1 k
      ∙ ap₂ (λ xs x. xs ++ x ∷ [])
          (read_from-set buf m p 1 k p e (λ j lo hi. turn_ne m p j hp lo (omega arith))
            ∙ read_from-drop buf m p 0 1 k
            ∙ ap (λ j. drop 1 (read_from buf m p 0 j)) (omega arith))
          (rw at_head (get_or-set_self buf p e no_entry (omega arith)))
    where
      at_head : (p + 1 + k) % m ≡ p
      at_head = omega (
        arith,
        mod-eq-sub-mod {n = p + 1 + k} {m = m} (omega arith),
        mod-eq_of_lt {n = p + 1 + k - m} {m = m} (omega arith),
      )
