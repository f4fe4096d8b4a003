-- ===== src/Security/Audit/History.antt =====
-- What Recent returns: the newest of the entries that were recorded, oldest first.
use native.Mathlib.Nat.{mod-add-mod, mod-eq_of_lt}
use native.Mathlib.Decide.{dec_lt}
use storage_bot.Base.{
  ℕ, zero, suc, ◌+◌, ◌-◌, ◌%◌, ◌≤◌, ◌<◌, min, ◌≡◌, refl, sym, ap, ap₂, ◌∙◌, List, [], ◌∷◌, ◌++◌,
  arith, length, drop, set, get_or-set_self, length-append, length-drop, drop-drop, drop-append,
  append-nil, append_assoc, true, false, ltb, if◌then◌else◌, Bool-cases, inl, inr,
}
use storage_bot.Base.Int.{ℤ, pos, negsuc}
use storage_bot.Security.Audit.{
  AuditEntry, AuditLog, no_entry, new_audit_log, record_entry, read_from, recent_count, recent,
}
use storage_bot.Security.Audit.Ring.{
  read_from_shift, read_from_snoc, read_from-drop, length-read_from, read_from-set, read_from_turn,
}
use storage_bot.Security.Audit.Valid.{IsValid, new_audit_log-IsValid, record_entry-IsValid}

-- The last `n` of a list.
abbrev pub keep_last : ℕ → List AuditEntry → List AuditEntry
keep_last n xs = drop (length xs - n) xs

unfoldable pub contents : AuditLog → List AuditEntry
contents a = read_from a.buf a.max_size a.head 0 a.count

length-contents : (a : AuditLog) → length (contents a) ≡ a.count
unfolding contents
length-contents a = length-read_from a.buf a.max_size a.head 0 a.count

-- The two ways to compute the start agree with the ring's order.
start_agrees :
    (a : AuditLog) (n : ℕ)
    → IsValid a
    → n ≤ a.count
    → ((if ltb a.count a.max_size then a.count - n else (a.head + a.count - n) % a.max_size) + 0)
        % a.max_size
      ≡ (a.head + (a.count - n)) % a.max_size
start_agrees a n v h = elim (Bool-cases (ltb a.count a.max_size)) [
  | inl room ↦ rw room (ap (λ j. j % a.max_size) (ground arith))
  | inr full ↦ rw full (ground (arith, mod-add-mod (a.head + a.count - n) a.max_size 0))
]

-- Recent reads the last entries that the ring holds.
recent_count-keep_last :
    (a : AuditLog) (n : ℕ) → IsValid a → n ≤ a.count → recent_count a n ≡ keep_last n (contents a)
unfolding recent_count contents
recent_count-keep_last a n v h =
    let d = a.count - n in
    let whole : a.count ≡ d + n = omega arith in
    let len : length (contents a) - n ≡ d = ap (λ j. j - n) (length-contents a) in
    let at_d : (a.head + d) % a.max_size ≡ (a.head + (0 + d)) % a.max_size =
      ap (λ j. (a.head + j) % a.max_size) (omega arith) in
    read_from_shift a.buf a.max_size _ 0 a.head (0 + d) n (start_agrees a n v h ∙ at_d)
    ∙ read_from-drop a.buf a.max_size a.head 0 d n
    ∙ sym (ap₂ (λ j k. drop j (read_from a.buf a.max_size a.head 0 k)) len whole)

-- Recording appends to what the ring holds, and drops the oldest entry of a full ring.
contents-record_not_full :
    (a : AuditLog) (e : AuditEntry)
    → IsValid a
    → a.count < a.max_size
    → contents (record a { buf = set a.buf a.count e; count = a.count + 1 }) ≡ contents a ++ e ∷ []
unfolding contents
contents-record_not_full a e v h =
    ap (read_from (set a.buf a.count e) a.max_size a.head 0) (omega arith)
    ∙ read_from_snoc (set a.buf a.count e) a.max_size a.head 0 a.count
    ∙ ap₂ (λ xs x. xs ++ x ∷ [])
        (read_from-set a.buf a.max_size a.head 0 a.count a.count e (λ j lo hi q.
          omega
            (arith, v.head_zero h, mod-eq_of_lt {n = a.head + j} {m = a.max_size} (omega arith))))
        (rw at_count (get_or-set_self a.buf a.count e no_entry (omega arith)))
  where
    at_count : (a.head + 0 + a.count) % a.max_size ≡ a.count
    at_count = ap (λ j. j % a.max_size) (omega (arith, v.head_zero h)) ∙ mod-eq_of_lt h

contents-record_full :
    (a : AuditLog) (e : AuditEntry)
    → IsValid a
    → a.count ≡ a.max_size
    → contents (record a { buf = set a.buf a.head e; head = (a.head + 1) % a.max_size })
      ≡ drop 1 (contents a) ++ e ∷ []
unfolding contents
contents-record_full a e v h =
    let all : a.count ≡ suc (a.count - 1) = omega arith in
    rw all
      (read_from_turn a.buf a.max_size a.head e v.head_in v.storage (a.count - 1) (omega arith))

-- What an entry adds to a ring of `m` entries.
abbrev push : ℕ → List AuditEntry → AuditEntry → List AuditEntry
push m xs e = if ltb (length xs) m then xs ++ e ∷ [] else drop 1 xs ++ e ∷ []

abbrev pub record_one : AuditLog → AuditEntry → AuditLog
record_one a e = record_entry a e.timestamp e.user e.cluster_name e.action e.command e.status

contents-record_one :
    (a : AuditLog) (e : AuditEntry)
    → IsValid a
    → contents (record_one a e) ≡ push a.max_size (contents a) e
contents-record_one a e v = elim (Bool-cases (ltb a.count a.max_size)) [
  | inl room ↦
      unfold record_entry in
      rw (length-contents a, room) (contents-record_not_full a e v (ground arith))
  | inr full ↦
      unfold record_entry in
      rw (length-contents a, full) (contents-record_full a e v (ground arith))
]

-- The calls of Record, in order.
unfoldable pub record_all : AuditLog → List AuditEntry → AuditLog
record_all a [] = a
record_all a (e ∷ es) = record_all (record_one a e) es

max_size-record_one : (a : AuditLog) (e : AuditEntry) → (record_one a e).max_size ≡ a.max_size
unfolding record_entry
max_size-record_one a e = ground arith

keep_last_zero : (n : ℕ) (xs : List AuditEntry) → length xs ≤ n → keep_last n xs ≡ xs
keep_last_zero n xs h = let e : length xs - n ≡ 0 = omega arith in rw e

push-keep_last :
    (m : ℕ) (xs : List AuditEntry) (e : AuditEntry)
    → 0 < m
    → push m (keep_last m xs) e ≡ keep_last m (xs ++ e ∷ [])
push-keep_last m xs e h = elim (dec_lt (length xs) m) [
  | yes room ↦
      rw (keep_last_zero m xs (omega arith), room_true room)
        (sym (keep_last_zero m (xs ++ e ∷ []) (omega (arith, length-append {0} xs (e ∷ [])))))
  | no full ↦
      let d = length xs - m in
      rw (not_room full) (
        ap (λ ys. ys ++ e ∷ []) (drop-drop 1 d xs)
        ∙ sym (drop-append (d + 1) xs (e ∷ []) (omega arith))
        ∙ ap (λ j. drop j (xs ++ e ∷ [])) (omega (arith, length-append {0} xs (e ∷ []))))
]
  where
    room_true : length xs < m → ltb (length xs) m ≡ true
    room_true q = ground arith

    not_room : ¬ (length xs < m) → ltb (length (keep_last m xs)) m ≡ false
    not_room q = ground (arith, length-drop (length xs - m) xs)

contents-record_all :
    (es xs : List AuditEntry) (a : AuditLog)
    → IsValid a
    → contents a ≡ keep_last a.max_size xs
    → contents (record_all a es) ≡ keep_last a.max_size (xs ++ es)
unfolding record_all
contents-record_all [] xs a v h = rw append-nil h
contents-record_all (e ∷ es) xs a v h =
    let a' = record_one a e in
    let m = a.max_size in
    let same : a'.max_size ≡ m = max_size-record_one a e in
    let step : contents a' ≡ keep_last a'.max_size (xs ++ e ∷ []) =
      contents-record_one a e v
      ∙ ap (λ ys. push m ys e) h
      ∙ push-keep_last m xs e v.size_pos
      ∙ ap (λ k. keep_last k (xs ++ e ∷ [])) (sym same) in
    contents-record_all es (xs ++ e ∷ []) a'
      (record_entry-IsValid a e.timestamp e.user e.cluster_name e.action e.command e.status v) step
    ∙ ap₂ keep_last same (append_assoc xs (e ∷ []) es)

record_all-IsValid : (es : List AuditEntry) (a : AuditLog) → IsValid a → IsValid (record_all a es)
unfolding record_all
record_all-IsValid [] a v = v
record_all-IsValid (e ∷ es) a v =
    record_all-IsValid es (record_one a e)
      (record_entry-IsValid a e.timestamp e.user e.cluster_name e.action e.command e.status v)

contents_new : (size : ℤ) → contents (new_audit_log size) ≡ []
unfolding contents new_audit_log read_from
contents_new (pos zero) = refl
contents_new (pos (suc n)) = refl
contents_new (negsuc n) = refl

recent-keep_last :
    (es : List AuditEntry) (a : AuditLog) (m n : ℕ)
    → IsValid a
    → contents a ≡ keep_last m es
    → recent_count a (if ltb a.count n then a.count else n) ≡ keep_last (min n m) es
recent-keep_last es a m n v h =
    let k : ℕ = if ltb a.count n then a.count else n in
    let c : a.count ≡ length es - (length es - m) =
      sym (length-contents a) ∙ ap length h ∙ length-drop (length es - m) es in
    recent_count-keep_last a k v (ground arith)
    ∙ ap (keep_last k) h
    ∙ drop-drop (length (keep_last m es) - k) (length es - m) es
    ∙ ap (λ j. drop j es) (ground (arith, length-drop (length es - m) es))

-- After any calls of Record on a new log, Recent with a number `n` returns the last entries that
-- were recorded, oldest first: `n` of them, but no more than the log's size.
pub recent-record_all :
    (size : ℤ) (es : List AuditEntry) (n : ℕ)
    → recent (record_all (new_audit_log size) es) (pos n)
      ≡ keep_last (min n (new_audit_log size).max_size) es
unfolding recent
recent-record_all size es n =
    let m = (new_audit_log size).max_size in
    let v = record_all-IsValid es (new_audit_log size) (new_audit_log-IsValid size) in
    recent-keep_last es (record_all (new_audit_log size) es) m n v (
      contents-record_all es [] (new_audit_log size) (new_audit_log-IsValid size)
        (contents_new size ∙ sym (keep_last_zero m [] (omega arith))))
