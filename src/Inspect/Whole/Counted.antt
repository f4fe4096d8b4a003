-- ===== src/Inspect/Whole/Counted.antt =====
-- What a tick counts, lists and sends.
use storage_bot.Base.{
  ℕ, ◌+◌, ◌≡◌, refl, sym, ap, ◌∙◌, arith, Bool, true, false, List, [], ◌∷◌, ◌++◌, append-nil,
  append_assoc, Text, length, length-append, if◌then◌else◌, sort_texts, none, some, Bool-cases, inl,
  inr,
}
use storage_bot.Base.Result.{Result, err, ok}
use storage_bot.Inspect.Level.{Level, level_ok, level_warn, level_critical, level_unknown, Report}
use storage_bot.Inspect.Whole.{
  Target, Tally, Summary, can_notify, notify, tally_level, tally_one, tick_from, target_clusters,
  summary_of, tick,
}

-- The answers of Run, one cluster after the other.
unfoldable pub answers :
    {M : Type 0} → (Text → M → Result Report × M) → List Text → M → List (Result Report)
answers runs [] m = []
answers runs (c ∷ cs) m = let (r, m') = runs c m in r ∷ answers runs cs m'

-- The tests on an answer.
pub fails : Result Report → Bool
fails (err e) = true
fails (ok r) = false

at_level : Bool → Bool → Bool → Level → Bool
at_level well warns alarms level_ok = well
at_level well warns alarms level_unknown = well
at_level well warns alarms level_warn = warns
at_level well warns alarms level_critical = alarms

of_report : Bool → Bool → Bool → Result Report → Bool
unfolding at_level
of_report well warns alarms (err e) = false
of_report well warns alarms (ok r) = at_level well warns alarms r.overall

-- A report that neither warns nor is critical; one that warns; one that is critical.
pub is_well : Result Report → Bool
unfolding of_report
is_well r = of_report true false false r

pub is_warning : Result Report → Bool
unfolding of_report
is_warning r = of_report false true false r

pub is_critical : Result Report → Bool
unfolding of_report
is_critical r = of_report false false true r

-- The clusters whose answers pass a test, in order.
unfoldable pub names : (Result Report → Bool) → List Text → List (Result Report) → List Text
names p [] rs = []
names p (c ∷ cs) [] = []
names p (c ∷ cs) (r ∷ rs) = let rest = names p cs rs in if p r then c ∷ rest else rest

alarm : Report → Level → List Report
alarm r level_ok = []
alarm r level_unknown = []
alarm r level_warn = r ∷ []
alarm r level_critical = r ∷ []

alarm_of : Result Report → List Report
unfolding alarm
alarm_of (err e) = []
alarm_of (ok r) = alarm r r.overall

-- The reports of these answers that warn or are critical.
unfoldable pub alarms : List (Result Report) → List Report
unfolding alarm_of
alarms [] = []
alarms (r ∷ rs) = alarm_of r ++ alarms rs

names-cons :
    (p : Result Report → Bool) (c : Text) (r : Result Report) (cs : List Text)
    (rs : List (Result Report))
    → names p (c ∷ cs) (r ∷ rs) ≡ names p (c ∷ []) (r ∷ []) ++ names p cs rs
unfolding names
names-cons p c r cs rs = elim (Bool-cases (p r)) [ inl e ↦ rw e refl | inr e ↦ rw e refl ]

module _ (target : Target) where
  abbrev pub sent_of : List Report → List Report
  sent_of rs = if can_notify target then rs else []

  -- What the answers of these clusters add to a tally.
  record Adds (t u : Tally) (cs : List Text) (rs : List (Result Report)) : Type 0 where
    wells : u.ok_names ≡ t.ok_names ++ names is_well cs rs
    failures : u.failed_names ≡ t.failed_names ++ names fails cs rs
    warnings : u.warn_count ≡ t.warn_count + length (names is_warning cs rs)
    criticals : u.crit_count ≡ t.crit_count + length (names is_critical cs rs)
    reports : u.notified ≡ t.notified ++ sent_of (alarms rs)

  notify-sent : (r : Report) (sent : List Report) → notify target r sent ≡ sent ++ sent_of (r ∷ [])
  unfolding notify
  notify-sent r sent = elim (Bool-cases (can_notify target)) [
    | inl e ↦ rw e refl
    | inr e ↦ rw (e, append-nil) refl
  ]

  nothing-sent : (sent : List Report) → sent ≡ sent ++ sent_of []
  nothing-sent sent = elim (Bool-cases (can_notify target)) [
    | inl e ↦ rw (e, append-nil) refl
    | inr e ↦ rw (e, append-nil) refl
  ]

  tally_level-Adds :
      (c : Text) (r : Report) (l : Level) (t : Tally)
      → r.overall ≡ l
      → Adds t (tally_level target c r l t) (c ∷ []) (ok r ∷ [])
  unfolding tally_level names fails is_well is_warning is_critical of_report at_level alarms
      alarm_of alarm
  tally_level-Adds c r level_ok t h = record {
    wells = rw h refl;
    failures = rw append-nil refl;
    warnings = rw h (omega arith);
    criticals = rw h (omega arith);
    reports = rw h (nothing-sent t.notified);
  }
  tally_level-Adds c r level_unknown t h = record {
    wells = rw h refl;
    failures = rw append-nil refl;
    warnings = rw h (omega arith);
    criticals = rw h (omega arith);
    reports = rw h (nothing-sent t.notified);
  }
  tally_level-Adds c r level_warn t h = record {
    wells = rw (h, append-nil) refl;
    failures = rw append-nil refl;
    warnings = rw h refl;
    criticals = rw h (omega arith);
    reports = notify-sent r t.notified ∙ ap (λ k. t.notified ++ sent_of (alarm r k ++ [])) (sym h);
  }
  tally_level-Adds c r level_critical t h = record {
    wells = rw (h, append-nil) refl;
    failures = rw append-nil refl;
    warnings = rw h (omega arith);
    criticals = rw h refl;
    reports = notify-sent r t.notified ∙ ap (λ k. t.notified ++ sent_of (alarm r k ++ [])) (sym h);
  }

  tally_one-Adds :
      (c : Text) (r : Result Report) (t : Tally) → Adds t (tally_one target c r t) (c ∷ []) (r ∷ [])
  unfolding tally_one names fails is_well is_warning is_critical of_report alarms alarm_of
  tally_one-Adds c (err e) t = record {
    wells = rw append-nil refl;
    failures = refl;
    warnings = omega arith;
    criticals = omega arith;
    reports = nothing-sent t.notified;
  }
  tally_one-Adds c (ok r) t = tally_level-Adds c r r.overall t refl

  sent_of-append : (xs ys : List Report) → sent_of (xs ++ ys) ≡ sent_of xs ++ sent_of ys
  sent_of-append xs ys = elim (Bool-cases (can_notify target)) [
    | inl e ↦ rw e refl
    | inr e ↦ rw e refl
  ]

  -- A list that two steps extend, and a number that they raise.
  chain :
      {A : Type 0} (x ys zs : List A) {y z all : List A}
      → y ≡ x ++ ys
      → z ≡ y ++ zs
      → all ≡ ys ++ zs
      → z ≡ x ++ all
  chain x ys zs h k e =
      k ∙ (ap (λ l. l ++ zs) h ∙ (append_assoc x ys zs ∙ ap (λ l. x ++ l) (sym e)))

  count_chain :
      (x : ℕ) (ys zs : List Text) {y z : ℕ} {all : List Text}
      → y ≡ x + length ys
      → z ≡ y + length zs
      → all ≡ ys ++ zs
      → z ≡ x + length all
  count_chain x ys zs h k e = omega (arith, ap length e, length-append ys zs)

  Adds-cons :
      (t u v : Tally) (c : Text) (r : Result Report) (cs : List Text) (rs : List (Result Report))
      → Adds t u (c ∷ []) (r ∷ [])
      → Adds u v cs rs
      → Adds t v (c ∷ cs) (r ∷ rs)
  unfolding alarms
  Adds-cons t u v c r cs rs a b = record {
    wells = chain _ _ _ a.wells b.wells (names-cons is_well c r cs rs);
    failures = chain _ _ _ a.failures b.failures (names-cons fails c r cs rs);
    warnings = count_chain _ _ _ a.warnings b.warnings (names-cons is_warning c r cs rs);
    criticals = count_chain _ _ _ a.criticals b.criticals (names-cons is_critical c r cs rs);
    reports = chain _ _ _ a.reports b.reports (
        sent_of-append (alarm_of r) (alarms rs)
        ∙ ap (λ l. sent_of l ++ sent_of (alarms rs)) (sym (append-nil (alarm_of r))));
  }

  module _ {M : Type 0} (runs : Text → M → Result Report × M) where
    tick_from-Adds :
        (cs : List Text) (t : Tally) (m : M)
        → Adds t (tick_from runs target cs t m).0 cs (answers runs cs m)
    unfolding tick_from answers names alarms
    tick_from-Adds [] t m = record {
      wells = rw append-nil refl;
      failures = rw append-nil refl;
      warnings = omega arith;
      criticals = omega arith;
      reports = nothing-sent t.notified;
    }
    tick_from-Adds (c ∷ cs) t m =
        let (r, m') = runs c m in
        Adds-cons t (tally_one target c r t)
          (tick_from runs target cs (tally_one target c r t) m').0 c r cs (answers runs cs m')
          (tally_one-Adds c r t) (tick_from-Adds cs (tally_one target c r t) m')

    -- The summary is the one of these clusters and answers.
    pub record Counts (s : Summary) (cs : List Text) (rs : List (Result Report)) : Type 0 where
      all : s.total ≡ length cs
      well_names : s.ok_names ≡ sort_texts (names is_well cs rs)
      well : s.well ≡ length (names is_well cs rs)
      warn : s.warn ≡ length (names is_warning cs rs)
      critical : s.critical ≡ length (names is_critical cs rs)
      failed_names : s.failed_names ≡ sort_texts (names fails cs rs)
      failed : s.failed ≡ length (names fails cs rs)

    -- What a tick over the target clusters counts and sends, by the answers of Run in their order. The
    -- summary lists and counts as failed the clusters whose answer is an error, as well those whose
    -- report neither warns nor is critical, and counts those that warn and those that are critical. The
    -- reports that warn or are critical are sent in order, and the summary too, if there are a notifier
    -- and a chat; otherwise nothing is sent.
    pub tick-Counts :
        (configured all : List Text) (m : M)
        → let ((s, sent), m') = tick runs target configured all m in
          let cs = target_clusters configured all in
          Counts s cs (answers runs cs m)
          × (sent.reports ≡ (if can_notify target then alarms (answers runs cs m) else []))
          × (sent.summary ≡ (if can_notify target then some s else none))
    unfolding tick summary_of
    tick-Counts configured all m =
        let cs = target_clusters configured all in
        let a =
          tick_from-Adds cs
            (record {
              ok_names = [];
              failed_names = [];
              warn_count = 0;
              crit_count = 0;
              notified = [];
            })
            m in
        (
          record {
            all = refl;
            well_names = ap sort_texts a.wells;
            well = ap length a.wells;
            warn = a.warnings ∙ omega arith;
            critical = a.criticals ∙ omega arith;
            failed_names = ap sort_texts a.failures;
            failed = ap length a.failures;
          },
          a.reports,
          refl,
        )
