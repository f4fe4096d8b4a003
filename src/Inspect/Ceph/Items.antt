-- ===== src/Inspect/Ceph/Items.antt =====
-- The findings on ceph are about their inspector, and about no node.
use storage_bot.Base.{
  refl, arith, Bool, true, false, List, [], ◌∷◌, Text, lit, Option, none, some, keep, map,
  trim_space, split_at, not, ◌&&◌, has_prefix, text_eq,
}
use storage_bot.Base.Int.{ℤ}
use storage_bot.Base.Decimal.{atoi}
use storage_bot.Regex.{Found, find, group_of}
use storage_bot.Inspect.Level.{Of}
use storage_bot.Inspect.Ceph.{
  Floats, QuorumStatus, parse_ceph_health, osd_finding, osd_stat_of, osd_stat_re, parse_osd_stat,
  df_number, df_of, df_total_re, parse_ceph_df, quorum_of, quorum_decoded, parse_mon_quorum,
  parse_pg_stat, parse_slow_ops, crash_finding, parse_crash_ls,
}

pub parse_ceph_health-Of : (raw : Text) → Of (lit "ceph_health") (parse_ceph_health raw)
unfolding parse_ceph_health
parse_ceph_health-Of raw = ground arith

pub parse_pg_stat-Of : (raw : Text) → Of (lit "ceph_pg") (parse_pg_stat raw)
unfolding parse_pg_stat
parse_pg_stat-Of raw = ground arith

pub parse_slow_ops-Of : (raw : Text) → Of (lit "ceph_slow_ops") (parse_slow_ops raw)
unfolding parse_slow_ops
parse_slow_ops-Of raw = ground arith

osd_finding-Of : (raw : Text) (a b c : ℤ) → Of (lit "ceph_osd") (osd_finding raw a b c)
unfolding osd_finding
osd_finding-Of raw a b c = ground arith

osd_stat_of-Of : (raw : Text) (o : Option Found) → Of (lit "ceph_osd") (osd_stat_of raw o)
unfolding osd_stat_of
osd_stat_of-Of raw none = (refl, refl)
osd_stat_of-Of raw (some f) =
    osd_finding-Of raw (atoi (group_of 1 f.groups)).0 (atoi (group_of 2 f.groups)).0
      (atoi (group_of 3 f.groups)).0

pub parse_osd_stat-Of : (raw : Text) → Of (lit "ceph_osd") (parse_osd_stat raw)
unfolding parse_osd_stat
parse_osd_stat-Of raw = osd_stat_of-Of raw (find osd_stat_re raw)

df_number-Of :
    {F : Type 0} (fl : Floats F) (raw : Text) (warn crit : ℤ) (word : Text) (r : F × Bool)
    → Of (lit "ceph_capacity") (df_number fl raw warn crit word r)
unfolding df_number
df_number-Of fl raw warn crit word (pct, false) = (refl, refl)
df_number-Of fl raw warn crit word (pct, true) = (refl, refl)

df_of-Of :
    {F : Type 0} (fl : Floats F) (raw : Text) (warn crit : ℤ) (o : Option Found)
    → Of (lit "ceph_capacity") (df_of fl raw warn crit o)
unfolding df_of
df_of-Of fl raw warn crit none = (refl, refl)
df_of-Of fl raw warn crit (some f) =
    df_number-Of fl raw warn crit (group_of 1 f.groups) (fl.parse_float (group_of 1 f.groups))

pub parse_ceph_df-Of :
    {F : Type 0} (fl : Floats F) (raw : Text) (warn crit : ℤ)
    → Of (lit "ceph_capacity") (parse_ceph_df fl raw warn crit)
unfolding parse_ceph_df
parse_ceph_df-Of fl raw warn crit = df_of-Of fl raw warn crit (find df_total_re raw)

quorum_decoded-Of :
    (raw : Text) (o : Option QuorumStatus) → Of (lit "ceph_mon") (quorum_decoded raw o)
unfolding quorum_decoded quorum_of
quorum_decoded-Of raw none = (refl, refl)
quorum_decoded-Of raw (some q) = ground arith

pub parse_mon_quorum-Of :
    (decode : Text → Option QuorumStatus) (raw : Text)
    → Of (lit "ceph_mon") (parse_mon_quorum decode raw)
unfolding parse_mon_quorum
parse_mon_quorum-Of decode raw = quorum_decoded-Of raw (decode raw)

crash_finding-Of : (raw : Text) (ls : List Text) → Of (lit "ceph_crash") (crash_finding raw ls)
unfolding crash_finding
crash_finding-Of raw [] = (refl, refl)
crash_finding-Of raw (l ∷ ls) = (refl, refl)

pub parse_crash_ls-Of : (raw : Text) → Of (lit "ceph_crash") (parse_crash_ls raw)
unfolding parse_crash_ls
parse_crash_ls-Of raw = crash_finding-Of raw (
    keep (λ s. not (text_eq s []) && not (has_prefix s (lit "ID")))
      (map trim_space (split_at b'\n' [] (trim_space raw))))
