-- ===== src/Skill/Rgw/Once.antt =====
-- What a call of optimize_rgw_pg runs in the pod.
use storage_bot.Base.{
  ◌≡◌, ◌⊎◌, true, false, List, [], ◌∷◌, ◌++◌, Text, lit, All, trim_space, split_at, has_suffix,
}
use storage_bot.Base.Result.{Result, err, ok}
use storage_bot.Executor.{Wire, run_ceph_command, run_shell_script}
use storage_bot.Skill.Context.{Context, arg}
use storage_bot.Skill.Rgw.{rgw_buckets_data_suffix, upmap_max, upmap_script}

-- The pool is the first line, without white space, that has the suffix.
pub record IsFirstPool (lines : List Text) (pool : Text) : Type 0 where
  before : List Text
  line : Text
  after : List Text
  split : lines ≡ before ++ line ∷ after
  trimmed : pool ≡ trim_space line
  suffixed : has_suffix pool rgw_buckets_data_suffix ≡ true
  none_before : All (λ l. has_suffix (trim_space l) rgw_buckets_data_suffix ≡ false) before

-- No line has the suffix, or the first one that has it is the pool.
abbrev Chosen : List Text → Text → Type 0
Chosen lines pool =
    ((pool ≡ []) × All (λ l. has_suffix (trim_space l) rgw_buckets_data_suffix ≡ false) lines)
    ⊎ IsFirstPool lines pool

module _ {W : Type 0} (wire : Wire W) (quote : Text → Text) where
  abbrev pub listing : W → Result Text × W
  listing w = run_ceph_command wire (lit "osd" ∷ lit "pool" ∷ lit "ls" ∷ []) w

  -- No call at all without a connection; or the listing alone, which failed or showed no pool with the
  -- suffix; or the listing and one script, for the first such pool.
  pub data Deed (sc : Context) (w : W) (r : Result Text × W) : Type 0 where
    no_call : sc.has_kube ≡ false → r.1 ≡ w → Deed sc w r
    not_listed : (e : Text) → (listing w).0 ≡ err e → r.1 ≡ (listing w).1 → Deed sc w r
    no_pool :
        (text : Text)
        → (listing w).0 ≡ ok text
        → All
            (λ l. has_suffix (trim_space l) rgw_buckets_data_suffix ≡ false)
            (split_at b'\n' [] text)
        → r.1 ≡ (listing w).1
        → Deed sc w r
    one_script :
        (text pool : Text)
        → (listing w).0 ≡ ok text
        → IsFirstPool (split_at b'\n' [] text) pool
        → r.1
          ≡ (run_shell_script wire
              (upmap_script quote (upmap_max (arg sc.args (lit "max"))) pool)
              (listing w).1).1
        → Deed sc w r
