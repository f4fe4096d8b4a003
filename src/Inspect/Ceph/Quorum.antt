-- ===== src/Inspect/Ceph/Quorum.antt =====
-- The quorum of the monitors, as a majority.
use storage_bot.Base.{ℕ, ◌*◌, ◌<◌, ◌≤◌, ◌≡◌, ◌↔◌, arith, Text, Option, some, length, subst, sym}
use storage_bot.Inspect.Level.{level_ok, level_critical}
use storage_bot.Inspect.Ceph.{QuorumStatus, quorum_of, quorum_decoded, parse_mon_quorum}

quorum_of_lem :
    (raw : Text) (n total : ℕ)
    → (((quorum_of raw n total).level ≡ level_critical) ↔ ((0 < total) × (2 * n ≤ total)))
      × (((quorum_of raw n total).level ≡ level_ok) ↔ ((0 < total) × (total < 2 * n)))
unfolding quorum_of
quorum_of_lem raw n total = ground arith

-- When quorum_status is readable, the monitors are reported as critical exactly if there are some
-- and those in the quorum are no strict majority of them, and as well exactly if they are one.
pub parse_mon_quorum_lem :
    (decode : Text → Option QuorumStatus) (raw : Text) (q : QuorumStatus)
    → decode raw ≡ some q
    → (((parse_mon_quorum decode raw).level ≡ level_critical)
        ↔ ((0 < length q.mons) × (2 * length q.quorum ≤ length q.mons)))
      × (((parse_mon_quorum decode raw).level ≡ level_ok)
          ↔ ((0 < length q.mons) × (length q.mons < 2 * length q.quorum)))
unfolding parse_mon_quorum quorum_decoded
parse_mon_quorum_lem decode raw q h =
    subst
      (λ o.
        (((quorum_decoded raw o).level ≡ level_critical)
          ↔ ((0 < length q.mons) × (2 * length q.quorum ≤ length q.mons)))
        × (((quorum_decoded raw o).level ≡ level_ok)
            ↔ ((0 < length q.mons) × (length q.mons < 2 * length q.quorum))))
      (sym h) (quorum_of_lem raw (length q.quorum) (length q.mons))
