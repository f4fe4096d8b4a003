-- ===== src/Inspect/Samples.antt =====
-- Inputs that several test modules share.
use storage_bot.Base.{ℕ, ◌*◌, ◌/◌, none, [], lit, ltb, leb, ◌==◌}
use storage_bot.Base.Decimal.{atoi, itoa}
use storage_bot.Base.Int.{ℤ, pos, negsuc}
use storage_bot.Base.Result.{err, ok}
use storage_bot.Executor.{SshNode, Wire}
use storage_bot.Inspect.Ceph.{Floats}
use storage_bot.Inspect.Inspectors.{Thresholds}

abbrev pub size : ℤ → ℕ
size (pos n) = n
size (negsuc n) = 0

-- Whole numbers in the place of float64.
abbrev pub whole : Floats ℕ
whole = record {
  parse_float = λ s. (size (atoi s).0, (atoi s).1);
  of_int = size;
  leb_F = leb;
  ltb_F = ltb;
  eq_F = ◌==◌;
  zero_F = 0;
  hundred = 100;
  divided = λ a b. a / b;
  times = ◌*◌;
  fixed = λ n a. itoa (pos a);
  shortest = λ a. itoa (pos a);
}

abbrev pub probed : SshNode
probed = record {
  name = lit "n1";
  host = lit "10.0.0.1";
  user = lit "root";
  key_file = [];
  gateway_key_file = [];
}

-- A cluster where nothing answers.
abbrev pub silent : Wire (Unit {0})
silent = record {
  reach = λ w gateway. (ok tt, w);
  on_gateway = λ w gateway cmd. (ok none, w);
  session = λ w hop node cmd. (err (lit "timeout"), w);
  partial = λ w. [];
  exec = λ w args. (err (lit "timeout"), w);
  list_pods = λ w daemon. (err (lit "timeout"), w);
  delete_pod = λ w name. (err (lit "timeout"), w);
  denial_text = λ d. lit "denied";
  split_host_port = λ h. none;
}

abbrev pub limits : Thresholds ℕ
limits = record {
  capacity_warn_pct = pos 75;
  capacity_crit_pct = pos 85;
  mem_warn_pct = pos 90;
  mem_crit_pct = pos 95;
  fs_warn_pct = pos 80;
  fs_crit_pct = pos 90;
  disk_life_warn_pct = pos 80;
  disk_life_crit_pct = pos 90;
  load_warn_ratio = 2;
  pcie_min_speed_gts = 8;
}

abbrev pub other : SshNode
other = record {
  name = lit "n2";
  host = lit "10.0.0.2";
  user = lit "root";
  key_file = [];
  gateway_key_file = [];
}
