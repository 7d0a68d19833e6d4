-- ===== src/Command/Bounds.antt =====
-- What a configuration that setConfig accepts holds.
use account_indexer.Common.{true, false, ◌||◌, ◌≡◌, refl, arith, not_true}
use account_indexer.Common.Int.{ℤ, pos, ltb_ℤ, leb_ℤ}
use account_indexer.Common.Outcome.{ok}
use account_indexer.DateTime.{Time}
use account_indexer.Config.{Configuration}
use account_indexer.Command.{Flags, seconds, times_unit, check, check_batch, set_config}

-- The numbers of a configuration are those of the flags, and within their bounds.
pub record IsValid (flags : Flags) (con : Configuration) : Type 0 where
  pub clean_interval : leb_ℤ (pos (seconds 1)) con.clean_interval ≡ true
  pub block_ttl : leb_ℤ (pos (seconds 3600)) con.block_ttl ≡ true
  pub watcher_interval : leb_ℤ (pos (seconds 1)) con.watcher_interval ≡ true
  pub oos_threshold : leb_ℤ (pos (seconds 1)) con.oos_threshold ≡ true
  pub at_least_one : leb_ℤ (pos 1) con.num_batch ≡ true
  pub at_most_127 : leb_ℤ con.num_batch (pos 127) ≡ true
  pub num_batch : con.num_batch ≡ flags.batch
  pub port : con.port ≡ flags.port

in_bounds : (a b c : ℤ) → (ltb_ℤ b a || ltb_ℤ c b) ≡ false → (leb_ℤ a b ≡ true) × (leb_ℤ b c ≡ true)
in_bounds a b c h = ground (arith, h)

not_less : (a b : ℤ) → ltb_ℤ a b ≡ false → leb_ℤ b a ≡ true
not_less a b h = ground (arith, h)

-- A configuration that setConfig accepts has intervals and a threshold of at least a second, a time
-- to live of at least an hour and between 1 and 127 batches, and the number of batches and the port
-- are those of the flags. It is assumed that setConfig returns.
pub set_config-IsValid :
    (flags : Flags) (now : Time) (con : Configuration)
    → (set_config flags now con).0 ≡ ok tt
    → IsValid flags (set_config flags now con).1
unfolding set_config check
set_config-IsValid flags now con h =
    let minute = times_unit (seconds 60) in
    let short = ltb_ℤ (minute flags.clean_interval) (pos (seconds 1)) in
    let e1 : short ≡ false = not_true short (λ e. cc (rw (e, check) at h)) in
    let h1 = rw (e1, check) at h in
    let brief = ltb_ℤ (times_unit (seconds 3600) flags.block_time_to_live) (pos (seconds 3600)) in
    let e2 : brief ≡ false = not_true brief (λ e. cc (rw (e, check) at h1)) in
    let h2 = rw (e2, check) at h1 in
    let short = ltb_ℤ (minute flags.watcher_interval) (pos (seconds 1)) in
    let e3 : short ≡ false = not_true short (λ e. cc (rw (e, check) at h2)) in
    let h3 = rw (e3, check) at h2 in
    let low = ltb_ℤ (times_unit (seconds 1) flags.oos_threshold) (pos (seconds 1)) in
    let e4 : low ≡ false = not_true low (λ e. cc (rw (e, check) at h3)) in
    let h4 = rw (e4, check) at h3 in
    let outside = ltb_ℤ flags.batch (pos 1) || ltb_ℤ (pos 127) flags.batch in
    let e5 : outside ≡ false = not_true outside (λ e. cc (rw (e, check_batch) at h4)) in
    let (low, high) = in_bounds (pos 1) flags.batch (pos 127) e5 in
    rw (e1, e2, e3, e4, e5)
      (record {
        clean_interval = not_less (minute flags.clean_interval) (pos (seconds 1)) e1;
        block_ttl =
            not_less (times_unit (seconds 3600) flags.block_time_to_live) (pos (seconds 3600)) e2;
        watcher_interval = not_less (minute flags.watcher_interval) (pos (seconds 1)) e3;
        oos_threshold = not_less (times_unit (seconds 1) flags.oos_threshold) (pos (seconds 1)) e4;
        at_least_one = low;
        at_most_127 = high;
        num_batch = refl;
        port = refl;
      })
