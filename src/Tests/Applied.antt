-- ===== src/Tests/Applied.antt =====
-- A whole update on a machine where nothing fails.
use zimaos_monitor.Base.{arith, [], ◌∷◌, none, some, codes, bytes_discrete, refl, ◌≡◌, inl}
use zimaos_monitor.Text.{
  strip_prefix, parse_uint, skip_space, wide_space, wide_space_end, trim_space,
}
use zimaos_monitor.SelfUpdate.Version.{is_newer, parse_version, stable_submatch}
use zimaos_monitor.SelfUpdate.Release.{Release, fetch_latest}
use zimaos_monitor.SelfUpdate.Host.{ok}
use zimaos_monitor.SelfUpdate.Extract.{base}
use zimaos_monitor.SelfUpdate.Extract.Found.{TheBinary}
use zimaos_monitor.SelfUpdate.Apply.{set_apply_defaults, apply}
use zimaos_monitor.SelfUpdate.Apply.Spec.{RunsOn}
use zimaos_monitor.SelfUpdate.Apply.Progress.{IsSmooth}
use zimaos_monitor.SelfUpdate.Apply.Completes.{InOrder}
use zimaos_monitor.SelfUpdate.Apply.Whole.{Offered, IsEmptyDir, apply-ok}
use zimaos_monitor.Tests.Updates.{env, opts, old, world, tag, packed}

smooth : IsSmooth env
smooth = record { calls = λ _. refl; commands = λ _ _. refl; live = λ _. refl }

abbrev release : Release
release = record {
  version = tag;
  release_url = codes "h";
  asset_url = codes "u";
  checksum_url = [];
  sha256 = codes "ab";
  asset_name = codes "zimaos-monitor-1.2.0-linux-amd64.tar.gz";
  checksum_name = codes "zimaos-monitor-1.2.0-linux-amd64.tar.gz.sha256";
}

offered : Offered env (set_apply_defaults opts) release
unfolding fetch_latest is_newer parse_version stable_submatch parse_uint strip_prefix skip_space
    wide_space wide_space_end trim_space bytes_discrete
offered = record {
  answered = λ _. refl;
  newer = refl;
  artifact = λ e. cc e;
  other_name = λ e. cc e;
}

the_binary : TheBinary packed.entries (7 ∷ [])
unfolding bytes_discrete base
the_binary = inl (
  record {
    named = refl;
    regular = refl;
    intact = refl;
    content = refl;
    size = refl;
    some_bytes = omega arith;
    bounded = omega arith;
  },
  tt,
)

in_order : InOrder env release (7 ∷ [])
unfolding strip_prefix skip_space wide_space wide_space_end trim_space
in_order = record {
  file = [];
  size = none;
  archive = packed;
  output = tag;
  served = λ _. refl;
  announced_size = refl;
  bounded = omega arith;
  stated = λ e. cc e;
  hashed = refl;
  unpacked = refl;
  complete = refl;
  binary = the_binary;
  printed = λ _. refl;
  version = refl;
}

empty_dirs : IsEmptyDir env (set_apply_defaults opts) world
unfolding strip_prefix bytes_discrete
empty_dirs = record { fresh = λ _. (refl, refl); no_lock = λ _. refl; empty = λ _ name. refl }

installed : world.files (codes "/z") ≡ some old
unfolding bytes_discrete
installed = refl

apply-ok_example :
    let (r, w') = apply env opts world in
    (r ≡ ok tt)
    × (w'.files (codes "/z") ≡ some (7 ∷ []))
    × (w'.files (codes "/z.previous") ≡ none)
    × RunsOn (set_apply_defaults opts) (7 ∷ []) w'
apply-ok_example =
    apply-ok env opts release old (7 ∷ []) world smooth offered in_order empty_dirs installed
