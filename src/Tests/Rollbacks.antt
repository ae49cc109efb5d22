-- ===== src/Tests/Rollbacks.antt =====
-- An update that is interrupted behind the restart of the service.
use zimaos_monitor.Base.{arith, refl, leb, not, [], codes}
use zimaos_monitor.Base.Int.{pos}
use zimaos_monitor.SelfUpdate.Host.{Environment}
use zimaos_monitor.SelfUpdate.Apply.{ApplyOptions, check_or_rollback}
use zimaos_monitor.SelfUpdate.Apply.Interrupted.{
  ObeysContext, Interrupted, check_or_rollback-Interrupted,
}
use zimaos_monitor.Tests.Updates

-- The context ends behind the first command.
abbrev env : Environment
env = record Updates.env { cancelled = λ t. leb 1 t; command_succeeds = λ t _. not (leb 1 t) }

abbrev opts : ApplyOptions
opts = record {
  current_version = codes "1.1.9";
  executable_path = codes "/z";
  service_name = codes "z.service";
  user_agent = [];
  endpoint = [];
  health_delay = pos 0;
}

obeys : ObeysContext env
obeys = record { stays = λ t h. ground (arith, h); no_command = λ t _ h. ground (arith, h) }

check_or_rollback-Interrupted_example :
    let (r, w') = check_or_rollback env opts Updates.world in Interrupted opts Updates.world r w'
check_or_rollback-Interrupted_example =
    check_or_rollback-Interrupted env opts Updates.world obeys refl refl
