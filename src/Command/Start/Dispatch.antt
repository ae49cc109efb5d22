-- ===== src/Command/Start/Dispatch.antt =====
-- Which arguments start which command.
use zimaos_monitor.Base.{List, [], ◌∷◌, Bytes, codes, ◌≡◌, arith, str_eq_iff}
use zimaos_monitor.Command.Start.{run_update_with, run_setup_with, dispatch}

pub dispatch-update :
    (args rest : List Bytes) → dispatch args ≡ run_update_with rest → args ≡ codes "update" ∷ rest
unfolding dispatch
dispatch-update [] rest e = cc
dispatch-update (arg ∷ args) rest e = ground (arith, str_eq_iff arg (codes "update"))

pub dispatch-setup :
    (args rest : List Bytes) → dispatch args ≡ run_setup_with rest → args ≡ codes "setup" ∷ rest
unfolding dispatch
dispatch-setup [] rest e = cc
dispatch-setup (arg ∷ args) rest e = ground (arith, str_eq_iff arg (codes "setup"))
