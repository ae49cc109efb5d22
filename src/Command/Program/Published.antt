-- ===== src/Command/Program/Published.antt =====
-- The versions that the service publishes.
use zimaos_monitor.Base.{
  Bool, true, false, List, [], ◌∷◌, In, Option, none, some, Bytes, ◌≡◌, ◌⊎◌, inl, inr, refl, sym,
  ◌∙◌, subst, not, ◌&&◌, All, if◌then◌else◌,
}
use zimaos_monitor.Config.{is_enabled}
use zimaos_monitor.Mqtt.Client.{Retained, Broker}
use zimaos_monitor.Mqtt.Discovery.{state_topic_of, update_topic_of, monitor_update_topic_of}
use zimaos_monitor.SelfUpdate.Release.{GithubRelease}
use zimaos_monitor.Collector.Upstream.{UpstreamRelease}
use zimaos_monitor.Collector.Cpu.{CpuCollector}
use zimaos_monitor.Command.Info.{
  ZimaosInfo, MonitorUpdateInfo, new_zimaos_update_info, new_monitor_update_info, Metrics,
}
use zimaos_monitor.Command.Service.{
  Settings, Codecs, Moment, tick, Output, printed, sent, announced, State, collect, serve, loop,
  open_service, zimaos_info, monitor_state, metrics_of,
}
use zimaos_monitor.Command.Service.Measured.{IsMeasured, metrics_of-IsMeasured}
use zimaos_monitor.Command.Service.Steps.{payload_of}
use zimaos_monitor.Command.Service.Outputs.{EachRound, Allows, loop-All, open_service-All}
use zimaos_monitor.Command.Program.{
  Checkers, new_checkers, observed, Answer, Happening, answered, round, interrupted, fetch,
  fetch_all, run_with_checkers,
}
use zimaos_monitor.Command.Program.Offers.{
  IsZimaosOffer, IsMonitorOffer, Offers, new_checkers-Offers, fetch-Offers, fetch_all-Offers,
  rounds, run_with_checkers-eq-serve,
}

-- What the rounds meet before the signal
abbrev pub rounds_met : {F : Type 0} → List (Happening F) → List (Moment F)
rounds_met [] = []
rounds_met (interrupted ∷ happenings) = []
rounds_met (answered a ∷ happenings) = rounds_met happenings
rounds_met (round m ∷ happenings) = m ∷ rounds_met happenings

module _ {F : Type 0} (codecs : Codecs F) (settings : Settings) where
  -- The installed version is that of the machine, and the latest one may be offered.
  abbrev pub IsZimaosTruth : ZimaosInfo → Type 0
  IsZimaosTruth info =
      (info.installed_version ≡ settings.zimaos_version) × IsZimaosOffer info.latest_version

  abbrev pub IsMonitorTruth : MonitorUpdateInfo → Type 0
  IsMonitorTruth info =
      (info.installed_version ≡ settings.version) × IsMonitorOffer info.latest_version

  abbrev pub IsMetrics : List (Moment F) → Bytes → Type 0
  IsMetrics met p =
      (metrics : Metrics F) × (codecs.encode_metrics metrics ≡ some p)
      × IsMeasured codecs settings met metrics
      × IsZimaosTruth metrics.zimaos

  -- What is printed or sent is an encoding of the metrics of a round, or of versions, under its topic,
  -- and its versions are true.
  abbrev pub IsTruthful : List (Moment F) → Output → Type 0
  IsTruthful met (announced e) = Unit
  IsTruthful met (printed p) = IsMetrics met p
  IsTruthful met (sent t p) =
      ((t ≡ state_topic_of settings.cfg.device.id) × IsMetrics met p)
      ⊎ ((t ≡ update_topic_of settings.cfg.device.id)
          × (info : ZimaosInfo) × (codecs.encode_zimaos info ≡ some p)
          × IsZimaosTruth info)
      ⊎ ((t ≡ monitor_update_topic_of settings.cfg.device.id)
          × (info : MonitorUpdateInfo) × (codecs.encode_monitor info ≡ some p)
          × IsMonitorTruth info)

  -- The releases of a round may be offered.
  abbrev IsOffered : Moment F → Type 0
  IsOffered m = IsZimaosOffer m.zimaos_release.0 × IsMonitorOffer m.monitor_release.0

  IsZimaosTruth-info : (m : Moment F) → IsOffered m → IsZimaosTruth (zimaos_info codecs settings m)
  IsZimaosTruth-info m (z, _) = go (is_enabled settings.cfg.updates)
    where
      go :
          (b : Bool)
          → IsZimaosTruth (
              if b
              then new_zimaos_update_info settings.zimaos_version m.zimaos_release.0
                  m.zimaos_release.1
              else new_zimaos_update_info settings.zimaos_version [] [])
      go true = (refl, z)
      go false = (refl, inl refl)

  IsMonitorTruth-state :
      (m : Moment F) → IsOffered m → IsMonitorTruth (monitor_state codecs settings m)
  IsMonitorTruth-state m (_, o) = go (is_enabled settings.cfg.monitor_updates)
    where
      go :
          (b : Bool)
          → IsMonitorTruth (
              if b
              then new_monitor_update_info settings.version m.monitor_release.0 m.monitor_release.1
              else new_monitor_update_info settings.version [] [])
      go true = (refl, o)
      go false = (refl, inl refl)

  IsTruthful-Allows :
      (met : List (Moment F)) (checkers : Checkers) (m : Moment F)
      → In m met
      → Offers checkers
      → Allows codecs settings (IsTruthful met) (observed checkers m)
  IsTruthful-Allows met checkers m i o =
      let seen = observed checkers m in
      let is_metrics : (st : State) (p : Bytes)
          → payload_of codecs settings seen st ≡ some p
          → IsMetrics met p =
        λ st p e. (
          metrics_of codecs settings seen st,
          e,
          metrics_of-IsMeasured codecs settings met m _ _ st i,
          (unfold metrics_of in IsZimaosTruth-info seen o),
        ) in
      record {
        of_print = λ st p dry e. is_metrics st p e;
        of_state = λ st p wet e. inl (refl, is_metrics st p e);
        of_update = λ p wet e.
            inr (inl (refl, zimaos_info codecs settings seen, e, IsZimaosTruth-info seen o));
        of_monitor = λ p wet enabled e.
            inr (inr (refl, monitor_state codecs settings seen, e, IsMonitorTruth-state seen o));
      }

  module _ (decode_upstream : Bytes → Option (List UpstreamRelease))
      (decode_release : Bytes → Option GithubRelease) where
    rounds-Allows :
        (met : List (Moment F)) (happenings : List (Happening F)) (checkers : Checkers)
        → ((m : Moment F) → In m (rounds_met happenings) → In m met)
        → Offers checkers
        → EachRound
            (Allows codecs settings (IsTruthful met))
            (rounds decode_upstream decode_release codecs settings checkers happenings)
    rounds-Allows met [] checkers i o = tt
    rounds-Allows met (interrupted ∷ happenings) checkers i o = tt
    rounds-Allows met (answered a ∷ happenings) checkers i o =
        rounds-Allows met happenings (fetch decode_upstream decode_release checkers a) i
          (fetch-Offers decode_upstream decode_release checkers a o)
    rounds-Allows met (round m ∷ happenings) checkers i o = (
      IsTruthful-Allows met checkers m (i m (inl refl)) o,
      rounds-Allows met happenings checkers (λ x k. i x (inr k)) o,
    )

    looped-IsTruthful :
        (cpu : CpuCollector) (b : Broker) (store : Retained) (early : List Answer)
        (first : Moment F) (happenings : List (Happening F))
        → let checkers = fetch_all decode_upstream decode_release (new_checkers settings) early in
          All
            (IsTruthful (first ∷ rounds_met happenings))
            (loop codecs settings (open_service codecs settings cpu b store) (
              tick (observed checkers first)
              ∷ rounds decode_upstream decode_release codecs settings checkers happenings)).outputs
    looped-IsTruthful cpu b store early first happenings =
        let checkers = fetch_all decode_upstream decode_release (new_checkers settings) early in
        let offers =
          fetch_all-Offers decode_upstream decode_release early (new_checkers settings)
            (new_checkers-Offers settings) in
        let met = first ∷ rounds_met happenings in
        loop-All codecs settings (IsTruthful met) (λ e wet. tt)
          (tick (observed checkers first)
            ∷ rounds decode_upstream decode_release codecs settings checkers happenings)
          _
          (
            IsTruthful-Allows met checkers first (inl refl) offers,
            rounds-Allows met happenings checkers (λ m i. inr i) offers,
          )
          (open_service-All codecs settings (IsTruthful met) (λ e wet. tt) cpu b store)

    -- The same of every service that runs at all
    pub run_with_checkers-IsTruthful :
        (cpu : CpuCollector) (connects : Bool) (b : Broker) (store : Retained) (early : List Answer)
        (first : Moment F) (happenings : List (Happening F)) (st : State)
        → run_with_checkers decode_upstream decode_release codecs settings cpu connects b store
            early first happenings
          ≡ some st
        → All (IsTruthful (first ∷ rounds_met happenings)) st.outputs
    unfolding serve loop
    run_with_checkers-IsTruthful cpu connects b store early first happenings st h =
        let checkers = fetch_all decode_upstream decode_release (new_checkers settings) early in
        let same =
          run_with_checkers-eq-serve decode_upstream decode_release codecs settings cpu connects b
            store early first happenings in
        subst (λ (x : State). All (IsTruthful (first ∷ rounds_met happenings)) x.outputs)
          (go (not settings.dry_run && not connects)
            (loop codecs settings
              (collect codecs settings (open_service codecs settings cpu b store)
                (observed checkers first))
              (rounds decode_upstream decode_release codecs settings checkers happenings))
            (sym same ∙ h))
          (looped-IsTruthful cpu b store early first happenings)
      where
        go : (none_ : Bool) (x : State) → (if none_ then none else some x) ≡ some st → x ≡ st
        go true x e = cc
        go false x e = cc
