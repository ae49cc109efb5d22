-- ===== src/Collector/Upstream/Laws.antt =====
-- What a reader of `Latest` can see of the ZimaOS releases.
use zimaos_monitor.Base.{
  ℕ, true, List, [], ◌∷◌, ◌++◌, Option, some, Bytes, ◌≡◌, ◌↔◌, ◌⊎◌, inl, inr, refl, arith, ◌∙◌, ap,
  All, All-right, Bool-cases, ◌==◌, ==_iff, bind-eq-some, Option-cases, append-nil,
}
use zimaos_monitor.Base.Int.{ℤ}
use zimaos_monitor.Text.{is_some-eq-true}
use zimaos_monitor.SelfUpdate.Version.{three_numbers}
use zimaos_monitor.SelfUpdate.Version.Match.{
  Number, dotted, three_numbers_sound, three_numbers_complete, at_end_sound, at_end_nil,
}
use zimaos_monitor.SelfUpdate.Release.{HttpAnswer, bad_request, no_response, response}
use zimaos_monitor.SelfUpdate.Checker.Laws.{AtLeastHour, interval-AtLeastHour}
use zimaos_monitor.Collector.Upstream.{
  UpstreamRelease, UpstreamChecker, new_upstream_checker, shown, is_bare_version, take_release,
  Event, tick, done, fetch, serve, start,
}

-- The text `a.b.c` of three numbers.
abbrev pub IsBare : Bytes → Type 0
IsBare s =
    (a : Bytes) × (b : Bytes) × (c : Bytes) × Number a × Number b × Number c × (s ≡ dotted a b c)

is_bare_version_iff : (s : Bytes) → (is_bare_version s ≡ true) ↔ IsBare s
unfolding is_bare_version
is_bare_version_iff s = (
  sound,
  λ (a, b, c, na, nb, nc, e). rw (e, three_numbers_complete a b c na nb nc, at_end_nil) refl,
)
  where
    sound : is_bare_version s ≡ true → IsBare s
    sound h =
        let (u, e) = is_some-eq-true _ h in
        let (((a, b, c), rest), e', h') = bind-eq-some (three_numbers s) _ e in
        let ended : rest ≡ [] = at_end_sound rest u h' in
        let found : three_numbers s ≡ some ((a, b, c), []) = cc (e', ended) in
        let (na, nb, nc, shape) = three_numbers_sound s a b c [] found in
        (a, b, c, na, nb, nc, rw append-nil at shape)

-- The first release of the list whose tag is `a.b.c`.
abbrev pub IsFirst : List UpstreamRelease → UpstreamRelease → Type 0
IsFirst releases r =
    (before : List UpstreamRelease) × (after : List UpstreamRelease) × (releases
      ≡ before ++ (r ∷ after))
    × All (λ (q : UpstreamRelease). ¬ IsBare q.tag_name) before
    × IsBare r.tag_name

abbrev store_release : UpstreamRelease → ℕ → UpstreamChecker → UpstreamChecker
store_release r now u = record u {
  latest = r.tag_name;
  release_url = r.html_url;
  last_fetch = some now;
}

take_release-cases :
    (releases : List UpstreamRelease) (now : ℕ) (u : UpstreamChecker)
    → ((r : UpstreamRelease) × IsFirst releases r
        × (take_release releases now u ≡ store_release r now u))
      ⊎ (All (λ (q : UpstreamRelease). ¬ IsBare q.tag_name) releases
          × (take_release releases now u ≡ u))
unfolding take_release
take_release-cases [] now u = inr (tt, refl)
take_release-cases (r ∷ releases) now u = elim (Bool-cases (is_bare_version r.tag_name)) [
  | inl yes_bare ↦
      inl
        (r, ([], releases, refl, tt, (is_bare_version_iff r.tag_name).0 yes_bare), rw yes_bare refl)
  | inr not_bare ↦
      let absent : ¬ IsBare r.tag_name =
        λ bare. cc (not_bare, (is_bare_version_iff r.tag_name).1 bare) in
      elim (take_release-cases releases now u) [
        | inl (q, (before, after, e, none_, bare), result) ↦
            inl (q, (r ∷ before, after, ap (◌∷◌ r) e, (absent, none_), bare), rw not_bare result)
        | inr (none_, result) ↦ inr ((absent, none_), rw not_bare result)
      ]
]

module _ (decode : Bytes → Option (List UpstreamRelease)) where
  -- The answer is complete and lists a release to show: the first with a tag `a.b.c`.
  abbrev pub Offers : HttpAnswer → UpstreamRelease → Type 0
  Offers answer r =
      (size : Option ℕ) × (body : Bytes) × (releases : List UpstreamRelease) × (answer
        ≡ response 200 size body)
      × (decode body ≡ some releases)
      × IsFirst releases r

  abbrev pub OffersNone : HttpAnswer → Type 0
  OffersNone answer = (r : UpstreamRelease) → ¬ Offers answer r

  pub fetch-cases :
      (u : UpstreamChecker) (answer : HttpAnswer) (now : ℕ)
      → ((r : UpstreamRelease) × Offers answer r
          × (fetch decode u answer now ≡ store_release r now u))
        ⊎ (OffersNone answer × (fetch decode u answer now ≡ u))
  unfolding fetch
  fetch-cases u bad_request now = inr (λ r (_, _, _, e, _, _). cc e, refl)
  fetch-cases u no_response now = inr (λ r (_, _, _, e, _, _). cc e, refl)
  fetch-cases u (response status size body) now = elim (Bool-cases (status == 200)) [
    | inr other ↦ inr (
      λ r (_, _, _, e, _, _). let same : status ≡ 200 = cc e in ground (arith, other, same),
      rw other refl,
    )
    | inl fine ↦
        let status_ok : status ≡ 200 = (==_iff status 200).0 fine in
        elim (Option-cases (decode body)) [
          | inl bad ↦ inr (
            λ r (_, b, _, e, d, _). let same : body ≡ b = cc e in cc (bad, d, same),
            rw (fine, bad) refl,
          )
          | inr (releases, good) ↦ elim (take_release-cases releases now u) [
            | inl (r, first, result) ↦
                inl (
                  r,
                  (size, body, releases, rw status_ok refl, good, first),
                  rw (fine, good) result,
                )
            | inr (none_, result) ↦ inr (
              λ r (_, b, rs, e, d, first).
                  let same : body ≡ b = cc e in
                  let same_list : releases ≡ rs = cc (good, d, same) in
                  let (before, after, shape, _, bare) = first in
                  (All-right _ before (r ∷ after) (rw (same_list ∙ shape) at none_)).0 bare,
              rw (fine, good) result,
            )
          ]
        ]
  ]

  -- The answers that reach the goroutine before the context ends.
  abbrev pub answers : List Event → List HttpAnswer
  answers [] = []
  answers (done ∷ events) = []
  answers (tick answer now ∷ events) = answer ∷ answers events

  -- What is shown is of the last answer with a release to show.
  abbrev pub IsLast : List HttpAnswer → Bytes × Bytes → Type 0
  IsLast seen pair =
      (before : List HttpAnswer) × (answer : HttpAnswer) × (after : List HttpAnswer)
      × (r : UpstreamRelease) × (seen ≡ before ++ (answer ∷ after))
      × Offers answer r
      × All OffersNone after
      × (pair ≡ (r.tag_name, r.html_url))

  serve-shown :
      (u : UpstreamChecker) (events : List Event)
      → IsLast (answers events) (shown (serve decode u events))
        ⊎ (All OffersNone (answers events) × (shown (serve decode u events) ≡ shown u))
  unfolding serve
  serve-shown u [] = inr (tt, refl)
  serve-shown u (done ∷ events) = inr (tt, refl)
  serve-shown u (tick answer now ∷ events) = elim (serve-shown (fetch decode u answer now) events) [
    | inl (before, a, after, r, e, offers, none_, same) ↦
        inl (answer ∷ before, a, after, r, ap (◌∷◌ answer) e, offers, none_, same)
    | inr (none_, same) ↦ elim (fetch-cases u answer now) [
      | inl (r, offers, result) ↦
          inl ([], answer, answers events, r, refl, offers, none_, same ∙ ap shown result)
      | inr (absent, result) ↦ inr ((absent, none_), same ∙ ap shown result)
    ]
  ]

  -- From a new checker on, `Latest` shows the first release with a tag `a.b.c` in the last complete
  -- answer that lists one, or two empty texts if no answer does: other answers change nothing, and
  -- none counts after the context ends. The interval is an hour or more.
  pub upstream_latest :
      (interval : ℤ) (user_agent : Bytes) (first : HttpAnswer) (now : ℕ) (events : List Event)
      → let u = new_upstream_checker interval user_agent in
        let seen = first ∷ answers events in
        (IsLast seen (shown (start decode u first now events))
          ⊎ (All OffersNone seen × (shown (start decode u first now events) ≡ ([], []))))
        × AtLeastHour interval u.interval
  unfolding start new_upstream_checker
  upstream_latest interval user_agent first now events = (
    serve-shown (new_upstream_checker interval user_agent) (tick first now ∷ events),
    interval-AtLeastHour interval,
  )
