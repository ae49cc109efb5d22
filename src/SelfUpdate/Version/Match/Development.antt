-- ===== src/SelfUpdate/Version/Match/Development.antt =====
-- What the development version pattern accepts, described without a matcher.
use zimaos_monitor.Base.{
  true, [], ◌∷◌, ◌++◌, Option, none, some, ◌⊎◌, inl, inr, ◌≢◌, ◌↔◌, ◌≡◌, refl, ap, sym, subst, ◌∙◌,
  bind-eq-some, Bytes, codes, All,
}
use zimaos_monitor.Text.{is_digit, is_some-eq-true, strip_prefix, strip_prefix-eq-some}
use zimaos_monitor.SelfUpdate.Version.{
  plus, literal, skip_v, at_end, three_numbers, is_lower_hex, dirty_end, is_development_version,
}
use zimaos_monitor.SelfUpdate.Version.Match.{
  Number, Stops, three_numbers_complete_at, skip_v-Number, skip_v-v, plus_sound, plus_complete,
  literal_sound, skip_v_cases, at_end_nil, at_end_sound, three_numbers_sound,
}

-- Nothing, or `-dirty`.
abbrev pub IsDirtyEnd : Bytes → Type 0
IsDirtyEnd s = (s ≡ []) ⊎ (s ≡ codes "-dirty")

-- The parts of `a.b.c-n-ghash`, with what `git describe` may put behind it.
pub record Described : Type 0 where
  pub major : Bytes
  pub minor : Bytes
  pub patch : Bytes
  pub commits : Bytes
  pub hash : Bytes
  pub dirty : Bytes

abbrev pub IsDescribed : Described → Type 0
IsDescribed d =
    Number d.major
    × Number d.minor
    × Number d.patch
    × Number d.commits
    × All (λ c. is_lower_hex c ≡ true) d.hash
    × (d.hash ≢ [])
    × IsDirtyEnd d.dirty

abbrev pub text_of : Described → Bytes
text_of d =
    d.major
    ++ (b'.'
        ∷ (d.minor
            ++ (b'.' ∷ (d.patch ++ (b'-' ∷ (d.commits ++ (b'-' ∷ b'g' ∷ (d.hash ++ d.dirty))))))))

-- The texts `a.b.c-n-ghash` and the same behind a `v` or before `-dirty`.
abbrev pub IsDevelopment : Bytes → Type 0
IsDevelopment s = (d : Described) × IsDescribed d × ((s ≡ text_of d) ⊎ (s ≡ b'v' ∷ text_of d))

dirty_end_sound : (s : Bytes) (u : Unit {0}) → dirty_end s ≡ some u → IsDirtyEnd s
unfolding dirty_end
dirty_end_sound s u h = go (strip_prefix s (codes "-dirty")) refl h
  where
    go :
        (r : Option Bytes)
        → strip_prefix s (codes "-dirty") ≡ r
        → ◌≡◌ {A = Option (Unit {0})} (elim r [ none ↦ at_end s | some t ↦ at_end t ]) (some u)
        → IsDirtyEnd s
    go none e k = inl (at_end_sound s u k)
    go (some t) e k =
        inr (
          strip_prefix-eq-some s (codes "-dirty") t e
          ∙ ap (codes "-dirty" ++◌) (at_end_sound t u k))

dirty_end_complete : (s : Bytes) → IsDirtyEnd s → dirty_end s ≡ some tt
unfolding dirty_end strip_prefix
dirty_end_complete s (inl e) = subst (λ t. dirty_end t ≡ some tt) (sym e) at_end_nil
dirty_end_complete s (inr e) = subst (λ t. dirty_end t ≡ some tt) (sym e) at_end_nil

is_development_version_sound : (s : Bytes) → is_development_version s ≡ true → IsDevelopment s
unfolding is_development_version
is_development_version_sound s h =
    let (u, e) = is_some-eq-true _ h in
    let (((a, b, c), r₁), e₁, h₁) = bind-eq-some (three_numbers (skip_v s)) _ e in
    let (r₂, e₂, h₂) = bind-eq-some (literal b'-' r₁) _ h₁ in
    let ((n, r₃), e₃, h₃) = bind-eq-some (plus is_digit r₂) _ h₂ in
    let (r₄, e₄, h₄) = bind-eq-some (literal b'-' r₃) _ h₃ in
    let (r₅, e₅, h₅) = bind-eq-some (literal b'g' r₄) _ h₄ in
    let ((x, r₆), e₆, h₆) = bind-eq-some (plus is_lower_hex r₅) _ h₅ in
    let (na, nb, nc, shape) = three_numbers_sound (skip_v s) a b c r₁ e₁ in
    let (s₂, dn, nn) = plus_sound is_digit r₂ n r₃ e₃ in
    let (s₅, hx, nx) = plus_sound is_lower_hex r₅ x r₆ e₆ in
    let s₁ = literal_sound b'-' r₁ r₂ e₂ in
    let s₃ = literal_sound b'-' r₃ r₄ e₄ in
    let s₄ = literal_sound b'g' r₄ r₅ e₅ in
    let d : Described = record {
      major = a;
      minor = b;
      patch = c;
      commits = n;
      hash = x;
      dirty = r₆;
    } in
    let whole : skip_v s ≡ text_of d = cc (shape, s₁, s₂, s₃, s₄, s₅) in
    (d, (na, nb, nc, (dn, nn), hx, nx, dirty_end_sound r₆ u h₆), skip_v_cases s (text_of d) whole)

Stops-IsDirtyEnd : (s : Bytes) → IsDirtyEnd s → Stops is_lower_hex s
Stops-IsDirtyEnd s (inl e) = rw e tt
Stops-IsDirtyEnd s (inr e) = rw e refl

is_development_version_complete :
    (s : Bytes) (d : Described)
    → skip_v s ≡ text_of d
    → IsDescribed d
    → is_development_version s ≡ true
unfolding is_development_version
is_development_version_complete s d e (na, nb, nc, (dn, nn), hx, nx, end) =
    let r₆ = d.dirty in
    let r₄ = b'g' ∷ (d.hash ++ r₆) in
    let r₂ = d.commits ++ (b'-' ∷ r₄) in
    rw
      (
        e,
        three_numbers_complete_at d.major d.minor d.patch (b'-' ∷ r₂) na nb nc refl,
        plus_complete is_digit d.commits (b'-' ∷ r₄) dn nn refl,
        plus_complete is_lower_hex d.hash r₆ hx nx (Stops-IsDirtyEnd r₆ end),
        dirty_end_complete r₆ end,
      )
      refl

-- The matcher accepts exactly the texts `a.b.c-n-ghash` of numbers and a hash in lower-case
-- hexadecimal, with a `v` in front or not and `-dirty` behind or not.
pub is_development_version_iff : (s : Bytes) → (is_development_version s ≡ true) ↔ IsDevelopment s
is_development_version_iff s = (
  is_development_version_sound s,
  λ (d, h, shape). elim shape [
    | inl e ↦ is_development_version_complete s d (ap skip_v e ∙ skip_v-Number d.major _ h.0) h
    | inr e ↦ is_development_version_complete s d (ap skip_v e ∙ skip_v-v (text_of d)) h
  ],
)
