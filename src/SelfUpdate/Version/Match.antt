-- ===== src/SelfUpdate/Version/Match.antt =====
-- What the stable version pattern accepts, described without a matcher.
pub mod Development
use zimaos_monitor.Base.{
  ℕ, Bool, true, false, [], ◌∷◌, ◌++◌, some, ◌⊎◌, inl, inr, ◌≢◌, ◌↔◌, ◌≡◌, refl, arith,
  bind-eq-some, Bytes, All, append-nil,
}
use zimaos_monitor.Text.{is_digit, Digits}
use zimaos_monitor.SelfUpdate.Version.{
  span, nonempty, plus, literal, number_dot, skip_v, at_end, three_numbers, stable_submatch,
}

-- One or more digits.
abbrev pub Number : Bytes → Type 0
Number s = Digits s × (s ≢ [])

-- The text `a.b.c`.
abbrev pub dotted : Bytes → Bytes → Bytes → Bytes
dotted a b c = a ++ (b'.' ∷ (b ++ (b'.' ∷ c)))

abbrev pub IsStable : Bytes → Bytes → Bytes → Bytes → Type 0
IsStable s a b c = Number a × Number b × Number c × ((s ≡ dotted a b c) ⊎ (s ≡ b'v' ∷ dotted a b c))

-- The text does not go on with a byte that `p` accepts.
abbrev Stops : (ℕ → Bool) → Bytes → Type 0
Stops p [] = Unit
Stops p (c ∷ _) = p c ≡ false

module _ (p : ℕ → Bool) where
  span-split : (s : Bytes) → s ≡ (span p s).0 ++ (span p s).1
  unfolding span
  span-split [] = refl
  span-split (c ∷ s) = ground (arith, span-split s)

  span-All : (s : Bytes) → All (λ c. p c ≡ true) (span p s).0
  unfolding span
  span-All [] = tt
  span-All (c ∷ s) = ground (arith, span-All s)

  span-append : (t r : Bytes) → All (λ c. p c ≡ true) t → Stops p r → span p (t ++ r) ≡ (t, r)
  unfolding span
  span-append [] [] h stop = refl
  span-append [] (c ∷ r) h stop = ground arith
  span-append (c ∷ t) r (h, hs) stop = ground (arith, span-append t r hs stop)

  nonempty_sound :
      (q : Bytes × Bytes) (t r : Bytes)
      → nonempty q ≡ some (t, r)
      → (q.0 ≡ t) × (q.1 ≡ r) × (t ≢ [])
  unfolding nonempty
  nonempty_sound ([], rest) t r h = cc
  nonempty_sound (c ∷ run, rest) t r h = ground arith

  plus_sound :
      (s t r : Bytes) → plus p s ≡ some (t, r) → (s ≡ t ++ r) × All (λ c. p c ≡ true) t × (t ≢ [])
  unfolding plus
  plus_sound s t r h =
      let (taken, left, ne) = nonempty_sound (span p s) t r h in
      (cc (span-split s), rw taken at (span-All s), ne)

  plus_complete :
      (t r : Bytes) → All (λ c. p c ≡ true) t → t ≢ [] → Stops p r → plus p (t ++ r) ≡ some (t, r)
  unfolding plus nonempty
  plus_complete [] r h ne stop = absurd (ne refl)
  plus_complete (c ∷ t) r h ne stop = rw (span-append (c ∷ t) r h stop) refl

literal_sound : (d : ℕ) (s r : Bytes) → literal d s ≡ some r → s ≡ d ∷ r
unfolding literal
literal_sound d [] r h = cc
literal_sound d (c ∷ s) r h = ground arith

literal_complete : (d : ℕ) (r : Bytes) → literal d (d ∷ r) ≡ some r
unfolding literal
literal_complete d r = ground arith

number_dot_sound : (s a r : Bytes) → number_dot s ≡ some (a, r) → Number a × (s ≡ a ++ (b'.' ∷ r))
unfolding number_dot
number_dot_sound s a r h =
    let ((a', q), e, h') = bind-eq-some (plus is_digit s) _ h in
    let (q', e', last) = bind-eq-some (literal b'.' q) _ h' in
    let (shape, digits, ne) = plus_sound is_digit s a' q e in
    let same : a' ≡ a = cc last in
    let left : q' ≡ r = cc last in
    let number : Number a' = (digits, ne) in
    (rw same at number, cc (shape, same, left, literal_sound b'.' q q' e'))

pub three_numbers_sound :
    (s a b c r : Bytes)
    → three_numbers s ≡ some ((a, b, c), r)
    → Number a × Number b × Number c × (s ≡ a ++ (b'.' ∷ (b ++ (b'.' ∷ (c ++ r)))))
unfolding three_numbers
three_numbers_sound s a b c r h =
    let ((a', q), e, h') = bind-eq-some (number_dot s) _ h in
    let ((b', q'), e', h'') = bind-eq-some (number_dot q) _ h' in
    let ((c', q''), e'', last) = bind-eq-some (plus is_digit q') _ h'' in
    let (na, sa) = number_dot_sound s a' q e in
    let (nb, sb) = number_dot_sound q b' q' e' in
    let (sc, dc, nc) = plus_sound is_digit q' c' q'' e'' in
    let number : Number c' = (dc, nc) in
    let same_a : a' ≡ a = cc last in
    let same_b : b' ≡ b = cc last in
    let same_c : c' ≡ c = cc last in
    let left : q'' ≡ r = cc last in
    (
      rw same_a at na,
      rw same_b at nb,
      rw same_c at number,
      cc (sa, sb, sc, same_a, same_b, same_c, left),
    )

number_dot_complete : (a r : Bytes) → Number a → number_dot (a ++ (b'.' ∷ r)) ≡ some (a, r)
unfolding number_dot
number_dot_complete a r (d, ne) = rw (plus_complete is_digit a (b'.' ∷ r) d ne refl)

plus_end : (c : Bytes) → Number c → plus is_digit c ≡ some (c, [])
plus_end c (d, ne) = rw append-nil at (plus_complete is_digit c [] d ne tt)

skip_v_cases : (s t : Bytes) → skip_v s ≡ t → (s ≡ t) ⊎ (s ≡ b'v' ∷ t)
unfolding skip_v
skip_v_cases [] t h = inl h
skip_v_cases (c ∷ s) t h = ground arith

pub at_end_nil : at_end [] ≡ some tt
unfolding at_end
at_end_nil = refl

pub at_end_sound : (s : Bytes) (u : Unit {0}) → at_end s ≡ some u → s ≡ []
unfolding at_end
at_end_sound [] u h = refl
at_end_sound (c ∷ s) u h = cc

-- The three numbers are taken from the front of a text that does not go on with a digit.
three_numbers_complete_at :
    (a b c r : Bytes)
    → Number a
    → Number b
    → Number c
    → Stops is_digit r
    → three_numbers (dotted a b (c ++ r)) ≡ some ((a, b, c), r)
unfolding three_numbers
three_numbers_complete_at a b c r na nb (dc, nc) stop =
    rw
      (
        number_dot_complete a _ na,
        number_dot_complete b (c ++ r) nb,
        plus_complete is_digit c r dc nc stop,
      )
      refl

pub three_numbers_complete :
    (a b c : Bytes)
    → Number a
    → Number b
    → Number c
    → three_numbers (dotted a b c) ≡ some ((a, b, c), [])
three_numbers_complete a b c na nb nc =
    rw append-nil at (three_numbers_complete_at a b c [] na nb nc tt)

stable_submatch_sound : (s a b c : Bytes) → stable_submatch s ≡ some (a, b, c) → IsStable s a b c
unfolding stable_submatch
stable_submatch_sound s a b c h =
    let ((groups, rest), e, h') = bind-eq-some (three_numbers (skip_v s)) _ h in
    let (u, e', last) = bind-eq-some (at_end rest) _ h' in
    let same : groups ≡ (a, b, c) = cc last in
    let ended : rest ≡ [] = at_end_sound rest u e' in
    let found : three_numbers (skip_v s) ≡ some ((a, b, c), []) = cc (e, same, ended) in
    let (na, nb, nc, shape) = three_numbers_sound (skip_v s) a b c [] found in
    (na, nb, nc, skip_v_cases s (dotted a b c) (rw append-nil at shape))

skip_v-Number : (a rest : Bytes) → Number a → skip_v (a ++ rest) ≡ a ++ rest
unfolding skip_v
skip_v-Number [] rest (d, ne) = absurd (ne refl)
skip_v-Number (c ∷ a) rest ((d, ds), ne) = ground arith

skip_v-v : (s : Bytes) → skip_v (b'v' ∷ s) ≡ s
unfolding skip_v
skip_v-v s = refl

-- The matcher finds exactly the three numbers of the texts `a.b.c` and `va.b.c`.
pub stable_submatch_iff :
    (s a b c : Bytes) → (stable_submatch s ≡ some (a, b, c)) ↔ IsStable s a b c
unfolding stable_submatch
stable_submatch_iff s a b c = (
  stable_submatch_sound s a b c,
  λ (na, nb, nc, shape). elim shape [
    | inl bare ↦ rw (bare, skip_v-Number a _ na, three_numbers_complete a b c na nb nc) refl
    | inr tagged ↦ rw (tagged, skip_v-v (dotted a b c), three_numbers_complete a b c na nb nc) refl
  ],
)
