-- ===== src/Setup/Flow/Secret.antt =====
-- The password is not among what the setup prints.
use zimaos_monitor.Base.{
  ◌≡◌, refl, sym, ap, ◌∙◌, Bool, false, if◌then◌else◌, ℕ, List, [], ◌∷◌, ◌++◌, Bytes, codes,
}
use zimaos_monitor.Text.{is_empty}
use zimaos_monitor.Setup.Flow.Prefix.{Stays-ask_login}
use zimaos_monitor.Setup.Flow.{
  Input, line, Reading, got, stopped, Answers, ask_answers, read_line, insist, Dialogue, ◌>>=◌,
  go_on, Codec, ask_login, ask_password, confirm_answers, confirm_anonymous, confirm, summary,
  transcript,
}

module _ {A B : Type 0} where
  -- Dialogues that go on alike print the same.
  go_on-same :
      (r : Reading A × List Bytes) (f g : A → Dialogue B)
      → ((a : A) (rest : List Input) → (f a rest).1 ≡ (g a rest).1)
      → (go_on r f).1 ≡ (go_on r g).1
  go_on-same (got a rest, out) f g same = ap (out ++◌) (same a rest)
  go_on-same (stopped e, out) f g same = refl

-- The answers with a password
abbrev with_password : Bytes × ℕ × Bytes → Bytes → Answers
with_password (h, n, u) p = record {
  broker_host = h;
  broker_port = n;
  username = u;
  password = p;
  confirmed = false;
}

-- Whatever the answers are, the confirmation prints the same.
confirm-same : (a b : Answers) (inputs : List Input) → (confirm a inputs).1 ≡ (confirm b inputs).1
unfolding confirm ◌>>=◌
confirm-same a b inputs =
    go_on-same (read_line _ inputs) _ _ λ s rest. go_on-same (insist s rest) _ _ λ _ _. refl

module _ (codec : Codec) (login : Bytes × ℕ × Bytes) (p q : Bytes) where
  summary-same :
      is_empty p ≡ is_empty q
      → summary codec (with_password login p) ≡ summary codec (with_password login q)
  unfolding summary
  summary-same same = rw same refl

  confirm_answers-same :
      (inputs : List Input)
      → is_empty p ≡ is_empty q
      → (confirm_answers codec (with_password login p) inputs).1
        ≡ (confirm_answers codec (with_password login q) inputs).1
  unfolding confirm_answers ◌>>=◌
  confirm_answers-same inputs same =
      ap (◌++ (confirm (with_password login p) inputs).1) (summary-same same)
      ∙ ap (summary codec (with_password login q) ++◌)
          (confirm-same (with_password login p) (with_password login q) inputs)

  confirm_anonymous-same :
      (inputs : List Input)
      → is_empty p ≡ is_empty q
      → confirm_anonymous login.2 p inputs ≡ confirm_anonymous login.2 q inputs
  confirm_anonymous-same inputs same = rw same refl

  ask_password-same :
      (inputs : List Input)
      → is_empty p ≡ is_empty q
      → (ask_password codec login (line p ∷ inputs)).1
        ≡ (ask_password codec login (line q ∷ inputs)).1
  unfolding ask_password ◌>>=◌
  ask_password-same inputs same = ap ((codes "MQTT password [none]: " ∷ codes "\n" ∷ []) ++◌) (
      go_on-same (confirm_anonymous login.2 p inputs) _ _ (λ _ rest. confirm_answers-same rest same)
      ∙ ap (λ r. (go_on r (λ _. confirm_answers codec (with_password login q))).1)
          (confirm_anonymous-same inputs same))

module _ (is_ip : Bytes → Bool) (codec : Codec) where
  ask_answers-hides_password :
      (before after : List Input) (login : Bytes × ℕ × Bytes) (out : List Bytes) (p q : Bytes)
      → ask_login is_ip before ≡ (got login [], out)
      → is_empty p ≡ is_empty q
      → (ask_answers is_ip codec (before ++ (line p ∷ after))).1
        ≡ (ask_answers is_ip codec (before ++ (line q ∷ after))).1
  unfolding ask_answers ◌>>=◌
  ask_answers-hides_password before after login out p q h same =
      ap (λ r. (go_on r (ask_password codec)).1)
        (Stays-ask_login is_ip before login [] out (line p ∷ after) h)
      ∙ ap (out ++◌) (ask_password-same codec login p q after same)
      ∙ sym (
          ap (λ r. (go_on r (ask_password codec)).1)
            (Stays-ask_login is_ip before login [] out (line q ∷ after) h))

  -- Once the host, the port and the username are given, what the setup prints does not depend on
  -- the password that is typed next, but for whether it is empty.
  pub transcript-hides_password :
      (terminal : Bool) (path : Bytes) (before after : List Input) (login : Bytes × ℕ × Bytes)
      (out : List Bytes) (p q : Bytes)
      → ask_login is_ip before ≡ (got login [], out)
      → is_empty p ≡ is_empty q
      → transcript is_ip codec terminal (before ++ (line p ∷ after)) path
        ≡ transcript is_ip codec terminal (before ++ (line q ∷ after)) path
  unfolding transcript
  transcript-hides_password terminal path before after login out p q h same =
      ap (λ x. if is_empty path then [] else if terminal then x else [])
        (ask_answers-hides_password before after login out p q h same)
