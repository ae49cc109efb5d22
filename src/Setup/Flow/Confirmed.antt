-- ===== src/Setup/Flow/Confirmed.antt =====
-- The lines and the answers of a dialogue that goes through.
use zimaos_monitor.Base.{
  ◌≡◌, ◌≢◌, ◌⊎◌, inl, inr, refl, ap, ◌∙◌, arith, Bool, true, List, [], ◌∷◌, Bytes, ℕ, subst,
}
use zimaos_monitor.Setup.Input.{affirmative}
use zimaos_monitor.Setup.Flow.{
  Input, line, broken, got, Answers, ask_answers, answer, prompt_host, prompt_port, read_line,
  read_secret, print, insist, confirm_anonymous, Codec, ask_login, ask_password, confirm_answers,
  confirm,
}
use zimaos_monitor.Setup.Flow.Prompts.{PortLines, prompt_port-eq-got, HostLines, prompt_host-eq-got}
use zimaos_monitor.Setup.Flow.Reads.{lines, bind-eq-got, read_behind-eq-got}

answer-eq-got :
    (a b : Answers) (inputs rest : List Input)
    → (answer a inputs).0 ≡ got b rest
    → (a ≡ b) × (inputs ≡ rest)
answer-eq-got a b inputs rest h = (cc, cc)

insist-eq-got :
    (s : Bytes) (inputs rest : List Input) (u : Unit {0})
    → (insist s inputs).0 ≡ got u rest
    → (affirmative s ≡ true) × (inputs ≡ rest)
insist-eq-got s inputs rest u h = ground arith

-- The lines that follow a password: an affirmative one where there is a password without a username,
-- and else none.
abbrev pub IsAllowed : Bytes → Bytes → List Bytes → Type 0
IsAllowed username password asked =
    ((password ≢ []) × (username ≡ []) × (s : Bytes) × (asked ≡ s ∷ []) × (affirmative s ≡ true))
    ⊎ (((password ≡ []) ⊎ (username ≢ [])) × (asked ≡ []))

confirm_anonymous-eq-got :
    (username password : Bytes) (inputs rest : List Input) (u : Unit {0})
    → (confirm_anonymous username password inputs).0 ≡ got u rest
    → (asked : List Bytes) × IsAllowed username password asked × (inputs ≡ lines asked rest)
confirm_anonymous-eq-got username [] inputs rest u h = ([], inr (inl refl, refl), cc)
confirm_anonymous-eq-got (c ∷ name) (d ∷ password) inputs rest u h =
    ([], inr (inr (λ e. cc e), refl), cc)
confirm_anonymous-eq-got [] (d ∷ password) [] rest u h = cc
confirm_anonymous-eq-got [] (d ∷ password) (broken ∷ inputs) rest u h = cc
confirm_anonymous-eq-got [] (d ∷ password) (line s ∷ inputs) rest u h =
    let (affirmed, same) = insist-eq-got s inputs rest u h in
    (s ∷ [], inl (λ e. cc e, refl, s, refl, affirmed), ap (◌∷◌ (line s)) same)

module _ (is_ip : Bytes → Bool) where
  -- The lines of the inputs are, in this order: hosts that are refused and the one that is taken,
  -- ports that are refused and the one that is taken, the username, the password, an affirmative line
  -- if there is a password without a username, and an affirmative line. The rest is not read.
  pub record IsTyped (inputs : List Input) (answers : Answers) : Type 0 where
    pub rest : List Input
    pub after_host : List Input
    pub after_port : List Input
    pub hosts : HostLines is_ip inputs after_host answers.broker_host
    pub ports : PortLines after_host after_port answers.broker_port
    pub asked : List Bytes
    pub confirmation : Bytes
    pub login :
        after_port
        ≡ line answers.username ∷ line answers.password ∷ lines asked (line confirmation ∷ rest)
    pub allowed : IsAllowed answers.username answers.password asked
    pub affirmed : affirmative confirmation ≡ true

  ask_login-eq-got :
      (inputs rest : List Input) (login : Bytes × ℕ × Bytes)
      → (ask_login is_ip inputs).0 ≡ got login rest
      → (r₁ : List Input) × (r₂ : List Input) × HostLines is_ip inputs r₁ login.0
        × PortLines r₁ r₂ login.1
        × (r₂ ≡ line login.2 ∷ rest)
  unfolding ask_login
  ask_login-eq-got inputs rest login h =
      let (a, r₁, e₁, h₁) = bind-eq-got (prompt_host is_ip) _ inputs rest login h in
      let (n, r₂, e₂, h₂) = bind-eq-got prompt_port _ r₁ rest login h₁ in
      let (u, r₃, e₃, last) = bind-eq-got (read_line _) _ r₂ rest login h₂ in
      let same : (a, n, u) ≡ login = cc in
      let same_rest : r₃ ≡ rest = cc in
      (
        r₁,
        r₂,
        prompt_host-eq-got is_ip inputs r₁ login.0 (e₁ ∙ ap (λ x. got x.0 r₁) same),
        prompt_port-eq-got r₁ r₂ login.1 (e₂ ∙ ap (λ x. got x.1 r₂) same),
        read_behind-eq-got _ r₂ r₃ u e₃
            ∙ ap (λ x. line x.2 ∷ r₃) same
            ∙ ap (◌∷◌ (line login.2)) same_rest,
      )

  -- The lines from the password on
  record PasswordLines (login : Bytes × ℕ × Bytes) (inputs : List Input) (answers : Answers)
      : Type 0 where
    same_login : login ≡ (answers.broker_host, answers.broker_port, answers.username)
    rest : List Input
    asked : List Bytes
    confirmation : Bytes
    in_order : inputs ≡ line answers.password ∷ lines asked (line confirmation ∷ rest)
    allowed : IsAllowed answers.username answers.password asked
    affirmed : affirmative confirmation ≡ true

  ask_password-eq-got :
      (codec : Codec) (login : Bytes × ℕ × Bytes) (inputs rest : List Input) (answers : Answers)
      → (ask_password codec login inputs).0 ≡ got answers rest
      → PasswordLines login inputs answers
  unfolding ask_password confirm_answers confirm
  ask_password-eq-got codec (a, n, u) inputs rest answers h =
      let (p, r₁, e₁, h₁) = bind-eq-got (read_secret _) _ inputs rest answers h in
      let (t, r₂, e₂, h₂) = bind-eq-got (confirm_anonymous u p) _ r₁ rest answers h₁ in
      let (t', r₃, e₃, h₃) = bind-eq-got (print _) _ r₂ rest answers h₂ in
      let (c, r₄, e₄, h₄) = bind-eq-got (read_line _) _ r₃ rest answers h₃ in
      let (t'', r₅, e₅, last) = bind-eq-got (insist c) _ r₄ rest answers h₄ in
      let (asked, allowed, after) = confirm_anonymous-eq-got u p r₁ r₂ t e₂ in
      let printed : r₂ ≡ r₃ = cc in
      let confirmed : r₂ ≡ line c ∷ r₄ = printed ∙ read_behind-eq-got _ r₃ r₄ c e₄ in
      let (same, _) = answer-eq-got _ answers r₅ rest last in
      let same_name : u ≡ answers.username = ap (λ x. x.username) same in
      let same_password : p ≡ answers.password = ap (λ x. x.password) same in
      record {
        same_login = ap (λ x. (x.broker_host, x.broker_port, x.username)) same;
        rest = r₄;
        asked = asked;
        confirmation = c;
        in_order =
            read_behind-eq-got _ inputs r₁ p e₁
            ∙ ap (◌∷◌ (line p)) (after ∙ ap (lines asked) confirmed)
            ∙ ap (λ x. line x ∷ lines asked (line c ∷ r₄)) same_password;
        allowed = subst (λ x. IsAllowed x.username x.password asked) same allowed;
        affirmed = (insist-eq-got c r₄ r₅ t'' e₅).0;
      }

  -- Answers that the dialogue gives are those that were typed, each at its place, and confirmed.
  pub ask_answers-eq-got :
      (codec : Codec) (inputs rest : List Input) (answers : Answers)
      → (ask_answers is_ip codec inputs).0 ≡ got answers rest
      → IsTyped inputs answers
  unfolding ask_answers
  ask_answers-eq-got codec inputs rest answers h =
      let (login, r, e, h') = bind-eq-got (ask_login is_ip) _ inputs rest answers h in
      let (r₁, r₂, hosts, ports, name) = ask_login-eq-got inputs r login e in
      let l = ask_password-eq-got codec login r rest answers h' in
      record {
        rest = l.rest;
        after_host = r₁;
        after_port = r₂;
        hosts = subst (HostLines is_ip inputs r₁) (ap (λ x. x.0) l.same_login) hosts;
        ports = subst (PortLines r₁ r₂) (ap (λ x. x.1) l.same_login) ports;
        asked = l.asked;
        confirmation = l.confirmation;
        login =
            name
            ∙ ap (λ x. line x.2 ∷ r) l.same_login
            ∙ ap (◌∷◌ (line answers.username)) l.in_order;
        allowed = l.allowed;
        affirmed = l.affirmed;
      }
