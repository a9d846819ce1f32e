-- ===== src/Policy/Decide/Stricter.antt =====
-- "Every input can only make the decision stricter" (`decide` of policy.py), and what no input can
-- make allowed.
use causal_continuity_engine.Prelude.{
  ℕ, ◌≤◌, String, Bool, true, nat_eq, string_eq, Option, In, ok, ◌≡◌, sym, ap, ◌∙◌, arith, raise_if,
  value_error, >>=-eq-ok,
}
use causal_continuity_engine.Policy.Scope.{Scope}
use causal_continuity_engine.Policy.Levels.{
  State, Config, Downgrade, active_grants, effective_level, in_force, ceiling_of,
}
use causal_continuity_engine.Policy.Levels.Facts.{effective_level-le}
use causal_continuity_engine.Policy.Decide.{
  Floats, Request, Decision, class_level, is_irreversible, forced, widened, evidenced, seasoned,
  required_level, verdict, decide, improbable,
}

module _ (fl : Floats) where
  open fl use {Float, lt, tenths}

  -- `q` asks for the same action with no better classification, evidence or history.
  pub record Stricter (r q : Request fl) : Type 0 where
    pub same_action : q.action_type ≡ r.action_type
    pub same_scope : q.action_scope ≡ r.action_scope
    pub reversibility :
        is_irreversible r.reversibility ≡ true → is_irreversible q.reversibility ≡ true
    pub evidence : lt r.evidence_quality (tenths 4) ≡ true → lt q.evidence_quality (tenths 4) ≡ true
    pub history :
        lt r.historical_reliability (tenths 3) ≡ true
        → lt q.historical_reliability (tenths 3) ≡ true
    pub radius : r.blast_radius ≤ q.blast_radius

  forced_mono : (r q : Request fl) (m n : ℕ) → Stricter r q → m ≤ n → forced fl r m ≤ forced fl q n
  forced_mono r q m n s h = ground (arith, s.reversibility)

  widened_mono :
      (r q : Request fl) (m n : ℕ) → Stricter r q → m ≤ n → widened fl r m ≤ widened fl q n
  widened_mono r q m n s h = ground (arith, s.radius)

  evidenced_mono :
      (r q : Request fl) (m n : ℕ) → Stricter r q → m ≤ n → evidenced fl r m ≤ evidenced fl q n
  evidenced_mono r q m n s h = ground (arith, s.evidence)

  seasoned_mono :
      (r q : Request fl) (m n : ℕ) → Stricter r q → m ≤ n → seasoned fl r m ≤ seasoned fl q n
  seasoned_mono r q m n s h = ground (arith, s.history)

  required_level_mono :
      (r q : Request fl) → Stricter r q → required_level fl r ≤ required_level fl q
  unfolding required_level
  required_level_mono r q s = seasoned_mono r q _ _ s (
      evidenced_mono r q _ _ s (
        widened_mono r q _ _ s (
          forced_mono r q (class_level r.action_type) (class_level q.action_type) s
            (omega (arith, ap class_level s.same_action)))))

  verdict_mono :
      (config : Config) (r q : Request fl) (m n e : ℕ)
      → q.action_type ≡ r.action_type
      → m ≤ n
      → (verdict fl config q n e).0 ≡ true
      → (verdict fl config r m e).0 ≡ true
  unfolding verdict
  verdict_mono config r q m n e a b h = ground arith

  -- What `decide` computed, when it raised nothing.
  record Decided (parse_ts : String → Option ℕ) (fnmatchcase : Scope → Scope → Bool)
      (config : Config) (p now : String) (r : Request fl) (s : State) (d : Decision) : Type 0 where
    required : d.required_level ≡ required_level fl r
    effective :
        effective_level parse_ts fnmatchcase config p now r.action_scope s ≡ ok d.effective_level
    answered : d.allowed ≡ (verdict fl config r d.required_level d.effective_level).0

module _ (fl : Floats) (parse_ts : String → Option ℕ) (fnmatchcase : Scope → Scope → Bool)
    (config : Config) (p now : String) where
  decide-Decided :
      (r : Request fl) (s t : State) (d : Decision)
      → decide fl parse_ts fnmatchcase config p now r s ≡ ok (d, t)
      → Decided fl parse_ts fnmatchcase config p now r s d
  unfolding decide
  decide-Decided r s t d h =
      let (_, _, after_quality) =
        >>=-eq-ok (raise_if (improbable fl r.evidence_quality) value_error) _ h in
      let (_, _, after_history) =
        >>=-eq-ok (raise_if (improbable fl r.historical_reliability) value_error) _ after_quality in
      let (active, _, after_grants) = >>=-eq-ok (active_grants parse_ts p now s) _ after_history in
      let (n, level, last) =
        >>=-eq-ok (effective_level parse_ts fnmatchcase config p now r.action_scope s) _
          after_grants in
      let same_level : n ≡ d.effective_level = ground arith in
      record {
        required = ground arith;
        effective = level ∙ ap ok same_level;
        answered = ground arith;
      }

  -- An allowed action is below level 4, the effective level covers what the action requires, and
  -- that level is within the project's and the tenant's maxima and every ceiling in force.
  pub allowed_within_bounds :
      (r : Request fl) (s t : State) (d : Decision)
      → decide fl parse_ts fnmatchcase config p now r s ≡ ok (d, t)
      → d.allowed ≡ true
      → (required_level fl r ≤ 3)
        × (required_level fl r ≤ d.effective_level)
        × (d.effective_level ≤ config.max_autonomy_level)
        × (d.effective_level ≤ config.tenant_max_level)
        × ((g : Downgrade)
            → In g s.downgrades
            → in_force p g ≡ true
            → d.effective_level ≤ ceiling_of g)
  unfolding verdict
  allowed_within_bounds r s t d h a =
      let x = decide-Decided r s t d h in
      let (most, tenant, ceilings) =
        effective_level-le parse_ts fnmatchcase config p now r.action_scope s d.effective_level
          x.effective in
      (
        ground (arith, x.required, x.answered),
        ground (arith, x.required, x.answered),
        most,
        tenant,
        ceilings,
      )

  -- If `decide` allows a request, it allows every request that is at most as strict: no worse
  -- classification, evidence quality, history or blast radius turns a denial into an allowance.
  pub decide_monotone :
      (r q : Request fl) (s t u : State) (d e : Decision)
      → Stricter fl r q
      → decide fl parse_ts fnmatchcase config p now q s ≡ ok (e, u)
      → decide fl parse_ts fnmatchcase config p now r s ≡ ok (d, t)
      → e.allowed ≡ true
      → d.allowed ≡ true
  decide_monotone r q s t u d e st hq hr a =
      let x = decide-Decided r s t d hr in
      let y = decide-Decided q s u e hq in
      let scoped : effective_level parse_ts fnmatchcase config p now q.action_scope s
          ≡ ok d.effective_level =
        rw st.same_scope x.effective in
      let level : e.effective_level ≡ d.effective_level = cc (y.effective, scoped) in
      let less : d.required_level ≤ e.required_level =
        omega (arith, required_level_mono fl r q st, x.required, y.required) in
      x.answered
      ∙ verdict_mono fl config r q d.required_level e.required_level d.effective_level
          st.same_action less
          (ap (λ k. (verdict fl config q e.required_level k).0) (sym level) ∙ sym y.answered ∙ a)
