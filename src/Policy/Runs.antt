-- ===== src/Policy/Runs.antt =====
-- Decisions of policy.py on concrete tables, and the theorems at them.
use causal_continuity_engine.Prelude.{
  ℕ, ◌≤◌, String, Bool, true, false, ltb, [], ◌∷◌, Option, none, some, In, ok, ◌≡◌, refl, arith,
}
use causal_continuity_engine.Prelude.Text.{is_blank}
use causal_continuity_engine.Policy.Scope.{Scope, scope_matches}
use causal_continuity_engine.Policy.Levels.{
  Downgrade, State, Config, grant, downgrade, active_grants, max_level, lowest, effective_level,
  in_force, ceiling_of,
}
use causal_continuity_engine.Policy.Levels.Lasting.{here, next, grants, downgrade_lasts}
use causal_continuity_engine.Policy.Decide.{
  Floats, Request, Decision, reversible, level_met, class_level, required_level, verdict, decide,
  is_guarded,
}
use causal_continuity_engine.Policy.Decide.Stricter.{
  Stricter, allowed_within_bounds, decide_monotone,
}

-- floats as tenths
abbrev tenths_only : Floats
tenths_only = record { Float = ℕ; lt = ltb; tenths = λ n. n }

abbrev clock : String → Option ℕ
clock s = some 0

abbrev exact : Scope → Scope → Bool
exact target pattern = true

abbrev config : Config
config = record { max_autonomy_level = 3; guarded_pr_enabled = false; tenant_max_level = 3 }

abbrev granted : State
granted = record {
  grants =
      (record {
        grant_id = "g1";
        project_id = "p";
        level = 3;
        scope = none;
        granted_by = "owner";
        expires_at = none;
        revoked = false;
      })
      ∷ [];
  downgrades = [];
  audited = "policy.grant" ∷ [];
}

abbrev careful : Request tenths_only
careful = record {
  action_type = "run_verifier";
  reversibility = reversible;
  evidence_quality = 3;
  blast_radius = 25;
  historical_reliability = 5;
  action_scope = none;
}

abbrev easy : Request tenths_only
easy = record careful { evidence_quality = 8; blast_radius = 1 }

abbrev allowed_at : ℕ → Decision
allowed_at n = record {
  allowed = true;
  required_level = n;
  effective_level = 3;
  applicable_grant_ids = "g1" ∷ [];
  reason = level_met 3 n;
}

abbrev audited : State
audited = record granted { audited = "policy.grant" ∷ "policy.decide" ∷ [] }

careful_run :
    decide tenths_only clock exact config "p" "now" careful granted ≡ ok (allowed_at 3, audited)
unfolding decide active_grants effective_level max_level lowest required_level class_level verdict
    is_guarded scope_matches is_blank
careful_run = refl

easy_run : decide tenths_only clock exact config "p" "now" easy granted ≡ ok (allowed_at 2, audited)
unfolding decide active_grants effective_level max_level lowest required_level class_level verdict
    is_guarded scope_matches is_blank
easy_run = refl

easy-careful : Stricter tenths_only easy careful
easy-careful = record {
  same_action = refl;
  same_scope = refl;
  reversibility = λ h. h;
  evidence = λ h. cc;
  history = λ h. h;
  radius = omega arith;
}

decide_monotone_example : (allowed_at 2).allowed ≡ true
decide_monotone_example =
    decide_monotone tenths_only clock exact config "p" "now" easy careful granted audited audited
      (allowed_at 2) (allowed_at 3) easy-careful careful_run easy_run refl

allowed_within_bounds_example :
    (required_level tenths_only careful ≤ 3)
    × (required_level tenths_only careful ≤ 3)
    × (3 ≤ 3)
    × (3 ≤ 3)
    × ((g : Downgrade) → In g granted.downgrades → in_force "p" g ≡ true → 3 ≤ ceiling_of g)
allowed_within_bounds_example =
    allowed_within_bounds tenths_only clock exact config "p" "now" careful granted audited
      (allowed_at 3) careful_run refl

abbrev none_yet : State
none_yet = record { grants = []; downgrades = []; audited = [] }

abbrev lowered : State
lowered = record {
  grants = [];
  downgrades = (record { project_id = "p"; ceiling = 1; cleared = false }) ∷ [];
  audited = "policy.downgrade" ∷ [];
}

abbrev regranted : State
regranted = record lowered {
  grants = granted.grants;
  audited = "policy.downgrade" ∷ "policy.grant" ∷ [];
}

lowering : downgrade "p" "failed_proof" 1 "cce" none_yet ≡ ok lowered
unfolding downgrade is_blank
lowering = refl

regranting : grant clock "g1" "p" 3 "owner" none none lowered ≡ ok regranted
unfolding grant is_blank
regranting = refl

still_low : effective_level clock exact config "p" "now" none regranted ≡ ok 1
unfolding effective_level active_grants max_level lowest scope_matches is_blank
still_low = refl

downgrade_lasts_example : ◌≤◌ 1 1
downgrade_lasts_example =
    downgrade_lasts clock exact config "p" "failed_proof" 1 "cce" "now" none none_yet lowered
      regranted 1 lowering (next here (grants "g1" "p" 3 "owner" none none regranting)) still_low
