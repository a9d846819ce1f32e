-- ===== src/Policy/Levels/Facts.antt =====
-- What bounds the effective level of policy.py: the configuration, the tenant, and every downgrade
-- that is in force.
use causal_continuity_engine.Prelude.{
  ℕ, ◌≤◌, String, Bool, true, string_eq, if◌then◌else◌, List, [], ◌∷◌, Option, none, some, filter,
  In, ok, ◌≡◌, inl, inr, sym, subst, arith, >>=-eq-ok, Bool-cases, min,
}
use causal_continuity_engine.Policy.Scope.{Scope, scope_matches}
use causal_continuity_engine.Policy.Levels.{
  Downgrade, State, Config, in_force, ceiling_of, lowest, capped, active_grants, max_level,
  effective_level, active_downgrade_ceiling,
}

abbrev AtMost : Option ℕ → ℕ → Type 0
AtMost none n = ⊥
AtMost (some c) n = c ≤ n

-- a downgrade in force is no lower than the lowest
lowest-le :
    (project_id : String) (d : Downgrade) (ds : List Downgrade)
    → In d ds
    → in_force project_id d ≡ true
    → AtMost (lowest project_id ds) (ceiling_of d)
unfolding lowest
lowest-le p d [] m f = elim m [ ]
lowest-le p d (e ∷ ds) (inl same) f =
    subst (λ (x : Downgrade). AtMost (lowest p (e ∷ ds)) (ceiling_of x)) (sym same)
      (head (subst (λ (x : Downgrade). in_force p x ≡ true) same f) (lowest p ds))
  where
    head :
        in_force p e ≡ true
        → (rest : Option ℕ)
        → AtMost
            (if in_force p e
              then some (elim rest [ none ↦ ceiling_of e | some c ↦ min (ceiling_of e) c ])
              else rest)
            (ceiling_of e)
    head g none = rw g (omega arith)
    head g (some c) = rw g (omega arith)
lowest-le p d (e ∷ ds) (inr m) f = tail (lowest p ds) (lowest-le p d ds m f)
  where
    tail :
        (rest : Option ℕ)
        → AtMost rest (ceiling_of d)
        → AtMost
            (if in_force p e
              then some (elim rest [ none ↦ ceiling_of e | some c ↦ min (ceiling_of e) c ])
              else rest)
            (ceiling_of d)
    tail none h = elim h [ ]
    tail (some c) h = elim (Bool-cases (in_force p e)) [
      | inl yes_force ↦ rw yes_force (omega arith)
      | inr no_force ↦ rw no_force h
    ]

capped-le : (o : Option ℕ) (n : ℕ) → capped o n ≤ n
capped-le none n = omega arith
capped-le (some c) n = omega arith

capped-AtMost : (o : Option ℕ) (n m : ℕ) → AtMost o m → capped o n ≤ m
capped-AtMost none n m h = elim h [ ]
capped-AtMost (some c) n m h = omega arith

module _ (parse_ts : String → Option ℕ) (fnmatchcase : Scope → Scope → Bool) (config : Config) where
  -- The effective level passes neither the project's maximum, nor the tenant's, nor the ceiling of
  -- any downgrade of the project that is in force.
  pub effective_level-le :
      (project_id now : String) (scope : Option Scope) (s : State) (n : ℕ)
      → effective_level parse_ts fnmatchcase config project_id now scope s ≡ ok n
      → (n ≤ config.max_autonomy_level)
        × (n ≤ config.tenant_max_level)
        × ((d : Downgrade) → In d s.downgrades → in_force project_id d ≡ true → n ≤ ceiling_of d)
  unfolding effective_level
  effective_level-le project_id now scope s n h =
      let (active, listed, last) = >>=-eq-ok (active_grants parse_ts project_id now s) _ h in
      let m = max_level (filter (λ g. scope_matches fnmatchcase g.scope scope) active) in
      let level = min (min m config.max_autonomy_level) config.tenant_max_level in
      let capped_at : capped (active_downgrade_ceiling project_id s) level ≡ n = ground arith in
      let below = capped-le (active_downgrade_ceiling project_id s) level in
      (
        omega (arith, below, capped_at),
        omega (arith, below, capped_at),
        λ d m f.
            let c =
              capped-AtMost (active_downgrade_ceiling project_id s) level (ceiling_of d)
                (lowest-le project_id d s.downgrades m f) in
            omega (arith, c, capped_at),
      )
