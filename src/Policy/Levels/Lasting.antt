-- ===== src/Policy/Levels/Lasting.antt =====
-- A downgrade of policy.py lasts: no grant, revocation or further downgrade lifts it.
use causal_continuity_engine.Prelude.{
  ℕ, ◌≤◌, String, Bool, true, false, List, [], ◌∷◌, ◌++◌, Option, In, ok, leb, ◌≡◌, inl, inr, refl,
  subst, arith, ==_refl, string_eq,
}
use causal_continuity_engine.Policy.Scope.{Scope}
use causal_continuity_engine.Policy.Levels.{
  Downgrade, State, Config, ceiling_of, grant, revoke, downgrade, effective_level,
}
use causal_continuity_engine.Policy.Levels.Facts.{effective_level-le}

module _ (parse_ts : String → Option ℕ) where
  -- an accepted call that clears nothing
  pub data Step (s t : State) : Type 0 where
    grants :
        (gid p : String) (level : ℕ) (by : String) (scope : Option Scope) (until : Option String)
        → grant parse_ts gid p level by scope until s ≡ ok t
        → Step s t
    revokes : (gid actor : String) → revoke gid actor s ≡ ok t → Step s t
    downgrades :
        (p trigger : String) (ceiling : ℕ) (actor : String)
        → downgrade p trigger ceiling actor s ≡ ok t
        → Step s t

  pub data Steps (s : State) : State → Type 0 where
    here : Steps s s
    next : {t u : State} → Steps s t → Step t u → Steps s u

In-append_left : {A : Type 0} (a : A) (xs ys : List A) → In a xs → In a (xs ++ ys)
In-append_left a [] ys h = elim h [ ]
In-append_left a (x ∷ xs) ys (inl e) = inl e
In-append_left a (x ∷ xs) ys (inr h) = inr (In-append_left a xs ys h)

In-append_last : {A : Type 0} (a : A) (xs : List A) → In a (xs ++ a ∷ [])
In-append_last a [] = inl refl
In-append_last a (x ∷ xs) = inr (In-append_last a xs)

module _ (parse_ts : String → Option ℕ) where
  Step-keeps :
      (d : Downgrade) (s t : State) → Step parse_ts s t → In d s.downgrades → In d t.downgrades
  unfolding grant revoke downgrade
  Step-keeps d s t (grants gid p level by scope until h) m =
      let same : s.downgrades ≡ t.downgrades = ground arith in subst (In d) same m
  Step-keeps d s t (revokes gid actor h) m =
      let same : s.downgrades ≡ t.downgrades = ground arith in subst (In d) same m
  Step-keeps d s t (downgrades p trigger ceiling actor h) m =
      let more : s.downgrades
            ++ (record { project_id = p; ceiling = ceiling; cleared = false }) ∷ []
          ≡ t.downgrades =
        ground arith in
      subst (In d) more (In-append_left d s.downgrades _ m)

  Steps-keeps :
      (d : Downgrade) {s t : State} → Steps parse_ts s t → In d s.downgrades → In d t.downgrades
  Steps-keeps d here m = m
  Steps-keeps d (next {t} {u} r st) m = Step-keeps d t u st (Steps-keeps d r m)

  downgrade-In :
      (p trigger : String) (c : ℕ) (actor : String) (s t : State)
      → downgrade p trigger c actor s ≡ ok t
      → In (record { project_id = p; ceiling = c; cleared = false }) t.downgrades × (leb c 3 ≡ true)
  unfolding downgrade
  downgrade-In p trigger c actor s t h =
      let d : Downgrade = record { project_id = p; ceiling = c; cleared = false } in
      let more : s.downgrades ++ d ∷ [] ≡ t.downgrades = ground arith in
      (subst (In d) more (In-append_last d s.downgrades), ground arith)

  -- After an accepted downgrade, and any accepted grants, revocations and downgrades that follow,
  -- the effective level of the project is at most the downgrade's ceiling, whatever the scope, the
  -- time and the configuration; only clearing lifts it.
  pub downgrade_lasts :
      (fnmatchcase : Scope → Scope → Bool) (config : Config) (p trigger : String) (c : ℕ)
      (actor now : String) (scope : Option Scope) (s t u : State) (n : ℕ)
      → downgrade p trigger c actor s ≡ ok t
      → Steps parse_ts t u
      → effective_level parse_ts fnmatchcase config p now scope u ≡ ok n
      → n ≤ c
  downgrade_lasts fnmatchcase config p trigger c actor now scope s t u n h r e =
      let d : Downgrade = record { project_id = p; ceiling = c; cleared = false } in
      let (there, small) = downgrade-In p trigger c actor s t h in
      let bounds = effective_level-le parse_ts fnmatchcase config p now scope u n e in
      let at_most : n ≤ ceiling_of d = bounds.2 d (Steps-keeps d r there) (rw (==_refl p) refl) in
      ground arith
