-- ===== src/Store/Samples.antt =====
-- A concrete hash for the examples: digests are trees, SHA-256 wraps a tree, and the text of a link
-- lists the predecessor and the fields of the entry.
mod Runs
use text.Mathlib.TextEquality.{eq_iff}
use causal_continuity_engine.Prelude.{
  ℕ, String, Bool, true, false, ◌&&◌, ◌==◌, nat_eq, string_eq, ==_refl, eqb_iff, Eq, Option, none,
  some, ◌≡◌, ◌≢◌, ◌↔◌, refl, ap, arith,
}
use causal_continuity_engine.Store.Rows.{Hashing, Entry, EventEntry, AuditEntry, event, audit}
use causal_continuity_engine.Store.Tamper.{Collisionless}

pub data Tree : Type 0 where
  nil : Tree
  wrap : Tree → Tree
  leaf : String → Tree
  num : ℕ → Tree
  node : Tree → Tree → Tree

unfoldable pub tree_beq : Tree → Tree → Bool
tree_beq nil nil = true
tree_beq (wrap a) (wrap b) = tree_beq a b
tree_beq (leaf s) (leaf t) = s == t
tree_beq (num n) (num m) = n == m
tree_beq (node a b) (node c d) = tree_beq a c && tree_beq b d
tree_beq _ _ = false

pub tree_beq_sound : (a b : Tree) → tree_beq a b ≡ true → a ≡ b
unfolding tree_beq
tree_beq_sound nil nil h = refl
tree_beq_sound (wrap a) (wrap b) h = ap wrap (tree_beq_sound a b h)
tree_beq_sound (leaf s) (leaf t) h = ap leaf ((eq_iff s t).0 h)
tree_beq_sound (num n) (num m) h = ap num ((eqb_iff n m).0 h)
tree_beq_sound (node a b) (node c d) h = ground (arith, tree_beq_sound a c, tree_beq_sound b d)
tree_beq_sound _ _ h = cc

pub tree_beq_refl : (a : Tree) → tree_beq a a ≡ true
unfolding tree_beq
tree_beq_refl nil = refl
tree_beq_refl (wrap a) = tree_beq_refl a
tree_beq_refl (leaf s) = ==_refl s
tree_beq_refl (num n) = ==_refl n
tree_beq_refl (node a b) = ground (arith, tree_beq_refl a, tree_beq_refl b)

abbrev pub tree_eq : Eq Tree
tree_eq = record {
  beq = tree_beq;
  beq_iff = λ a b. (tree_beq_sound a b, λ e. rw e (tree_beq_refl b));
}

abbrev pub hashing : Hashing
hashing = record {
  Digest = Tree;
  digest_eq = tree_eq;
  Text = Tree;
  empty_text = leaf "";
  sha256_hex = wrap;
  genesis = nil;
}

abbrev opt : Option String → Tree
opt none = nil
opt (some s) = leaf s

abbrev opt_digest : Option Tree → Tree
opt_digest none = nil
opt_digest (some d) = wrap d

abbrev fields : EventEntry Tree → Tree
fields e =
    node
      (node (leaf e.event_id) (
        node (leaf e.tenant_id)
          (node (leaf e.project_id) (node (leaf e.source_type) (opt e.source_id)))))
      (node
        (node (leaf e.idempotency_key) (
          node (leaf e.observed_at)
            (node (leaf e.recorded_at) (node (opt e.valid_from) (opt e.valid_to)))))
        (node
          (node (opt e.actor_type) (
            node (opt e.actor_id)
              (node (leaf e.authority) (node (leaf e.sensitivity) (leaf e.capture_mode)))))
          (node e.payload_digest (
            node (opt_digest e.stored_payload_digest) (node (leaf e.schema_version) (num e.seq))))))

abbrev audit_fields : AuditEntry → Tree
audit_fields e =
    node (node (leaf e.at) (node (leaf e.actor) (node (leaf e.action) (opt e.object_id))))
      (node (opt e.before_ref) (node (opt e.after_ref) (node (opt e.authority) (opt e.detail))))

unfoldable pub render : Tree → Entry Tree → Tree
render d (event e) = node d (node (num 0) (fields e))
render d (audit e) = node d (node (num 1) (audit_fields e))

opt-injective : (a b : Option String) → opt a ≡ opt b → a ≡ b
opt-injective a b h = ground arith

opt_digest-injective : (a b : Option Tree) → opt_digest a ≡ opt_digest b → a ≡ b
opt_digest-injective a b h = ground arith

audit_fields-injective : (a b : AuditEntry) → audit_fields a ≡ audit_fields b → a ≡ b
audit_fields-injective a b h = ground arith

fields-injective : (a b : EventEntry Tree) → fields a ≡ fields b → a ≡ b
fields-injective a b h = ground arith

tag : Tree → Tree
tag (node d (node t f)) = t
tag _ = nil

link_fields : Tree → Tree
link_fields (node d (node t f)) = f
link_fields _ = nil

render-prev : (d e : Tree) (x y : Entry Tree) → render d x ≡ render e y → d ≡ e
unfolding render
render-prev d e (event x) (event y) h = cc
render-prev d e (audit x) (audit y) h = cc
render-prev d e (event x) (audit y) h = cc
render-prev d e (audit x) (event y) h = cc

render-entry : (d e : Tree) (x y : Entry Tree) → render d x ≡ render e y → x ≡ y
unfolding render tag link_fields
render-entry d e (event x) (event y) h = ap event (fields-injective x y (ap link_fields h))
render-entry d e (audit x) (audit y) h = ap audit (audit_fields-injective x y (ap link_fields h))
render-entry d e (event x) (audit y) h = absurd (ground (arith, ap tag h))
render-entry d e (audit x) (event y) h = absurd (ground (arith, ap tag h))

-- The assumptions on SHA-256 and on the text of a link can hold.
pub collisionless : Collisionless hashing render
collisionless = record {
  sha256_injective = λ s t h. ground arith;
  genesis_fresh = λ t h. cc;
  render_prev = render-prev;
  render_entry = render-entry;
}
