-- ===== src/Grants/Decision.antt =====
-- crates/cbr-provider/src/grants.rs: the decision, with its reasons in their order.
use cbr.Prelude.Results.{Result, ok, err}
use cbr.Prelude.{
  Bool, true, false, ◌&&◌, ◌||◌, not, Option, none, some, List, [], ◌∷◌, Text, codes, text_eq,
  text_le, starts_with, all, any, if◌then◌else◌, ℤ, pos, negsuc, ltb_ℤ, ◌-ℤ◌,
}
use cbr.Encoding.Equality.{value_eq, int_eq}
use cbr.Encoding.Value.{Value, Items, no_items, item}
use cbr.Effects.{SubjectKey}
use cbr.Protocol.{ProtocolError, permission_denied}
use cbr.Grants.Records.{Resource, Binding, Grant}

-- `Resource::covers`
abbrev pub id_within : Option Text → Option Text → Text → Bool
id_within (some exact) id_prefix id = text_eq exact id
id_within none (some start) id = starts_with start id
id_within none none id = true

unfoldable pub covers : Resource → SubjectKey → Bool
covers r key = text_eq r.kind key.kind && id_within r.id r.id_prefix key.id

abbrev pub is_exactly : Option Text → Text → Bool
is_exactly none text = false
is_exactly (some other) text = text_eq other text

abbrev pub starts_within : Option Text → Option Text → Text → Bool
starts_within (some id) id_prefix start = starts_with start id
starts_within none (some child) start = starts_with start child
starts_within none none start = false

abbrev pub narrowed : Option Text → Option Text → Option Text → Option Text → Bool
narrowed none none child_id child_prefix = true
narrowed (some exact) id_prefix child_id child_prefix = is_exactly child_id exact
narrowed none (some start) child_id child_prefix = starts_within child_id child_prefix start

unfoldable pub covers_resource : Resource → Resource → Bool
covers_resource r narrower =
    text_eq r.kind narrower.kind && narrowed r.id r.id_prefix narrower.id narrower.id_prefix

pub data Denial : Type 0 where
  grant_not_found revoked expired authority_epoch_stale right_missing out_of_scope binding_violation
        delegation_exceeded not_authority grant_required :
      Denial

-- `Denial::reason`
abbrev pub denial_reason : Denial → Text
denial_reason grant_not_found = codes "grant_not_found"
denial_reason revoked = codes "revoked"
denial_reason expired = codes "expired"
denial_reason authority_epoch_stale = codes "authority_epoch_stale"
denial_reason right_missing = codes "right_missing"
denial_reason out_of_scope = codes "out_of_scope"
denial_reason binding_violation = codes "binding_violation"
denial_reason delegation_exceeded = codes "delegation_exceeded"
denial_reason not_authority = codes "not_authority"
denial_reason grant_required = codes "grant_required"

-- `Denial` into `ProtocolError`
abbrev pub refusal : Denial → ProtocolError
refusal denial = permission_denied (denial_reason denial)

abbrev pub grant_kind : Text
grant_kind = codes "core.grant"

-- `Grant::key`
abbrev pub grant_key : Text → SubjectKey
grant_key id = record { kind = grant_kind; id = id }

pub record Need : Type 0 where
  pub right : Text
  pub subject : Option SubjectKey

pub record Context : Type 0 where
  pub now : Text
  pub epochs : List (Text × ℤ)

-- `Context::epoch_of`: -1 for a scope that is not tracked.
abbrev pub find_epoch : List (Text × ℤ) → Text → ℤ
find_epoch [] scope = negsuc 0
find_epoch ((name, epoch) ∷ more) scope =
    if text_eq name scope then epoch else find_epoch more scope

abbrev pub has_expired : Option Text → Text → Bool
has_expired none now = false
has_expired (some expiry) now = text_le expiry now

abbrev pub is_stale : Option Binding → List (Text × ℤ) → Bool
is_stale none epochs = false
is_stale (some binding) epochs = not (int_eq (find_epoch epochs binding.scope) binding.epoch)

abbrev pub Allowed : Type 0
Allowed = Result (Unit {0}) Denial

unfoldable pub usable : Grant → Context → Allowed
usable g context =
    if g.revoked
    then err revoked
    else if has_expired g.expires_at context.now
    then err expired
    else if is_stale g.authority_binding context.epochs
    then err authority_epoch_stale
    else ok tt

-- `rights.contains(&right)`
abbrev pub holds_right : List Text → Text → Bool
holds_right rights right = any (λ held. text_eq held right) rights

abbrev pub covered : List Resource → Option SubjectKey → Bool
covered resources none = true
covered resources (some key) = any (λ r. covers r key) resources

-- Every right is checked before any resource.
unfoldable pub permits : Grant → List Need → Allowed
permits g needs =
    if not (all (λ need. holds_right g.rights need.right) needs)
    then err right_missing
    else if not (all (λ need. covered g.resources need.subject) needs)
    then err out_of_scope
    else ok tt

-- A child without an expiry would outlive a parent that has one.
abbrev pub outlives : Option Text → Option Text → Bool
outlives none child = false
outlives (some parent) none = true
outlives (some parent) (some child) = not (text_le child parent)

-- `constraints.contains(constraint)`
abbrev pub holds_value : Items → Value → Bool
holds_value no_items value = false
holds_value (item first more) value = value_eq first value || holds_value more value

abbrev pub holds_values : Items → Items → Bool
holds_values within no_items = true
holds_values within (item first more) = holds_value within first && holds_values within more

abbrev pub binding_eq : Binding → Binding → Bool
binding_eq a b = text_eq a.scope b.scope && int_eq a.epoch b.epoch

-- A bound parent passes its binding down unchanged.
abbrev pub rebinds : Option Binding → Option Binding → Bool
rebinds none child = false
rebinds (some parent) none = true
rebinds (some parent) (some child) = not (binding_eq child parent)

unfoldable pub may_delegate_to : Grant → Grant → Allowed
may_delegate_to g child =
    if not g.delegation.allowed || ltb_ℤ g.delegation.max_depth (pos 1)
    then err delegation_exceeded
    else if any (λ right. not (holds_right g.rights right)) child.rights
    then err delegation_exceeded
    else if not (
        all (λ resource. any (λ parent. covers_resource parent resource) g.resources)
          child.resources)
    then err delegation_exceeded
    else if outlives g.expires_at child.expires_at
    then err delegation_exceeded
    else if ltb_ℤ (g.delegation.max_depth -ℤ pos 1) child.delegation.max_depth
    then err delegation_exceeded
    else if not (holds_values child.constraints g.constraints)
    then err delegation_exceeded
    else if rebinds g.authority_binding child.authority_binding
    then err delegation_exceeded
    else ok tt

-- `Grant::covers`
abbrev pub covers_subject : Grant → SubjectKey → Bool
covers_subject g key = any (λ r. covers r key) g.resources

unfoldable pub may_read : Grant → SubjectKey → Text → Bool
may_read g key right = holds_right g.rights right && covers_subject g key
