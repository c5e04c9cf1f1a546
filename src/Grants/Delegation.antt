-- ===== src/Grants/Delegation.antt =====
-- Delegation narrows: nothing is gained along a chain of grants.
use cbr.Prelude.Results.{ok}
use cbr.Prelude.{
  ℕ, suc, ◌+◌, ◌≤◌, ◌≡◌, arith, true, false, List, ℤ, pos, pos_part, neg_part, ltb_ℤ, ◌-ℤ◌,
}
use cbr.Encoding.Value.{Value}
use cbr.Grants.Records.{Grant}
use cbr.Grants.Decision.{Need, Context, usable, permits, holds_value, may_delegate_to}
use cbr.Grants.Narrowing.{
  may_delegate_to-IsNarrower, permits-narrows, kept, usable-narrows, holds_values-holds,
}

-- A grant that was delegated from another, and so on from the root.
pub data Chain (root : Grant) : Grant → Type 0 where
  itself : Chain root root
  delegated :
      {g : Grant}
      → Chain root g
      → (child : Grant) → may_delegate_to g child ≡ ok tt
      → Chain root child

abbrev pub chain_length : {root g : Grant} → Chain root g → ℕ
chain_length itself = 0
chain_length (delegated chain child e) = suc (chain_length chain)

-- What a grant permits, the root of the chain of grants that it was delegated through permits too.
pub chain-permits :
    {root g : Grant} (chain : Chain root g) (needs : List Need)
    → permits g needs ≡ ok tt
    → permits root needs ≡ ok tt
chain-permits itself needs e = e
chain-permits (delegated {g} chain child d) needs e =
    chain-permits chain needs
      (permits-narrows g child needs (may_delegate_to-IsNarrower g child d) e)

deeper_by_one :
    (k r s : ℕ) (p c : ℤ)
    → ltb_ℤ (p -ℤ pos 1) c ≡ false
    → k + pos_part p + r ≤ s + neg_part p
    → suc k + pos_part c + r ≤ s + neg_part c
unfolding ◌-ℤ◌
deeper_by_one k r s p c e h = ground arith

chain-depth :
    {root g : Grant} (chain : Chain root g)
    → let d = g.delegation.max_depth in
      let r = root.delegation.max_depth in
      chain_length chain + pos_part d + neg_part r ≤ pos_part r + neg_part d
chain-depth itself = omega arith
chain-depth {root} (delegated {g} chain child e) =
    let r = root.delegation.max_depth in
    let n = may_delegate_to-IsNarrower g child e in
    deeper_by_one (chain_length chain) (neg_part r) (pos_part r) g.delegation.max_depth
      child.delegation.max_depth n.deeper (chain-depth chain)

one_more :
    (k r s : ℕ) (p : ℤ) → ltb_ℤ p (pos 1) ≡ false → k + pos_part p + r ≤ s + neg_part p → suc k ≤ s
one_more k r s p e h = ground arith

-- Each delegation uses up a unit of depth: a chain is no longer than the depth of its root.
pub chain_length-le-max_depth :
    {root g : Grant} (chain : Chain root g)
    → chain_length chain ≤ pos_part root.delegation.max_depth
chain_length-le-max_depth itself = omega arith
chain_length-le-max_depth {root} (delegated {g} chain child e) =
    let r = root.delegation.max_depth in
    one_more (chain_length chain) (neg_part r) (pos_part r) g.delegation.max_depth
      (may_delegate_to-IsNarrower g child e).depth (chain-depth chain)

-- When a grant is usable but for its own revocation, so is the grant that its chain starts from:
-- that one has not expired either, and is not bound to another epoch.
pub chain-usable :
    {root g : Grant} (chain : Chain root g) (context : Context)
    → usable (kept g) context ≡ ok tt
    → usable (kept root) context ≡ ok tt
chain-usable itself context e = e
chain-usable (delegated {g} chain child d) context e =
    chain-usable chain context
      (usable-narrows g child context (may_delegate_to-IsNarrower g child d) e)

-- Every constraint of a grant stands in every grant that is delegated from it, however far.
pub chain-constraints :
    {root g : Grant} (chain : Chain root g) (constraint : Value)
    → holds_value root.constraints constraint ≡ true
    → holds_value g.constraints constraint ≡ true
chain-constraints itself constraint e = e
chain-constraints (delegated {g} chain child d) constraint e =
    holds_values-holds child.constraints g.constraints constraint
      (may_delegate_to-IsNarrower g child d).constraints (chain-constraints chain constraint e)
