-- ===== src/Examples/Authority.antt =====
-- Runs of the grants and of the identifiers.
use cbr.Prelude.Results.{ok}
use cbr.Prelude.{
  ◌≡◌, ◌≤◌, ◌⊎◌, zero, suc, List, text_eq, starts_with, text_le, ◌-ℤ◌, refl, arith, true, false,
  none, some, [], ◌∷◌, Bytes, codes, pos, pos_part, ℕ, ◌<◌, All, ◌||◌,
}
use cbr.Encoding.Value.{Value, int, string, array, object, no_items, item, no_fields, field}
use cbr.Grants.Records.{Grant, to_value, from_value}
use cbr.Grants.RoundTrip.{from_value-to_value}
use cbr.Grants.Decision.{
  Need, Context, usable, permits, covers, covers_resource, may_delegate_to, holds_value,
}
use cbr.Grants.Narrowing.{kept}
use cbr.Grants.Delegation.{
  Chain, itself, delegated, chain_length, chain-permits, chain_length-le-max_depth, chain-usable,
  chain-constraints,
}
use cbr.Encoding.Equality.{value_eq}
use cbr.Ids.Codec.{encode, decode}
use cbr.Ids.RoundTrip.{decode-encode_raw}
use cbr.Ids.Bounded.{is_whole, kept_digest, bounded}
use cbr.Ids.Grammar.{bounded-IsIdentifier}
use cbr.Ids.Apart.{bounded_apart}
use cbr.Envelope.Names.{identifier_bytes}

abbrev binding : Value
binding = object (
    field (codes "kind") (string (codes "evidence.work_binding")) (
      field (codes "work")
        (object (
          field (codes "kind") (string (codes "cbr.work"))
            (field (codes "id") (string (codes "w1")) no_fields)))
        no_fields))

abbrev parent_grant : Grant
parent_grant = record {
  id = codes "g1";
  issuer = codes "root";
  holder = codes "alice";
  audience = codes "cbr";
  rights = codes "read" ∷ codes "write" ∷ [];
  resources = record { kind = codes "cbr.work"; id = none; id_prefix = some (codes "w") } ∷ [];
  expires_at = some (codes "2026-01-02T00:00:00Z");
  authority_binding = some (record { scope = codes "s"; epoch = pos 3 });
  delegation = record { allowed = true; max_depth = pos 2 };
  parent = none;
  revoked = false;
  constraints = item binding no_items;
}

abbrev child_grant : Grant
child_grant = record parent_grant {
  id = codes "g2";
  holder = codes "bob";
  rights = codes "read" ∷ [];
  resources = record { kind = codes "cbr.work"; id = some (codes "w1"); id_prefix = none } ∷ [];
  expires_at = some (codes "2026-01-01T00:00:00Z");
  delegation = record { allowed = false; max_depth = pos 1 };
  parent = some (codes "g1");
}

from_value-to_value_example : from_value (to_value parent_grant) ≡ some parent_grant
from_value-to_value_example = from_value-to_value parent_grant

child_allowed : may_delegate_to parent_grant child_grant ≡ ok tt
unfolding may_delegate_to text_eq covers_resource starts_with text_le ◌-ℤ◌ value_eq
child_allowed = refl

abbrev chain : Chain parent_grant child_grant
chain = delegated itself child_grant child_allowed

abbrev needs : List Need
needs =
    record {
      right = codes "read";
      subject = some (record { kind = codes "cbr.work"; id = codes "w1" });
    }
    ∷ []

child_permits : permits child_grant needs ≡ ok tt
unfolding permits text_eq covers starts_with
child_permits = refl

chain-permits_example : permits parent_grant needs ≡ ok tt
chain-permits_example = chain-permits chain needs child_permits

chain_length-le-max_depth_example : chain_length chain ≤ pos_part parent_grant.delegation.max_depth
chain_length-le-max_depth_example = chain_length-le-max_depth chain

abbrev now : Context
now = record { now = codes "2025-12-31T00:00:00Z"; epochs = (codes "s", pos 3) ∷ [] }

child_usable : usable (kept child_grant) now ≡ ok tt
unfolding usable text_le text_eq
child_usable = refl

chain-usable_example : usable (kept parent_grant) now ≡ ok tt
chain-usable_example = chain-usable chain now child_usable

binding_held : holds_value parent_grant.constraints binding ≡ true
unfolding value_eq text_eq
binding_held = refl

chain-constraints_example : holds_value child_grant.constraints binding ≡ true
chain-constraints_example = chain-constraints chain binding binding_held

abbrev issue : Value
issue = object (
    field (codes "holder") (string (codes "alice")) (
      field (codes "audience") (string (codes "cbr")) (
        field (codes "rights")
          (array (item (string (codes "read")) (item (string (codes "write")) no_items)))
          (field (codes "resources")
            (array (
              item
                (object (
                  field (codes "kind") (string (codes "cbr.work"))
                    (field (codes "id_prefix") (string (codes "w")) no_fields)))
                no_items))
            (field (codes "expires_at") (string (codes "2026-01-02T00:00:00Z")) (
              field (codes "authority_binding")
                (object (
                  field (codes "scope") (string (codes "s"))
                    (field (codes "epoch") (int (pos 3)) no_fields)))
                (field (codes "delegation")
                  (object (
                    field (codes "allowed") (Value.bool true)
                      (field (codes "max_depth") (int (pos 2)) no_fields)))
                  (field (codes "constraints") (array (item binding no_items)) no_fields))))))))

abbrev path : Bytes
path = codes "a/b c:~"

path_bytes : All (λ byte. byte < 256) path
path_bytes = (
  omega arith,
  (omega arith, (omega arith, (omega arith, (omega arith, (omega arith, (omega arith, tt)))))),
)

decode-encode_raw_example : decode (encode path) ≡ some path
decode-encode_raw_example = decode-encode_raw path path_bytes

-- A hash of zeros.
abbrev zeros : ℕ → Bytes
zeros zero = []
zeros (suc n) = 0 ∷ zeros n

abbrev zero_hash : Bytes → Bytes
zero_hash bytes = zeros 32

zeros_bytes : (n : ℕ) → All (λ byte. byte < 256) (zeros n)
zeros_bytes zero = tt
zeros_bytes (suc n) = (omega arith, zeros_bytes n)

bounded-IsIdentifier_example :
    identifier_bytes (bounded zero_hash (codes "d-") (codes "span-r:a/b")) ≡ true
bounded-IsIdentifier_example =
    bounded-IsIdentifier zero_hash (λ bytes. zeros_bytes 32) (codes "d-") (codes "span-r:a/b") refl

bounded_apart_example :
    (codes "~a" ≡ codes "~a")
    ⊎ (((is_whole (codes "d-") (codes "~a") || is_whole (codes "d-") (codes "~a")) ≡ false)
        × (kept_digest zero_hash (codes "~a") ≡ kept_digest zero_hash (codes "~a")))
bounded_apart_example =
    bounded_apart zero_hash (λ bytes. refl) (codes "d-") (codes "~a") (codes "~a") refl
