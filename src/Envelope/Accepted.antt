-- ===== src/Envelope/Accepted.antt =====
-- What an accepted envelope looks like.
use cbr.Prelude.Results.{ok, Ensures, Ensures-bind, Ensures-ok, Ensures-weaken, Ensures-any}
use cbr.Prelude.{
  ℕ, ◌+◌, ◌≤◌, ◌≡◌, arith, Bool, true, false, ◌&&◌, not, Option, none, some, Option-cases,
  Bool-cases, inl, inr, List, [], ◌∷◌, ◌++◌, Text, codes, length, length-append, All, ltb, text_eq,
}
use cbr.Encoding.Access.{get_in}
use cbr.Encoding.Decimal.{digits}
use cbr.Encoding.Value.{Value, null, int, string, array, object, Items, no_items, item, get, as_str}
use cbr.Envelope.Limits.{count}
use cbr.Envelope.Names.{is_dotted_name}
use cbr.Envelope.Members.{
  command_members, command_required, holds, is_present, all_known, check_members, check_identifier,
  check_subject, has_slash, required_entry, required_entries, check_requires, requires_of,
  check_payload,
}
use cbr.Envelope.Commands.{
  Command, operation_of, natural_at, present, is_named, precondition, precondition_entries,
  preconditions_of, epoch_at, digest_at, payload_at, causes_at, parse_command,
}
use cbr.Envelope.Checked.{
  IsDistinct, same_subject_value, All-snoc, IsDistinct-snoc, all_known-Ensures, IsClosed,
  check_members-IsClosed, IsSubject, check_subject-IsSubject,
}

abbrev IsNew : List (Value × ℕ) → Value × ℕ → Type 0
IsNew before entry = IsSubject entry.0 × (is_named before entry.0 ≡ false)

precondition-IsNew :
    (path : Text) (before : List (Value × ℕ)) (entry : Value)
    → Ensures (IsNew before) (precondition path before entry)
unfolding precondition
precondition-IsNew path before (object members) =
    Ensures-bind _ _
      (all_known (path ++ codes "/") (codes "subject" ∷ codes "revision" ∷ []) members) _
      (all_known-Ensures (path ++ codes "/") (codes "subject" ∷ codes "revision" ∷ []) members)
      (λ done known. elim (Option-cases (get (object members) (codes "subject"))) [
        | inl e ↦ rw e tt
        | inr (subject, e) ↦ rw e (
            Ensures-bind _ _ (check_subject subject (path ++ codes "/subject")) _
              (check_subject-IsSubject subject (path ++ codes "/subject"))
              (λ done s.
                Ensures-bind _ _
                  (natural_at (path ++ codes "/revision") (get (object members) (codes "revision")))
                  _
                  (Ensures-any (
                    natural_at (path ++ codes "/revision")
                      (get (object members) (codes "revision"))))
                  (λ revision u. elim (Bool-cases (is_named before subject)) [
                    | inl f ↦ rw f tt
                    | inr f ↦ rw f (s, f)
                  ])))
      ])
precondition-IsNew path before null = tt
precondition-IsNew path before (Value.bool b) = tt
precondition-IsNew path before (int n) = tt
precondition-IsNew path before (string text) = tt
precondition-IsNew path before (array items) = tt

-- The preconditions: each on a subject, and no two on one subject value.
pub record ArePreconditions (entries : List (Value × ℕ)) : Type 0 where
  pub distinct : IsDistinct same_subject_value entries
  pub subjects : All (λ entry. IsSubject entry.0) entries

precondition_entries-Ensures :
    (before : List (Value × ℕ)) (index : ℕ) (items : Items)
    → ArePreconditions before
    → Ensures
        (λ entries. ArePreconditions entries × (length entries ≡ length before + count items))
        (precondition_entries before index items)
unfolding precondition_entries
precondition_entries-Ensures before index no_items p = (p, omega arith)
precondition_entries-Ensures before index (item entry more) p =
    Ensures-bind _ _ (precondition (codes "/preconditions/" ++ digits index) before entry) _
      (precondition-IsNew (codes "/preconditions/" ++ digits index) before entry)
      (λ read new.
        Ensures-weaken _ _ (precondition_entries (before ++ read ∷ []) (index + 1) more)
          (λ entries h. (h.0, omega (arith, h.1, length-append before (read ∷ []))))
          (precondition_entries-Ensures (before ++ read ∷ []) (index + 1) more (record {
            distinct = IsDistinct-snoc same_subject_value before read p.distinct new.1;
            subjects = All-snoc (λ e. IsSubject e.0) before read p.subjects new.0;
          })))

preconditions_of-Ensures :
    (found : Option Value)
    → Ensures (λ entries. ArePreconditions entries × (length entries ≤ 16)) (preconditions_of found)
unfolding preconditions_of
preconditions_of-Ensures (some (array items)) = elim (Bool-cases (ltb 16 (count items))) [
  | inl e ↦ rw e tt
  | inr e ↦ rw e (
      Ensures-weaken _ _ (precondition_entries [] 0 items) (λ entries h. (h.0, ground (arith, h.1)))
        (precondition_entries-Ensures [] 0 items (record { distinct = tt; subjects = tt })))
]
preconditions_of-Ensures none = tt
preconditions_of-Ensures (some null) = tt
preconditions_of-Ensures (some (Value.bool b)) = tt
preconditions_of-Ensures (some (int n)) = tt
preconditions_of-Ensures (some (string text)) = tt
preconditions_of-Ensures (some (object members)) = tt

-- The extension of that name, if it names one, is missing.
abbrev pub lacks_extension : Value → Text → Bool
lacks_extension envelope name =
    has_slash name && not (is_present (get_in (get envelope (codes "extensions")) name))

-- The requirements: no two are the same, and the extensions among them are declared.
pub record AreRequirements (envelope : Value) (names : List Text) : Type 0 where
  pub distinct : IsDistinct text_eq names
  pub declared : All (λ name. lacks_extension envelope name ≡ false) names

required_entry-Ensures :
    (envelope : Value) (seen : List Text) (index : ℕ) (entry : Value)
    → Ensures
        (λ name. (holds seen name ≡ false) × (lacks_extension envelope name ≡ false))
        (required_entry envelope seen index entry)
unfolding required_entry
required_entry-Ensures envelope seen index entry = elim (Option-cases (as_str entry)) [
  | inl e ↦ rw (e, required_entry) tt
  | inr (name, e) ↦
      rw (e, required_entry)
        (elim (Bool-cases (holds seen name)) [
          | inl f ↦ rw f tt
          | inr f ↦ elim (Bool-cases (lacks_extension envelope name)) [
            | inl g ↦ rw f (rw g tt)
            | inr g ↦ rw f (rw g (f, g))
          ]
        ])
]

required_entries-Ensures :
    (envelope : Value) (seen : List Text) (index : ℕ) (items : Items)
    → AreRequirements envelope seen
    → Ensures (AreRequirements envelope) (required_entries envelope seen index items)
unfolding required_entries
required_entries-Ensures envelope seen index no_items r = r
required_entries-Ensures envelope seen index (item entry more) r =
    Ensures-bind _ _ (required_entry envelope seen index entry) _
      (required_entry-Ensures envelope seen index entry)
      (λ name h. required_entries-Ensures envelope (seen ++ name ∷ []) (index + 1) more (record {
        distinct = IsDistinct-snoc text_eq seen name r.distinct h.0;
        declared = All-snoc (λ n. lacks_extension envelope n ≡ false) seen name r.declared h.1;
      }))

requires_of-Ensures :
    (envelope : Value) (found : Option Value)
    → Ensures (AreRequirements envelope) (requires_of envelope found)
requires_of-Ensures envelope none = record { distinct = tt; declared = tt }
requires_of-Ensures envelope (some (array items)) =
    required_entries-Ensures envelope [] 0 items (record { distinct = tt; declared = tt })
requires_of-Ensures envelope (some null) = tt
requires_of-Ensures envelope (some (Value.bool b)) = tt
requires_of-Ensures envelope (some (int n)) = tt
requires_of-Ensures envelope (some (string text)) = tt
requires_of-Ensures envelope (some (object members)) = tt

operation_of-Ensures :
    (found : Option Value) → Ensures (λ name. is_dotted_name name ≡ true) (operation_of found)
operation_of-Ensures (some (string name)) = elim (Bool-cases (is_dotted_name name)) [
  | inl e ↦ rw e e
  | inr e ↦ rw e tt
]
operation_of-Ensures none = tt
operation_of-Ensures (some null) = tt
operation_of-Ensures (some (Value.bool b)) = tt
operation_of-Ensures (some (int n)) = tt
operation_of-Ensures (some (array items)) = tt
operation_of-Ensures (some (object members)) = tt

-- A command that was read from an envelope.
pub record IsCommand (envelope : Value) (c : Command) : Type 0 where
  pub closed : IsClosed command_members command_required envelope
  pub operation : is_dotted_name c.operation ≡ true
  pub subject : IsSubject c.subject
  pub preconditions : ArePreconditions c.preconditions
  pub few : length c.preconditions ≤ 16
  pub requires : AreRequirements envelope c.requires

parse_command-Ensures : (envelope : Value) → Ensures (IsCommand envelope) (parse_command envelope)
unfolding parse_command check_requires
parse_command-Ensures envelope =
    Ensures-bind _ _ (check_members envelope command_members command_required) _
      (check_members-IsClosed envelope command_members command_required)
      (λ d₁ closed.
        Ensures-bind _ _ (check_identifier envelope (codes "message_id")) _ (Ensures-any _)
          (λ d₂ u₂.
            Ensures-bind _ _ (check_identifier envelope (codes "command_id")) _ (Ensures-any _)
              (λ d₃ u₃.
                Ensures-bind _ _ (check_identifier envelope (codes "grant")) _ (Ensures-any _)
                  (λ d₄ u₄.
                    Ensures-bind _ _ (operation_of (get envelope (codes "operation"))) _
                      (operation_of-Ensures (get envelope (codes "operation")))
                      (λ operation named.
                        Ensures-bind _ _
                          (natural_at (codes "/dedupe_generation")
                            (get envelope (codes "dedupe_generation")))
                          _ (Ensures-any _)
                          (λ dedupe_generation u₅.
                            Ensures-bind _ _
                              (check_subject (present envelope (codes "subject"))
                                (codes "/subject"))
                              _
                              (check_subject-IsSubject (present envelope (codes "subject"))
                                (codes "/subject"))
                              (λ d₅ subject.
                                Ensures-bind _ _
                                  (preconditions_of (get envelope (codes "preconditions"))) _
                                  (preconditions_of-Ensures (get envelope (codes "preconditions")))
                                  (λ preconditions p.
                                    Ensures-bind _ _
                                      (epoch_at (get envelope (codes "authority_epoch"))) _
                                      (Ensures-any _)
                                      (λ authority_epoch u₆.
                                        Ensures-bind _ _
                                          (requires_of envelope (get envelope (codes "requires"))) _
                                          (requires_of-Ensures envelope
                                            (get envelope (codes "requires")))
                                          (λ requires r.
                                            Ensures-bind _ _
                                              (digest_at (get envelope (codes "command_digest"))) _
                                              (Ensures-any _)
                                              (λ command_digest u₇.
                                                Ensures-bind _ _ (payload_at envelope) _
                                                  (Ensures-any _)
                                                  (λ payload u₈.
                                                    Ensures-bind _ _
                                                      (check_payload operation payload) _
                                                      (Ensures-any _)
                                                      (λ d₆ u₉.
                                                        Ensures-bind _ _
                                                          (causes_at
                                                            (get envelope (codes "caused_by")))
                                                          _ (Ensures-any _)
                                                          (λ caused_by u. record {
                                                            closed = closed;
                                                            operation = named;
                                                            subject = subject;
                                                            preconditions = p.0;
                                                            few = p.1;
                                                            requires = r;
                                                          }))))))))))))))

-- A command that is accepted came in a closed envelope with every required member; its operation
-- is a dotted name; it acts on a subject; its preconditions are at most sixteen, each on a
-- subject, and no two on equal values, where a subject written with its members in another order
-- counts as another value; its requirements differ, and the extensions among them are declared.
pub parse_command-IsCommand :
    (envelope : Value) (c : Command) → parse_command envelope ≡ ok c → IsCommand envelope c
parse_command-IsCommand envelope c e =
    Ensures-ok (IsCommand envelope) (parse_command envelope) c (parse_command-Ensures envelope) e
