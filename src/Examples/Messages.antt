-- ===== src/Examples/Messages.antt =====
-- Runs of the envelope reader and of the limits on a message.
use cbr.Prelude.Results.{ok}
use cbr.Prelude.{◌≡◌, refl, none, some, [], ◌∷◌, codes, text_eq, pos}
use cbr.Encoding.Value.{
  Value, int, string, array, object, no_items, item, no_fields, field, get, as_str, find_field,
  is_object,
}
use cbr.Envelope.Limits.{check_limits}
use cbr.Envelope.Measures.{
  natural_limits, refuse_first, height, longest_array, widest_text, payload_bytes,
  check_limits-refuse_first,
}
use cbr.Envelope.Members.{
  check_members, closed_object, all_known, all_present, check_identifier, check_subject,
  check_requires, required_entries, check_payload, payload_members, payload_within, required_entry,
}
use cbr.Envelope.Names.{is_identifier, is_dotted_name}
use cbr.Encoding.Utf8.{utf8, encode_utf8}
use cbr.Encoding.Access.{as_natural, text_of}
use cbr.Encoding.Decimal.{digits, digits_from}
use cbr.Encoding.Equality.{value_eq}
use cbr.Envelope.Commands.{
  Command, parse_command, preconditions_of, precondition_entries, precondition,
}
use cbr.Envelope.Accepted.{IsCommand, parse_command-IsCommand}

abbrev nested_params : Value
nested_params = object (
    field (codes "payload") (array (item (string (codes "abc")) (item (array no_items) no_items)))
      no_fields)

check_limits-refuse_first_example :
    check_limits nested_params (natural_limits 1000 100 64 2 3)
    ≡ refuse_first (
        record { name = codes "max_depth"; measure = height nested_params; maximum = 3 }
        ∷ record {
          name = codes "max_array_items";
          measure = longest_array nested_params;
          maximum = 2;
        }
        ∷ record {
          name = codes "max_string_bytes";
          measure = widest_text nested_params;
          maximum = 64;
        }
        ∷ record {
          name = codes "max_payload_bytes";
          measure = payload_bytes (get nested_params (codes "payload"));
          maximum = 100;
        }
        ∷ [])
check_limits-refuse_first_example = check_limits-refuse_first nested_params 1000 100 64 2 3

abbrev work_subject : Value
work_subject = object (
    field (codes "kind") (string (codes "cbr.work"))
      (field (codes "id") (string (codes "w1")) no_fields))

abbrev envelope : Value
envelope = object (
    field (codes "operation") (string (codes "cbr.test.run")) (
      field (codes "message_id") (string (codes "m1")) (
        field (codes "command_id") (string (codes "c1")) (
          field (codes "dedupe_generation") (int (pos 1)) (
            field (codes "subject") work_subject (
              field (codes "preconditions")
                (array (
                  item
                    (object (
                      field (codes "subject") work_subject
                        (field (codes "revision") (int (pos 4)) no_fields)))
                    no_items))
                (field (codes "requires") (array (item (string (codes "core.events")) no_items)) (
                  field (codes "command_digest") (string (codes "sha256:00"))
                    (field (codes "payload") (object no_fields) no_fields)))))))))

abbrev command : Command
command = record {
  operation = codes "cbr.test.run";
  command_id = codes "c1";
  dedupe_generation = 1;
  subject = work_subject;
  preconditions = (work_subject, 4) ∷ [];
  authority_epoch = none;
  requires = codes "core.events" ∷ [];
  command_digest = codes "sha256:00";
  payload = object no_fields;
  grant = none;
  caused_by = [];
}

envelope_parses : parse_command envelope ≡ ok command
unfolding parse_command check_members closed_object all_known text_eq all_present get
    check_identifier is_identifier encode_utf8 is_dotted_name as_natural check_subject
    preconditions_of precondition_entries precondition check_requires required_entries text_of
    digits digits_from value_eq utf8 as_str find_field is_object check_payload payload_members
    payload_within required_entry
envelope_parses = refl

parse_command-IsCommand_example : IsCommand envelope command
parse_command-IsCommand_example = parse_command-IsCommand envelope command envelope_parses

-- One subject is written with its members in two orders: both preconditions are accepted.
abbrev swapped_subject : Value
swapped_subject = object (
    field (codes "id") (string (codes "w1"))
      (field (codes "kind") (string (codes "cbr.work")) no_fields))

abbrev precondition_on : Value → Value
precondition_on subject =
    object (field (codes "subject") subject (field (codes "revision") (int (pos 4)) no_fields))

swapped_subjects_parse :
    preconditions_of (
      some (
        array
          (item (precondition_on work_subject) (item (precondition_on swapped_subject) no_items))))
    ≡ ok ((work_subject, 4) ∷ (swapped_subject, 4) ∷ [])
unfolding preconditions_of precondition_entries precondition all_known check_subject text_eq get
    is_identifier encode_utf8 is_dotted_name as_natural text_of digits digits_from value_eq utf8
    as_str find_field is_object
swapped_subjects_parse = refl
