-- ===== src/Effects/Waits.antt =====
-- The life of an obligation, and that ending a wait is not an observation.
use cbr.Prelude.{
  ◌≡◌, refl, sym, ◌∙◌, ap, Bool, true, false, ◌&&◌, ◌||◌, none, some, Option-cases, Text, codes,
  text_eq, Bool-cases, inl, inr,
}
use cbr.Encoding.Value.{
  Value, null, int, string, array, object, Items, no_items, item, Fields, find_field, get, as_str,
}
use cbr.Effects.{
  status, text_of, items_of, latest, last, observation, snoc, change_obligations, text_field,
  set_state, is_text, is_waiting, waits_as, any_item, text_at, items_at, obligation_waiting,
  abort_fields, abort, is_overdue, overdue_fields, mark_overdue, is_settled, satisfy_fields,
  record_observation, push_item, observe,
}
use cbr.Effects.Edits.{
  map_option, find_field-update_same, find_field-update_other, get-change_obligations,
  get-record_observation, items_at-change_obligations, any_item-map_objects,
}

any_item-false : (items : Items) → any_item (λ value. false) items ≡ false
any_item-false no_items = refl
any_item-false (item value more) = any_item-false more

false-true : false ≡ true → ⊥
false-true e = cc

and_false : (b : Bool) → (b && false) ≡ false
and_false true = refl
and_false false = refl

-- The status and the id of an obligation whose state was set.
state-set_state :
    (state : Text) (members : Fields) (old : Value)
    → find_field (codes "state") members ≡ some old
    → find_field (codes "state") (set_state state members) ≡ some (string state)
state-set_state state members old e =
    find_field-update_same (codes "state") (λ x. string state) members
    ∙ ap (map_option (λ x. string state)) e

no_state-set_state :
    (state : Text) (members : Fields)
    → find_field (codes "state") members ≡ none
    → find_field (codes "state") (set_state state members) ≡ none
no_state-set_state state members e =
    find_field-update_same (codes "state") (λ x. string state) members
    ∙ ap (map_option (λ x. string state)) e

other-set_state :
    (state name : Text) (members : Fields)
    → text_eq (codes "state") name ≡ false
    → find_field name (set_state state members) ≡ find_field name members
other-set_state state name members d =
    find_field-update_other name (codes "state") (λ x. string state) members d

-- A state that is not waited in ends the wait.
ended_state :
    (state : Text) (members : Fields)
    → is_waiting (some state) ≡ false
    → is_waiting (text_field (set_state state members) (codes "state")) ≡ false
unfolding text_of
ended_state state members calm = elim (Option-cases (find_field (codes "state") members)) [
  | inl e ↦ ap (λ x. is_waiting (text_of x)) (no_state-set_state state members e)
  | inr (old, e) ↦ ap (λ x. is_waiting (text_of x)) (state-set_state state members old e) ∙ calm
]

abort_fields-waits :
    (obligation : Text) (members : Fields)
    → waits_as obligation (object (abort_fields obligation members)) ≡ false
unfolding get text_eq
abort_fields-waits obligation members =
    elim (Bool-cases (is_text (text_field members (codes "id")) obligation)) [
      | inl t ↦ rw t (
          ap
            (λ b.
              is_text (text_field (set_state (codes "aborted") members) (codes "id")) obligation
              && b)
            (ended_state (codes "aborted") members refl)
          ∙ and_false _)
      | inr f ↦ rw f (rw f refl)
    ]

no_id-waits :
    (obligation : Text) (value : Value)
    → ((name : Text) → get value name ≡ none)
    → waits_as obligation value ≡ false
unfolding text_of
no_id-waits obligation value e =
    ap (λ x. is_text (text_of x) obligation && is_waiting (text_at value (codes "state")))
      (e (codes "id"))

-- Aborting an obligation ends its wait, and does not touch the status of the effect.
pub abort-ends_wait :
    (record_value : Value) (obligation : Text)
    → (obligation_waiting (abort record_value obligation) obligation ≡ false)
      × (status (abort record_value obligation) ≡ status record_value)
unfolding obligation_waiting abort status text_eq
abort-ends_wait record_value obligation = (
  ap (any_item (waits_as obligation))
        (items_at-change_obligations (abort_fields obligation) record_value)
      ∙ any_item-map_objects (waits_as obligation) (λ value. false) (abort_fields obligation)
          (items_at record_value (codes "obligations")) (abort_fields-waits obligation)
          (no_id-waits obligation)
      ∙ any_item-false (items_at record_value (codes "obligations")),
  ap latest
      (get-change_obligations (codes "observations") (abort_fields obligation) record_value refl),
)

and_left : (a b : Bool) → (a && b) ≡ true → a ≡ true
and_left true b e = refl
and_left false b e = e

-- A state that was open is waited in when it is overdue.
overdue_state :
    (members : Fields)
    → is_text (text_field members (codes "state")) (codes "open") ≡ true
    → is_waiting (text_field (set_state (codes "overdue") members) (codes "state")) ≡ true
unfolding text_of text_eq
overdue_state members opened = elim (Option-cases (find_field (codes "state") members)) [
  | inl e ↦ absurd (false-true (sym (ap (λ x. is_text (text_of x) (codes "open")) e) ∙ opened))
  | inr (old, e) ↦
      ap (λ x. is_waiting (text_of x)) (state-set_state (codes "overdue") members old e)
]

overdue-waits :
    (now obligation : Text) (members : Fields)
    → waits_as obligation (object (overdue_fields now members))
      ≡ waits_as obligation (object members)
unfolding get text_eq
overdue-waits now obligation members = elim (Bool-cases (is_overdue now members)) [
  | inr f ↦ rw f refl
  | inl t ↦
      let opened = and_left _ _ t in
      rw t (
        ap
          (λ x.
            is_text (text_of x) obligation
            && is_waiting
                (text_of (find_field (codes "state") (set_state (codes "overdue") members))))
          (other-set_state (codes "overdue") (codes "id") members refl)
        ∙ ap (λ b. is_text (text_field members (codes "id")) obligation && b)
            (overdue_state members opened
              ∙ sym (
                  ap (λ b. b || is_text (text_field members (codes "state")) (codes "overdue"))
                    opened)))
]

-- Marking the obligations whose deadline has passed changes neither what is waited for nor the
-- status of the effect.
pub mark_overdue-keeps_waits :
    (record_value : Value) (now obligation : Text)
    → (obligation_waiting (mark_overdue record_value now).0 obligation
        ≡ obligation_waiting record_value obligation)
      × (status (mark_overdue record_value now).0 ≡ status record_value)
unfolding obligation_waiting mark_overdue status text_eq
mark_overdue-keeps_waits record_value now obligation = (
  ap (any_item (waits_as obligation))
        (items_at-change_obligations (overdue_fields now) record_value)
      ∙ any_item-map_objects (waits_as obligation) (waits_as obligation) (overdue_fields now)
          (items_at record_value (codes "obligations")) (overdue-waits now obligation)
          (λ value e. refl),
  ap latest (get-change_obligations (codes "observations") (overdue_fields now) record_value refl),
)

last-snoc : (items : Items) (value : Value) → last (snoc items value) ≡ some value
last-snoc no_items value = refl
last-snoc (item first no_items) value = refl
last-snoc (item first (item next more)) value = last-snoc (item next more) value

recorded-status :
    (record_value : Value) (items : Items) (outcome class source at : Text)
    → get record_value (codes "observations") ≡ some (array items)
    → status (record_observation (observation outcome class source at) record_value) ≡ outcome
unfolding status record_observation get text_eq text_of as_str
recorded-status (object members) items outcome class source at e =
    ap latest (
      find_field-update_same (codes "observations")
        (push_item (observation outcome class source at)) members
      ∙ ap (map_option (push_item (observation outcome class source at))) e)
    ∙ rw (last-snoc items (observation outcome class source at), latest) refl
recorded-status null items outcome class source at e = cc
recorded-status (Value.bool b) items outcome class source at e = cc
recorded-status (int n) items outcome class source at e = cc
recorded-status (string text) items outcome class source at e = cc
recorded-status (array xs) items outcome class source at e = cc

-- An obligation that an observed outcome would satisfy.
abbrev pub awaits_outcome : Value → Bool
awaits_outcome entry =
    is_text (text_at entry (codes "expects")) (codes "outcome")
    && is_waiting (text_at entry (codes "state"))

satisfy_fields-awaits :
    (members : Fields) → awaits_outcome (object (satisfy_fields members)) ≡ false
unfolding get text_eq
satisfy_fields-awaits members = elim (Bool-cases (awaits_outcome (object members))) [
  | inl t ↦ rw t (
      ap
        (λ b.
          is_text (text_field (set_state (codes "satisfied") members) (codes "expects"))
            (codes "outcome")
          && b)
        (ended_state (codes "satisfied") members refl)
      ∙ and_false _)
  | inr f ↦ rw f f
]

no_expects-awaits :
    (value : Value) → ((name : Text) → get value name ≡ none) → awaits_outcome value ≡ false
unfolding text_of
no_expects-awaits value e =
    ap (λ x. is_text (text_of x) (codes "outcome") && is_waiting (text_at value (codes "state")))
      (e (codes "expects"))

items_at-observed :
    (record_value value : Value)
    → items_at (record_observation value record_value) (codes "obligations")
      ≡ items_at record_value (codes "obligations")
unfolding text_eq
items_at-observed record_value value =
    ap items_of (get-record_observation (codes "obligations") value record_value refl)

module _ (record_value : Value) (outcome class source at : Text) where
  recorded : Value
  recorded = record_observation (observation outcome class source at) record_value

  observe-settled :
      is_settled outcome ≡ true
      → observe record_value outcome class source at ≡ change_obligations satisfy_fields recorded
  unfolding observe recorded
  observe-settled t = rw (t, observe) refl

  observe-unsettled :
      is_settled outcome ≡ false → observe record_value outcome class source at ≡ recorded
  unfolding observe recorded
  observe-unsettled f = rw (f, observe) refl

  observed-satisfies :
      is_settled outcome ≡ true
      → any_item awaits_outcome
          (items_at (observe record_value outcome class source at) (codes "obligations"))
        ≡ false
  observed-satisfies t =
      ap (λ r. any_item awaits_outcome (items_at r (codes "obligations"))) (observe-settled t)
      ∙ ap (any_item awaits_outcome) (items_at-change_obligations satisfy_fields recorded)
      ∙ any_item-map_objects awaits_outcome (λ value. false) satisfy_fields
          (items_at recorded (codes "obligations")) satisfy_fields-awaits no_expects-awaits
      ∙ any_item-false (items_at recorded (codes "obligations"))

  observed-keeps :
      (obligation : Text)
      → is_settled outcome ≡ false
      → obligation_waiting (observe record_value outcome class source at) obligation
        ≡ obligation_waiting record_value obligation
  unfolding obligation_waiting recorded
  observed-keeps obligation f =
      ap (λ r. any_item (waits_as obligation) (items_at r (codes "obligations")))
        (observe-unsettled f)
      ∙ ap (any_item (waits_as obligation))
          (items_at-observed record_value (observation outcome class source at))

  observed-status :
      (items : Items)
      → get record_value (codes "observations") ≡ some (array items)
      → status (observe record_value outcome class source at) ≡ outcome
  unfolding status recorded text_eq
  observed-status items e = elim (Bool-cases (is_settled outcome)) [
    | inr f ↦
        ap status (observe-unsettled f)
        ∙ recorded-status record_value items outcome class source at e
    | inl t ↦
        ap status (observe-settled t)
        ∙ ap latest (get-change_obligations (codes "observations") satisfy_fields recorded refl)
        ∙ recorded-status record_value items outcome class source at e
  ]

-- An observation becomes the status of an effect whose record has observations, whatever it says.
pub observe-status :
    (record_value : Value) (items : Items) (outcome class source at : Text)
    → get record_value (codes "observations") ≡ some (array items)
    → status (observe record_value outcome class source at) ≡ outcome
observe-status record_value items outcome class source at e =
    observed-status record_value outcome class source at items e

-- An observation that settles the outcome leaves no obligation waiting for an outcome.
pub observe-satisfies :
    (record_value : Value) (outcome class source at : Text)
    → is_settled outcome ≡ true
    → any_item awaits_outcome
        (items_at (observe record_value outcome class source at) (codes "obligations"))
      ≡ false
observe-satisfies = observed-satisfies

-- An observation that does not settle the outcome satisfies nothing: every obligation waits as
-- before.
pub observe-keeps_waits :
    (record_value : Value) (outcome class source at obligation : Text)
    → is_settled outcome ≡ false
    → obligation_waiting (observe record_value outcome class source at) obligation
      ≡ obligation_waiting record_value obligation
observe-keeps_waits = observed-keeps
