-- ===== src/Memory/Terms.antt =====
-- crates/cbr-memory/src/lexical.rs: the terms of a text. The classes of characters and the change
-- to lower case are the standard library's Unicode tables: a parameter.
use cbr.Prelude.{
  ℕ, Bool, true, false, ◌&&◌, ◌||◌, not, Option, none, some, List, [], ◌∷◌, ◌++◌, Text,
}

pub record Characters : Type 0 where
  pub is_alphanumeric : ℕ → Bool
  pub is_alphabetic : ℕ → Bool
  pub is_numeric : ℕ → Bool
  pub is_lowercase : ℕ → Bool
  pub is_uppercase : ℕ → Bool
  pub to_lowercase : Text → Text

abbrev pub next_of : Text → Option ℕ
next_of [] = none
next_of (c ∷ text) = some c

-- A part that has a character, in front of others.
abbrev pub push_part : Text → List Text → List Text
push_part [] parts = parts
push_part (c ∷ part) parts = (c ∷ part) ∷ parts

-- `text.split(...)` less its empty parts; `current` is the part so far.
unfoldable pub split_parts : (ℕ → Bool) → Text → Text → List Text
split_parts divides current [] = push_part current []
split_parts divides current (c ∷ text) = elim (divides c) [
  | true ↦ push_part current (split_parts divides [] text)
  | false ↦ split_parts divides (current ++ c ∷ []) text
]

abbrev pub lowers : (Text → Text) → List Text → List Text
lowers to_lowercase [] = []
lowers to_lowercase (part ∷ parts) = to_lowercase part ∷ lowers to_lowercase parts

-- `parts.join(" ")`
abbrev pub joined : List Text → Text
joined [] = []
joined (part ∷ []) = part
joined (part ∷ next ∷ parts) = part ++ 32 ∷ joined (next ∷ parts)

module _ (chars : Characters) where
  abbrev pub is_some_lowercase : Option ℕ → Bool
  is_some_lowercase none = false
  is_some_lowercase (some c) = chars.is_lowercase c

  abbrev pub is_boundary : Option ℕ → ℕ → Option ℕ → Bool
  is_boundary none c next = false
  is_boundary (some previous) c next =
      (chars.is_lowercase previous && chars.is_uppercase c)
      || ((chars.is_uppercase previous && (chars.is_uppercase c && is_some_lowercase next))
          || ((chars.is_alphabetic previous && chars.is_numeric c)
              || (chars.is_numeric previous && chars.is_alphabetic c)))

  -- The loop, at a character; `current` is never empty behind the first one.
  unfoldable pub identifier_parts : Option ℕ → Text → Text → List Text
  identifier_parts previous current [] = push_part current []
  identifier_parts previous current (c ∷ token) = elim (is_boundary previous c (next_of token)) [
    | true ↦ push_part current (identifier_parts (some c) (c ∷ []) token)
    | false ↦ identifier_parts (some c) (current ++ c ∷ []) token
  ]

  unfoldable pub split_identifier : Text → List Text
  split_identifier token = identifier_parts none [] token

  -- A token is kept whole in front of its parts when it has several.
  abbrev pub with_parts : Text → List Text → List Text
  with_parts token (first ∷ second ∷ parts) =
      chars.to_lowercase token ∷ lowers chars.to_lowercase (first ∷ second ∷ parts)
  with_parts token _ = chars.to_lowercase token ∷ []

  abbrev pub normal_tokens : List Text → List Text
  normal_tokens [] = []
  normal_tokens (token ∷ tokens) = with_parts token (split_identifier token) ++ normal_tokens tokens

  unfoldable pub normalise : Text → Text
  normalise text = joined (normal_tokens (split_parts (λ c. not (chars.is_alphanumeric c)) [] text))

  abbrev pub lower_parts : List Text → List Text
  lower_parts [] = []
  lower_parts (token ∷ tokens) =
      lowers chars.to_lowercase (split_identifier token) ++ lower_parts tokens

  unfoldable pub query_terms : Text → List Text
  query_terms query = lower_parts (split_parts (λ c. not (chars.is_alphanumeric c)) [] query)
