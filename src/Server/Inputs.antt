-- ===== src/Server/Inputs.antt =====
-- The validation of inputs (the helpers of src/server/production/app.ts). The body is the object that
-- `readJsonBody` answers.
use machina_sol.Prelude.{
  ℕ, String, Bool, true, false, not, ◌&&◌, ◌||◌, Option, none, some, List, [], ◌∷◌, any, ltb, leb,
  nat_eq, length, codes, distinct, ◌==◌, if◌then◌else◌,
}
use machina_sol.Number.{Number, number_le, of_nat, is_finite}
use machina_sol.Chars.{Chars, is_digits, big_int}
use machina_sol.Decimal.{before_dot, after_dot}
use machina_sol.Texts.{
  ◌^^◌, after_digits, after_char, after_date, trim_text, text_length, text_of_nat,
}
use machina_sol.Json.{Json, Items, member, has_own}
use machina_sol.Telemetry.Checks.{Dates}
use machina_sol.Server.World.{Outside, Outcome, done, refused, crashed}
use machina_sol.Server.Http.{Request}

-- input[key]
unfoldable pub property : String → Json → Json
property key input = elim (member key input) [ none ↦ Json.undefined | some v ↦ v ]

quoted : String → String → String
quoted key text = "\"" ^^ key ^^ "\" " ^^ text

text_input : Bool → ℕ → String → String → Outcome (Option String)
unfolding quoted
text_input is_required most key normalized =
    if normalized == "" && is_required
    then refused 400 (quoted key "is required")
    else if ltb most (text_length normalized)
    then refused 400 (quoted key "is too long")
    else done (if normalized == "" then none else some normalized)

missing_text : Bool → String → Outcome (Option String)
unfolding quoted
missing_text is_required key =
    if is_required then refused 400 (quoted key "is required") else done none

unfoldable pub text_value : Bool → ℕ → Json → String → Outcome (Option String)
unfolding text_input missing_text quoted
text_value is_required most input key = elim (property key input) [
  | Json.undefined ↦ missing_text is_required key
  | Json.null ↦ missing_text is_required key
  | Json.string value ↦ text_input is_required most key (trim_text value)
  | _ ↦ refused 400 (quoted key "must be a string")
]

present : Outcome (Option String) → Outcome String
present (done none) = crashed
present (done (some text)) = done text
present (refused status message) = refused status message
present crashed = crashed

-- textValue(input, key, { required: true, max })!, where the value is never missing
unfoldable pub required_text : ℕ → Json → String → Outcome String
unfolding present
required_text most input key = present (text_value true most input key)

unfoldable pub optional_text : ℕ → Json → String → Outcome (Option String)
optional_text most input key = text_value false most input key

-- The texts of an array, untrimmed; `none` where the test of stringList refuses an item.
unfoldable pub short_texts : Items → Option (List String)
short_texts Items.no_items = some []
short_texts (Items.item value items) =
    let rest = short_texts items in
    elim value [
      | Json.string text ↦
          if trim_text text == "" || ltb 64 (text_length text)
          then none
          else elim rest [ none ↦ none | some texts ↦ some (trim_text text ∷ texts) ]
      | _ ↦ none
    ]

list_of : ℕ → Json → Option (List String)
list_of most Json.undefined = some []
list_of most Json.null = some []
list_of most (Json.array items) = elim (short_texts items) [
  | none ↦ none
  | some texts ↦ if ltb most (length texts) then none else some texts
]
list_of most _ = none

unfoldable pub string_list : ℕ → Json → String → Outcome (List String)
unfolding list_of quoted
string_list most input key = elim (list_of most (property key input)) [
  | none ↦
      refused 400
        (quoted key ("must be an array of at most " ^^ text_of_nat most ^^ " short strings"))
  | some texts ↦ done (distinct texts)
]

starts_with_zero : Chars → Bool
starts_with_zero [] = false
starts_with_zero (c ∷ cs) = nat_eq c b'0'

unfoldable pub is_short_fraction : Option Chars → Bool
is_short_fraction none = true
is_short_fraction (some f) = leb 1 (length f) && (leb (length f) 9 && is_digits f)

-- /^(?:0|[1-9]\d*)(?:\.\d{1,9})?$/u
unfoldable pub is_plain_decimal : Chars → Bool
unfolding starts_with_zero is_short_fraction
is_plain_decimal cs =
    let whole = before_dot cs in
    leb 1 (length whole)
    && (is_digits whole
        && ((nat_eq (length whole) 1 || not (starts_with_zero whole))
            && is_short_fraction (after_dot cs)))

decimal_text : Outside → Json → String
decimal_text o (Json.number n) = o.number_text n
decimal_text o (Json.string text) = trim_text text
decimal_text o _ = ""

unfoldable pub decimal : Outside → Json → String → Outcome String
unfolding decimal_text quoted
decimal o input key =
    let value = decimal_text o (property key input) in
    if ltb 32 (text_length value)
      || (not (is_plain_decimal (codes value)) || number_le (o.env.to_number value) (of_nat 0))
    then refused 400 (quoted key "must be a positive decimal with at most 9 fractional digits")
    else done value

sol_price : String → Outcome String → Outcome (Option String × Option String)
sol_price amount (done asset) =
    if not (asset == "SOL")
    then refused 400 "SOL is the only executable settlement asset"
    else done (some amount, some asset)
sol_price amount (refused status message) = refused status message
sol_price amount crashed = crashed

priced : Json → Outcome String → Outcome (Option String × Option String)
unfolding sol_price
priced input (done amount) = sol_price amount (required_text 16 input "priceAsset")
priced input (refused status message) = refused status message
priced input crashed = crashed

is_null : Json → Bool
is_null Json.null = true
is_null _ = false

-- The price and its asset, both null or both set.
unfoldable pub nullable_price :
    Outside
    → Json
    → (price_amount price_asset : Option String) → Outcome (Option String × Option String)
unfolding priced is_null
nullable_price o input price_amount price_asset =
    if not (has_own "priceAmount" input)
    then done (price_amount, price_asset)
    else if is_null (property "priceAmount" input)
    then done (none, none)
    else priced input (decimal o input "priceAmount")

-- /^(?:Z|[+-]\d{2}:\d{2})$/
is_zone : Chars → Bool
unfolding after_digits after_char
is_zone [] = false
is_zone (c ∷ cs) =
    (nat_eq c b'Z' && nat_eq (length cs) 0)
    || ((nat_eq c b'+' || nat_eq c b'-')
        && (elim (after_digits 2 (after_char b':' (after_digits 2 (some cs)))) [
          | some [] ↦ true
          | _ ↦ false
        ]))

-- The rest is a point, n digits and a zone.
is_fraction_of : Chars → ℕ → Bool
unfolding is_zone after_digits after_char
is_fraction_of cs n = elim (after_digits n (after_char b'.' (some cs))) [
  | none ↦ false
  | some rest ↦ is_zone rest
]

-- /^(?:\.\d{1,3})?(?:Z|[+-]\d{2}:\d{2})$/
is_fraction_and_zone : Chars → Bool
unfolding is_zone is_fraction_of
is_fraction_and_zone cs =
    is_zone cs || (is_fraction_of cs 1 || (is_fraction_of cs 2 || is_fraction_of cs 3))

-- /^\d{4}-\d{2}-\d{2}T\d{2}:\d{2}:\d{2}(?:\.\d{1,3})?(?:Z|[+-]\d{2}:\d{2})$/u
unfoldable pub is_iso_text : Chars → Bool
unfolding is_fraction_and_zone after_digits after_char
is_iso_text cs =
    elim (after_digits 2
      (after_char b':' (after_digits 2 (after_char b':' (after_digits 2 (after_date cs)))))) [
        | none ↦ false
        | some rest ↦ is_fraction_and_zone rest
      ]

iso_value : Dates → String → String → Outcome (Option String)
unfolding quoted
iso_value dates key value =
    if value == ""
    then done none
    else if ltb 64 (text_length value) || not (is_iso_text (codes value))
    then refused 400 (quoted key "must be a valid ISO timestamp")
    else elim (dates.time value) [
      | none ↦ refused 400 (quoted key "must be a valid ISO timestamp")
      | some t ↦ done (some (dates.iso t))
    ]

unfoldable pub optional_iso_timestamp : Outside → Json → String → Outcome (Option String)
unfolding iso_value quoted
optional_iso_timestamp o input key = elim (property key input) [
  | Json.undefined ↦ done none
  | Json.null ↦ done none
  | Json.string value ↦ iso_value o.dates key value
  | _ ↦ refused 400 (quoted key "must be a valid ISO timestamp")
]

unfoldable pub optional_finite : Json → String → Outcome (Option Number)
unfolding quoted
optional_finite input key = elim (property key input) [
  | Json.undefined ↦ done none
  | Json.number n ↦
      if is_finite n then done (some n) else refused 400 (quoted key "must be a finite number")
  | _ ↦ refused 400 (quoted key "must be a finite number")
]

unfoldable pub optional_boolean : Json → String → Bool → Outcome Bool
unfolding quoted
optional_boolean input key fallback = elim (property key input) [
  | Json.undefined ↦ done fallback
  | Json.boolean b ↦ done b
  | _ ↦ refused 400 (quoted key "must be a boolean")
]

-- /[\/\u0000-\u001f\u007f]/u
is_unsafe_char : ℕ → Bool
is_unsafe_char c = nat_eq c b'/' || (leb c 0x1f || nat_eq c 0x7f)

-- decodeURIComponent may throw.
unfoldable pub safe_segment : Outside → String → Outcome String
unfolding is_unsafe_char
safe_segment o value = elim (o.decode_uri_component value) [
  | none ↦ crashed
  | some decoded ↦
      if decoded == "" || (ltb 128 (text_length decoded) || any is_unsafe_char (codes decoded))
      then refused 400 "invalid route identifier"
      else done decoded
]

-- The first value of a parameter of the address.
unfoldable pub parameter : String → List (String × String) → Option String
parameter key [] = none
parameter key ((name, value) ∷ query) =
    let rest = parameter key query in if name == key then some value else rest

-- /^[1-9]\d*$/u
is_counting : Chars → Bool
unfolding starts_with_zero
is_counting cs = leb 1 (length cs) && (is_digits cs && not (starts_with_zero cs))

unfoldable pub requested_list_limit : Request → Outcome ℕ
unfolding is_counting
requested_list_limit req = elim (parameter "limit" req.query) [
  | none ↦ done 100
  | some raw ↦
      if not (is_counting (codes raw)) || ltb 200 (big_int (codes raw))
      then refused 400 "limit must be an integer from 1 to 200"
      else done (big_int (codes raw))
]
