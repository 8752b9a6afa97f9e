-- ===== src/Receiver/Attrs.antt =====
-- internal/receiver/receiver.go, opencode.go and traces.go: attribute values, and the string map
-- that a handler reads them from. Go's float64 is a parameter, with its prints and parses.
pub mod Bounds
pub mod Merged
use cc_otel.Prelude.{
  ℕ, Bool, true, false, Option, none, some, List, [], ◌∷◌, ◌≡◌, refl, if◌then◌else◌, ltb, ◌==◌,
}
use cc_otel.Prelude.Int.{ℤ, pos, negsuc, ltb_ℤ}
use cc_otel.Prelude.Text.{Text, codes, text_eq}
use cc_otel.Prelude.Table.{Table, lookup, insert}
use cc_otel.Receiver.Decimal.{Parsed, format_int, parse_int}

pub record FloatText (F : Type 0) : Type 0 where
  pub zero : F
  pub is_positive : F → Bool  -- x > 0
  pub is_zero : F → Bool  -- x == 0
  pub format_float : F → Text  -- strconv.FormatFloat(x, 'f', -1, 64)
  pub truncate : F → ℤ  -- int64(x)
  pub parse_float : Text → Option F  -- strconv.ParseFloat(s, 64), with none for an error

-- commontpb.AnyValue; bytes and arrays are `other_value`.
mutual
  pub data AnyValue (F : Type 0) : Type 0 where
    string_value : Text → AnyValue F
    int_value : ℤ → AnyValue F
    double_value : F → AnyValue F
    bool_value : Bool → AnyValue F
    kvlist_value : KvList F → AnyValue F
    other_value : AnyValue F

  pub data KvList (F : Type 0) : Type 0 where
    kv_nil : KvList F
    kv_cons : Text → AnyValue F → KvList F → KvList F

abbrev pub Attrs : Type 0
Attrs = Table Text

-- attrs[key], which is "" for a missing key.
unfoldable pub attr : Attrs → Text → Text
attr attrs key = elim (lookup key attrs) [ none ↦ [] | some v ↦ v ]

-- 1 << 40
abbrev pub attr_int_mag_cap : ℕ
attr_int_mag_cap = 1099511627776

unfoldable pub clamp_token_mag : ℤ → ℤ
clamp_token_mag v =
    if ltb_ℤ (pos 1099511627776) v
    then pos 1099511627776
    else if ltb_ℤ v (negsuc 1099511627775)
    then negsuc 1099511627775
    else v

unfoldable pub parse_attr_int : Attrs → Text → ℤ
unfolding attr parse_int clamp_token_mag
parse_attr_int attrs key =
    let p = parse_int (attr attrs key) in if p.ok then clamp_token_mag p.value else pos 0

unfoldable pub any_value_to_string : {F : Type 0} → FloatText F → AnyValue F → Text
unfolding format_int
any_value_to_string ft (string_value s) = s
any_value_to_string ft (int_value i) = format_int i
any_value_to_string ft (double_value d) = ft.format_float d
any_value_to_string ft (bool_value true) = codes "true"
any_value_to_string ft (bool_value false) = codes "false"
any_value_to_string ft (kvlist_value kvs) = []
any_value_to_string ft other_value = []

unfoldable pub parse_attr_float : {F : Type 0} → FloatText F → Attrs → Text → F
unfolding attr
parse_attr_float ft attrs key = elim (ft.parse_float (attr attrs key)) [
  | none ↦ ft.zero
  | some x ↦ x
]

module _ {F : Type 0} (ft : FloatText F) where
  unfoldable pub extract_into : List (Text × AnyValue F) → Attrs → Attrs
  unfolding any_value_to_string insert
  extract_into [] m = m
  extract_into ((k, v) ∷ kvs) m = extract_into kvs (insert k (any_value_to_string ft v) m)

  unfoldable pub extract_attrs : List (Text × AnyValue F) → Attrs
  unfolding extract_into
  extract_attrs kvs = extract_into kvs []

  -- The resource's attributes that a record does not define.
  unfoldable pub add_missing : List (Text × AnyValue F) → Attrs → Attrs
  unfolding any_value_to_string insert lookup
  add_missing [] m = m
  add_missing ((k, v) ∷ kvs) m =
      add_missing kvs
        (elim (lookup k m) [ none ↦ insert k (any_value_to_string ft v) m | some w ↦ m ])

  unfoldable pub service_name_from_resource : List (Text × AnyValue F) → Text
  unfolding text_eq any_value_to_string
  service_name_from_resource [] = []
  service_name_from_resource ((k, v) ∷ kvs) =
      let rest = service_name_from_resource kvs in
      if text_eq k (codes "service.name") then any_value_to_string ft v else rest

unfoldable pub first_non_empty_many : List Text → Text
first_non_empty_many [] = []
first_non_empty_many ([] ∷ vals) = first_non_empty_many vals
first_non_empty_many ((c ∷ v) ∷ vals) = c ∷ v

-- v != ""
abbrev pub is_set : Text → Bool
is_set [] = false
is_set (c ∷ v) = true

unfoldable pub pick_attr : Attrs → Attrs → List Text → Text
unfolding attr
pick_attr attrs res_attrs [] = []
pick_attr attrs res_attrs (k ∷ ks) =
    let rest = pick_attr attrs res_attrs ks in
    if is_set (attr attrs k)
    then attr attrs k
    else if is_set (attr res_attrs k)
    then attr res_attrs k
    else rest
