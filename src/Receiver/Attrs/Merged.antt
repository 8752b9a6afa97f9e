-- ===== src/Receiver/Attrs/Merged.antt =====
-- Which value a handler reads when the record and the resource define the same key.
use cc_otel.Prelude.{Option, none, some, List, [], ◌∷◌, ◌≡◌, refl, arith, if◌then◌else◌}
use cc_otel.Prelude.Text.{Text, text_eq, text_eq_iff}
use cc_otel.Prelude.Table.{lookup, insert, lookup-insert}
use cc_otel.Receiver.Attrs.{
  Attrs, FloatText, AnyValue, any_value_to_string, extract_into, extract_attrs, add_missing,
}

unfoldable pub or_else : {A : Type 0} → Option A → Option A → Option A
or_else none b = b
or_else (some a) b = some a

pub or_else_assoc : (a b c : Option Text) → or_else (or_else a b) c ≡ or_else a (or_else b c)
unfolding or_else
or_else_assoc none b c = refl
or_else_assoc (some a) b c = refl

pub or_else-none : (a : Option Text) → or_else a none ≡ a
unfolding or_else
or_else-none none = refl
or_else-none (some a) = refl

module _ {F : Type 0} (ft : FloatText F) where
  unfoldable pub first_value : Text → List (Text × AnyValue F) → Option Text
  first_value key [] = none
  first_value key ((k, v) ∷ kvs) =
      if text_eq k key then some (any_value_to_string ft v) else first_value key kvs

  unfoldable pub last_value : Text → List (Text × AnyValue F) → Option Text
  unfolding or_else
  last_value key [] = none
  last_value key ((k, v) ∷ kvs) =
      or_else (last_value key kvs) (if text_eq k key then some (any_value_to_string ft v) else none)

  or_else_if :
      (key k v : Text) (o : Option Text)
      → (if text_eq k key then some v else o) ≡ or_else (if text_eq k key then some v else none) o
  unfolding or_else
  or_else_if key k v o = ground arith

  lookup-extract_into :
      (key : Text) (kvs : List (Text × AnyValue F)) (m : Attrs)
      → lookup key (extract_into ft kvs m) ≡ or_else (last_value key kvs) (lookup key m)
  unfolding extract_into last_value or_else
  lookup-extract_into key [] m = refl
  lookup-extract_into key ((k, v) ∷ kvs) m =
      let w = any_value_to_string ft v in
      let here = if text_eq k key then some w else none in
      cc (
        lookup-extract_into key kvs (insert k w m),
        lookup-insert k key w m,
        or_else_if key k w (lookup key m),
        or_else_assoc (last_value key kvs) here (lookup key m),
      )

  lookup-add_missing :
      (key : Text) (kvs : List (Text × AnyValue F)) (m : Attrs)
      → lookup key (add_missing ft kvs m) ≡ or_else (lookup key m) (first_value key kvs)
  unfolding add_missing first_value or_else
  lookup-add_missing key [] m = ground arith
  lookup-add_missing key ((k, v) ∷ kvs) m =
      let w = any_value_to_string ft v in
      let ih = lookup-add_missing key kvs in
      ground (arith, ih m, ih (insert k w m), lookup-insert k key w m, text_eq_iff k key)

  -- Of a key's values the record's last one is read; if the record has none, the resource's first.
  pub merged_lookup :
      (key : Text) (own shared : List (Text × AnyValue F))
      → lookup key (add_missing ft shared (extract_attrs ft own))
        ≡ or_else (last_value key own) (first_value key shared)
  unfolding extract_attrs lookup or_else
  merged_lookup key own shared = cc (
    lookup-add_missing key shared (extract_into ft own []),
    lookup-extract_into key own [],
    or_else-none (last_value key own),
  )
