-- ===== src/Pricing/Name.antt =====
-- internal/pricing/match.go and pricing.go: model names, their families and their variants.
pub mod Normal
use cc_otel.Prelude.{
  ℕ, ◌+◌, ◌-◌, ◌≡◌, refl, Bool, ◌&&◌, leb, ◌==◌, if◌then◌else◌, List, [], ◌∷◌, ◌++◌, length, take,
  drop,
}
use cc_otel.Prelude.Text.{Text, codes, text_eq, has_prefix, to_lower, trim_space}

unfoldable pub normalize : Text → Text
unfolding to_lower trim_space
normalize model = to_lower (trim_space model)

unfoldable pub is_claude_model : Text → Bool
unfolding normalize has_prefix
is_claude_model model = has_prefix (normalize model) (codes "claude-")

abbrev pub claude_code_service : Text
claude_code_service = codes "claude-code"

-- strings.EqualFold, on ASCII texts
unfoldable pub equal_fold : Text → Text → Bool
unfolding text_eq to_lower
equal_fold s t = text_eq (to_lower s) (to_lower t)

unfoldable pub is_upstream_authoritative : Text → Text → Bool
unfolding is_claude_model equal_fold
is_upstream_authoritative service_name model =
    equal_fold (trim_space service_name) claude_code_service && is_claude_model model

abbrev is_digit : ℕ → Bool
is_digit c = leb 48 c && leb c 57

-- The pattern `-\d{8}` against a whole text.
unfoldable pub is_date : Text → Bool
is_date (s ∷ a ∷ b ∷ c ∷ d ∷ e ∷ f ∷ g ∷ h ∷ []) =
    s == b'-'
    && is_digit a
    && is_digit b
    && is_digit c
    && is_digit d
    && is_digit e
    && is_digit f
    && is_digit g
    && is_digit h
is_date s = Bool.false

-- The last n bytes of a text, and what stands before them.
abbrev pub last_bytes : ℕ → Text → Text
last_bytes n s = drop (length s - n) s

abbrev pub but_last : ℕ → Text → Text
but_last n s = take (length s - n) s

-- dateSuffixRe.ReplaceAllString(s, "")
unfoldable pub strip_date : Text → Text
unfolding is_date
strip_date s = if is_date (last_bytes 9 s) then but_last 9 s else s

abbrev pub tags : List Text
tags = codes "-preview" ∷ codes "-latest" ∷ codes "-exp" ∷ codes "-beta" ∷ codes "-alpha" ∷ []

strip_first : List Text → Text → Text
unfolding text_eq
strip_first [] s = s
strip_first (t ∷ ts) s =
    let rest = strip_first ts s in
    if text_eq (last_bytes (length t) s) t then but_last (length t) s else rest

-- trailingTagRe.ReplaceAllString(s, ""): the tags hold one dash each, so at most one is a suffix
unfoldable pub strip_tag : Text → Text
unfolding strip_first
strip_tag = strip_first tags

unfoldable pub strip_variants : Text → List Text
unfolding strip_date strip_tag text_eq
strip_variants model =
    let dated = strip_date model in
    let tag_stripped = strip_tag model in
    let both = strip_date tag_stripped in
    model
    ∷ ((if text_eq dated model then [] else dated ∷ [])
        ++ (if text_eq tag_stripped model
            then []
            else tag_stripped ∷ (if text_eq both tag_stripped then [] else both ∷ [])))
