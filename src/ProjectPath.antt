-- ===== src/ProjectPath.antt =====
-- Project-relative paths: src/core/projectPath.ts on a platform whose separator is '/'. A path is
-- the list of its code points: 47 is '/', 92 is '\', 46 is '.', 32 is ' '. Node's `path.normalize`
-- and the Unicode case mapping are parameters.
use jupyter_pair_ext.Base.{
  ℕ, ◌+◌, Bool, false, not, ◌&&◌, ◌||◌, Option, none, some, [], ◌∷◌, map, ltb, leb, nat_eqb,
  if◌then◌else◌, nat_eq, string_eq, any,
}
use mathlib.Core.Option as Option
use jupyter_pair_ext.Base.Js.{codes}
use jupyter_pair_ext.Base.Codes.{Text, text_eqb, text_eq, starts_with, split}

-- a character of `UNSAFE_PATH_FORMAT_CHARACTERS`
unfoldable pub is_format_character : ℕ → Bool
is_format_character c =
    leb 8203 c && leb c 8207
    || leb 8232 c && leb c 8238
    || leb 8288 c && leb c 8303
    || nat_eqb c 65279

unfoldable pub has_control_characters : Text → Bool
has_control_characters value =
    any is_format_character value || any (λ c. leb c 31 || leb 127 c && leb c 159) value

-- the bytes of a code point in UTF-8
unfoldable pub utf8_bytes : ℕ → ℕ
utf8_bytes c = if ltb c 128 then 1 else if ltb c 2048 then 2 else if ltb c 65536 then 3 else 4

-- `Buffer.byteLength(s, 'utf8')`
unfoldable pub byte_length : Text → ℕ
byte_length [] = 0
byte_length (c ∷ cs) = utf8_bytes c + byte_length cs

-- the part before the first '.'
unfoldable pub before_dot : Text → Text
before_dot [] = []
before_dot (c ∷ cs) = let rest = before_dot cs in if nat_eqb c 46 then [] else c ∷ rest

-- `/[. ]$/`
unfoldable pub ends_badly : Text → Bool
ends_badly [] = false
ends_badly (c ∷ []) = nat_eqb c 46 || nat_eqb c 32
ends_badly (c ∷ d ∷ cs) = ends_badly (d ∷ cs)

abbrev pub lower_ascii : ℕ → ℕ
lower_ascii c = if leb 65 c && leb c 90 then c + 32 else c

-- `com[1-9]` and `lpt[1-9]`
unfoldable pub is_numbered_device : Text → Bool
is_numbered_device (a ∷ b ∷ c ∷ d ∷ []) =
    (text_eqb (a ∷ b ∷ c ∷ []) (codes "com") || text_eqb (a ∷ b ∷ c ∷ []) (codes "lpt"))
    && leb 49 d
    && leb d 57
is_numbered_device s = false

-- `/^(?:con|prn|aux|nul|com[1-9]|lpt[1-9])(?:\..*)?$/i`
unfoldable pub is_device_name : Text → Bool
is_device_name segment =
    let base = map lower_ascii (before_dot segment) in
    any (text_eqb base) (codes "con" ∷ codes "prn" ∷ codes "aux" ∷ codes "nul" ∷ [])
    || is_numbered_device base

unfoldable pub is_portable_path_segment : Text → Bool
is_portable_path_segment segment =
    if text_eqb segment []
      || ltb 255 (byte_length segment)
      || any (λ c. any (nat_eqb c) (codes "<>:\"|?*")) segment
      || ends_badly segment
    then false
    else not (is_device_name segment)

module _ (normalize : Text → Text) where
  unfoldable pub safe_relative_path : Text → Option Text
  safe_relative_path relative_path =
      if text_eqb relative_path []
        || ltb 4096 (byte_length relative_path)
        || has_control_characters relative_path
        || starts_with relative_path (47 ∷ [])
        || any (nat_eqb 92) relative_path
      then none
      else if any (λ s. text_eqb s (46 ∷ []) || text_eqb s (46 ∷ 46 ∷ [])) (split 47 relative_path)
      then none
      else let normalized = normalize relative_path in
        if text_eqb normalized []
          || text_eqb normalized (46 ∷ [])
          || text_eqb normalized (46 ∷ 46 ∷ [])
          || starts_with normalized (46 ∷ 46 ∷ 47 ∷ [])
          || starts_with normalized (47 ∷ [])
        then none
        else if any (λ s. not (is_portable_path_segment s)) (split 47 normalized)
        then none
        else some normalized

  -- `fold` is NFC, upper case and lower case
  unfoldable pub portable_path_comparison_key : (Text → Text) → Text → Option Text
  portable_path_comparison_key fold path = Option.map fold (safe_relative_path path)
