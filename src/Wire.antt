-- ===== src/Wire.antt =====
-- src/core/wire.ts: the binary frame of every message. Bytes are numbers below 256; `JSON` and
-- the UTF-8 codec belong to the runtime and are parameters, joined into one function each way.
pub mod RoundTrip
use jupyter_pair_ext.Base.{
  ℕ, ◌+◌, ◌*◌, ◌/◌, ◌%◌, ◌^◌, String, Bool, false, not, ◌&&◌, ◌||◌, Option, none, some, List, [],
  ◌∷◌, ◌++◌, map, ltb, leb, if◌then◌else◌, ◌==◌, nat_eq, string_eq, Result, ok, err, ◌>>=◌, ◌>>◌,
  throw_if, length, take, drop, all, sum,
}
use jupyter_pair_ext.Base.Js.{
  Value, str, obj, Fields, end, field, get_field, codes, is_digit, is_letter,
}

abbrev pub prefix_bytes : ℕ
prefix_bytes = 5

abbrev pub max_wire_header_bytes : ℕ
max_wire_header_bytes = 1024 * 1024

abbrev pub max_wire_frame_bytes : ℕ
max_wire_frame_bytes = 64 * 1024 * 1024 + max_wire_header_bytes + prefix_bytes

pub record WireFrame : Type 0 where
  pub frame_type : String
  pub meta : Fields
  pub payload : List ℕ

pub data Error : Type 0 where
  bad_type header_too_large frame_too_large unsupported bad_length bad_json bad_header : Error

-- FRAME_TYPE_PATTERN, `/^[A-Za-z][A-Za-z0-9]{0,63}$/`
is_frame_type_codes : List ℕ → Bool
is_frame_type_codes [] = false
is_frame_type_codes (c ∷ cs) =
    is_letter c && leb (length cs) 63 && all (λ d. is_letter d || is_digit d) cs

unfoldable pub is_frame_type : String → Bool
unfolding is_frame_type_codes
is_frame_type s = is_frame_type_codes (codes s)

-- `writeUInt32BE` and `readUInt32BE`
unfoldable pub write_u32 : ℕ → List ℕ
write_u32 n = (n / 2 ^ 24 % 256) ∷ (n / 2 ^ 16 % 256) ∷ (n / 2 ^ 8 % 256) ∷ (n % 256) ∷ []

unfoldable pub read_u32 : ℕ → ℕ → ℕ → ℕ → ℕ
read_u32 a b c d = a * 2 ^ 24 + b * 2 ^ 16 + c * 2 ^ 8 + d

-- `{ type, meta }`
abbrev pub header_value : String → Fields → Value
header_value frame_type meta = obj (field "type" (str frame_type) (field "meta" (obj meta) end))

-- `Buffer.concat`
abbrev pub concat : List (List ℕ) → List ℕ
concat [] = []
concat (part ∷ parts) = part ++ concat parts

-- the tests of the parsed header's two fields
header_fields : Value → Value → List ℕ → Result Error WireFrame
header_fields (str frame_type) (obj meta) payload =
    if is_frame_type frame_type
    then ok (record { frame_type = frame_type; meta = meta; payload = payload })
    else err bad_header
header_fields _ _ payload = err bad_header

-- A `null` header fails as it is read, in the source with a TypeError.
parsed_header : Option Value → List ℕ → Result Error WireFrame
unfolding header_fields
parsed_header none payload = err bad_json
parsed_header (some (obj raw)) payload =
    header_fields (get_field "type" raw) (get_field "meta" raw) payload
parsed_header (some _) payload = err bad_header

module _ (stringify : Value → List ℕ) (parse : List ℕ → Option Value) where
  unfoldable pub encode_frame : String → Fields → List ℕ → Result Error (List ℕ)
  encode_frame frame_type meta payload = do
    throw_if (not (is_frame_type frame_type)) bad_type
    let header = stringify (header_value frame_type meta)
    throw_if (ltb max_wire_header_bytes (length header)) header_too_large
    throw_if (ltb max_wire_frame_bytes (prefix_bytes + length header + length payload))
        frame_too_large
    ok (1 ∷ write_u32 (length header) ++ (header ++ payload))

  -- the prefix, and what follows it
  decode_buffer : List ℕ → Result Error WireFrame
  unfolding parsed_header
  decode_buffer (version ∷ a ∷ b ∷ c ∷ d ∷ rest) = do
    throw_if (not (version == 1)) unsupported
    let header_length = read_u32 a b c d
    throw_if (ltb (length rest) header_length || ltb max_wire_header_bytes header_length) bad_length
    parsed_header (parse (take header_length rest)) (drop header_length rest)
  decode_buffer _ = err unsupported

  unfoldable pub decode_frame : List (List ℕ) → Result Error WireFrame
  unfolding decode_buffer
  decode_frame input = do
    throw_if (ltb max_wire_frame_bytes (sum (map length input))) frame_too_large
    decode_buffer (concat input)
