-- ===== src/Wire/RoundTrip.antt =====
-- Frames come back as they were sent, and nothing else gets through.
use jupyter_pair_ext.Base.{
  ℕ, ◌+◌, ◌/◌, ◌%◌, ◌^◌, ◌≤◌, ◌<◌, String, ◌≡◌, refl, sym, ap, ◌∙◌, true, Option, none, some, List,
  [], ◌∷◌, ◌++◌, map, arith, nat_eq, string_eq, ok, length, take, drop, length-append,
  take-append-drop, take-append, drop-append, length-take, sum,
}
use jupyter_pair_ext.Base.Js.{Value, str, obj, Fields, get_field}
use jupyter_pair_ext.Wire.{
  prefix_bytes, max_wire_header_bytes, max_wire_frame_bytes, WireFrame, is_frame_type, write_u32,
  read_u32, header_value, concat, header_fields, parsed_header, encode_frame, decode_buffer,
  decode_frame,
}

length-concat : (input : List (List ℕ)) → length (concat input) ≡ sum (map length input)
length-concat [] = refl
length-concat (part ∷ parts) = omega (arith, length-append part (concat parts), length-concat parts)

read-write_u32 :
    (n : ℕ)
    → n < 2 ^ 32
    → read_u32 (n / 2 ^ 24 % 256) (n / 2 ^ 16 % 256) (n / 2 ^ 8 % 256) (n % 256) ≡ n
unfolding read_u32
read-write_u32 n h = omega arith

length-frame :
    (header payload : List ℕ)
    → length (1 ∷ write_u32 (length header) ++ (header ++ payload))
      ≡ prefix_bytes + length header + length payload
unfolding write_u32
length-frame header payload = omega (arith, length-append header payload)

module _ (stringify : Value → List ℕ) (parse : List ℕ → Option Value) where
  encode-ok :
      (frame_type : String) (meta : Fields) (payload : List ℕ) {frame : List ℕ}
      → encode_frame stringify parse frame_type meta payload ≡ ok frame
      → let header = stringify (header_value frame_type meta) in
        (is_frame_type frame_type ≡ true)
        × (length header ≤ max_wire_header_bytes)
        × (prefix_bytes + length header + length payload ≤ max_wire_frame_bytes)
        × (frame ≡ 1 ∷ write_u32 (length header) ++ (header ++ payload))
  unfolding encode_frame
  encode-ok frame_type meta payload h = ground arith

  decode_buffer-frame :
      (frame_type : String) (meta : Fields) (payload header : List ℕ)
      → is_frame_type frame_type ≡ true
      → length header ≤ max_wire_header_bytes
      → parse header ≡ some (header_value frame_type meta)
      → decode_buffer stringify parse (1 ∷ write_u32 (length header) ++ (header ++ payload))
        ≡ ok (record { frame_type = frame_type; meta = meta; payload = payload })
  unfolding decode_buffer write_u32 get_field
  decode_buffer-frame frame_type meta payload header named small parsed =
      rw
        (
          read-write_u32 (length header) (omega arith),
          take-append header payload,
          drop-append header payload,
          parsed,
        )
        (ground (arith, length-append header payload))

  -- However the transport cuts a sent frame into parts, decoding it gives back the type, the
  -- metadata and the payload, if the metadata survives its JSON text.
  pub decode-encode :
      (frame_type : String) (meta : Fields) (payload : List ℕ) (input : List (List ℕ))
      {frame : List ℕ}
      → encode_frame stringify parse frame_type meta payload ≡ ok frame
      → concat input ≡ frame
      → parse (stringify (header_value frame_type meta)) ≡ some (header_value frame_type meta)
      → decode_frame stringify parse input
        ≡ ok (record { frame_type = frame_type; meta = meta; payload = payload })
  unfolding decode_frame
  decode-encode frame_type meta payload input encoded whole_input parsed =
      let (named, small, fits, is_frame) = encode-ok frame_type meta payload encoded in
      let header = stringify (header_value frame_type meta) in
      let decoded = decode_buffer-frame frame_type meta payload header named small parsed in
      let bound : sum (map length input) ≤ max_wire_frame_bytes = omega (
        arith,
        sym (length-concat input),
        ap length (whole_input ∙ is_frame),
        length-frame header payload,
      ) in
      rw (whole_input ∙ is_frame) (ground (arith, decoded, bound))

  abbrev pub HeaderOf : Option Value → WireFrame → Type 0
  HeaderOf parsed f =
      (raw : Fields) × (parsed ≡ some (obj raw))
      × (get_field "type" raw ≡ str f.frame_type)
      × (get_field "meta" raw ≡ obj f.meta)

  header_fields-ok :
      (t m : Value) (payload : List ℕ) {f : WireFrame}
      → header_fields t m payload ≡ ok f
      → (t ≡ str f.frame_type)
        × (m ≡ obj f.meta)
        × (is_frame_type f.frame_type ≡ true)
        × (f.payload ≡ payload)
  unfolding header_fields
  header_fields-ok (str t) (obj m) payload h = ground arith
  header_fields-ok (str t) _ payload h = cc
  header_fields-ok _ m payload h = cc

  parsed_header-ok :
      (parsed : Option Value) (payload : List ℕ) {f : WireFrame}
      → parsed_header parsed payload ≡ ok f
      → HeaderOf parsed f × (is_frame_type f.frame_type ≡ true) × (f.payload ≡ payload)
  unfolding parsed_header
  parsed_header-ok none payload h = cc
  parsed_header-ok (some (obj raw)) payload h =
      let (t, m, named, rest) = header_fields-ok _ _ payload h in ((raw, refl, t, m), named, rest)
  parsed_header-ok (some _) payload h = cc

  -- What a decoded buffer looks like: the version, four bytes that give the length of the header,
  -- the header, whose JSON text gives the type and the metadata, and the payload to the end.
  pub record Decoded (buffer : List ℕ) (f : WireFrame) : Type 0 where
    pub a : ℕ
    pub b : ℕ
    pub c : ℕ
    pub d : ℕ
    pub header : List ℕ
    pub layout : buffer ≡ 1 ∷ a ∷ b ∷ c ∷ d ∷ (header ++ f.payload)
    pub announced : read_u32 a b c d ≡ length header
    pub small : length header ≤ max_wire_header_bytes
    pub parsed : HeaderOf (parse header) f
    pub named : is_frame_type f.frame_type ≡ true

  decode_buffer-ok :
      (buffer : List ℕ) {f : WireFrame}
      → decode_buffer stringify parse buffer ≡ ok f
      → Decoded buffer f
  unfolding decode_buffer
  decode_buffer-ok (version ∷ a ∷ b ∷ c ∷ d ∷ rest) {f} h =
      let n = read_u32 a b c d in
      let tests : (version ≡ 1)
          × (n ≤ length rest)
          × (n ≤ max_wire_header_bytes)
          × (parsed_header (parse (take n rest)) (drop n rest) ≡ ok f) =
        ground arith in
      let (parsed, named, is_rest) = parsed_header-ok _ _ tests.3 in
      record {
        a = a;
        b = b;
        c = c;
        d = d;
        header = take n rest;
        layout = rw (is_rest, tests.0, take-append-drop n rest) refl;
        announced = omega (arith, length-take n rest, tests.1);
        small = omega (arith, length-take n rest, tests.2);
        parsed = parsed;
        named = named;
      }
  decode_buffer-ok (a ∷ b ∷ c ∷ d ∷ []) h = cc
  decode_buffer-ok (a ∷ b ∷ c ∷ []) h = cc
  decode_buffer-ok (a ∷ b ∷ []) h = cc
  decode_buffer-ok (a ∷ []) h = cc
  decode_buffer-ok [] h = cc

  -- Whatever arrives, a frame that is decoded lies within the size limit and is laid out as
  -- `Decoded` says: no byte of it is read twice or left over.
  pub decode-Decoded :
      (input : List (List ℕ)) {f : WireFrame}
      → decode_frame stringify parse input ≡ ok f
      → Decoded (concat input) f × (length (concat input) ≤ max_wire_frame_bytes)
  unfolding decode_frame
  decode-Decoded input {f} h =
      let tests : (sum (map length input) ≤ max_wire_frame_bytes)
          × (decode_buffer stringify parse (concat input) ≡ ok f) =
        ground arith in
      (decode_buffer-ok (concat input) tests.1, rw (length-concat input) tests.0)
