-- ===== src/Transfer.antt =====
-- src/core/transfer.ts: the announced shape of an incoming file, and the size of each chunk.
-- A quotient of two of the bounded integers is computed exactly by the source's floats.
pub mod Chunks
use jupyter_pair_ext.Base.{
  ℕ, ◌+◌, ◌-◌, ◌*◌, ◌/◌, max, String, Bool, false, not, ◌&&◌, ◌||◌, Option, none, some, ltb, leb,
  if◌then◌else◌, ◌==◌, nat_eq, string_eq, Result, ok, err, ◌>>=◌, ◌>>◌, throw_if, length, all,
}
use jupyter_pair_ext.Base.Js.{
  Number, whole, safe_natural?, Value, undefined, null, num, Fields, get_field, codes, is_digit,
}
use jupyter_pair_ext.Base.Int.{ℤ, pos, negsuc, sub_ℕ}

abbrev pub default_transfer_chunk_size : ℕ
default_transfer_chunk_size = 64 * 1024

abbrev pub max_transfer_chunk_size : ℕ
max_transfer_chunk_size = 1024 * 1024

abbrev pub max_transfer_bytes : ℕ
max_transfer_bytes = 2 * 1024 * 1024 * 1024

abbrev pub max_transfer_chunks : ℕ
max_transfer_chunks = 128 * 1024

pub record Shape : Type 0 where
  pub size : ℕ
  pub chunk_size : ℕ
  pub expected_chunks : ℕ
  pub hash : String

pub data Error : Type 0 where
  bad_size bad_chunk_size too_many_chunks wrong_chunk_count bad_hash : Error

-- `if (!Number.isSafeInteger(n) || n < low || n > high) throw e`
abbrev safe_between : ℕ → ℕ → Number → Error → Result Error ℕ
safe_between low high n e = elim (safe_natural? n) [
  | none ↦ err e
  | some k ↦ if ltb k low || ltb high k then err e else ok k
]

-- `/^[a-f0-9]{64}$/`
unfoldable pub is_sha256 : String → Bool
is_sha256 hash =
    let cs = codes hash in length cs == 64 && all (λ c. (leb b'a' c && leb c b'f') || is_digit c) cs

-- `Math.max(1, Math.ceil(size / chunkSize))`
unfoldable pub required_chunks : ℕ → ℕ → ℕ
required_chunks size chunk_size = max 1 ((size + chunk_size - 1) / chunk_size)

abbrev same_count : Option ℕ → ℕ → Bool
same_count none required = false
same_count (some n) required = n == required

-- `value ?? fallback`
abbrev pub unless_nullish : Value → Value → Value
unless_nullish undefined fallback = fallback
unless_nullish null fallback = fallback
unless_nullish v fallback = v

-- `Number(v)` and `String(v ?? '').toLowerCase()` belong to the runtime: they are parameters.
module _ (to_number : Value → Number) (lower_text : Value → String) where
  unfoldable pub validate_incoming_transfer : Fields → ℕ → Result Error Shape
  validate_incoming_transfer meta default_chunk_size = do
    let raw_size = to_number (get_field "size" meta)
    let fallback = num (whole (pos default_chunk_size))
    let raw_chunk = to_number (unless_nullish (get_field "chunkSize" meta) fallback)
    let raw_chunks = to_number (get_field "chunks" meta)
    let hash = lower_text (get_field "hash" meta)
    size ← safe_between 0 max_transfer_bytes raw_size bad_size
    chunk_size ← safe_between 1 max_transfer_chunk_size raw_chunk bad_chunk_size
    throw_if (ltb max_transfer_chunks (required_chunks size chunk_size)) too_many_chunks
    throw_if (not (same_count (safe_natural? raw_chunks) (required_chunks size chunk_size)))
        wrong_chunk_count
    throw_if (not (is_sha256 hash)) bad_hash
    ok (record {
      size = size;
      chunk_size = chunk_size;
      expected_chunks = required_chunks size chunk_size;
      hash = hash;
    })

-- The bytes that chunk `index` must have; -1 where there is no such chunk.
unfoldable pub expected_transfer_chunk_bytes : Shape → Number → ℤ
expected_transfer_chunk_bytes shape index = elim (safe_natural? index) [
  | none ↦ negsuc 0
  | some i ↦
      if leb shape.expected_chunks i
      then negsuc 0
      else if ltb i (shape.expected_chunks - 1)
      then pos shape.chunk_size
      else sub_ℕ shape.size (shape.chunk_size * i)
]
