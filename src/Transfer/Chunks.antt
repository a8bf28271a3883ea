-- ===== src/Transfer/Chunks.antt =====
-- An accepted shape is a partition of the file into its chunks.
use jupyter_pair_ext.Base.{
  ℕ, zero, suc, ◌+◌, ◌-◌, ◌*◌, ◌≤◌, ◌<◌, String, ◌≡◌, ap, ◌∙◌, ◌⊎◌, inl, inr, true, arith, dec_lt,
  nat_eq, string_eq, ok,
}
use jupyter_pair_ext.Base.{refl}
use jupyter_pair_ext.Base.Js.{Number, whole, not_whole, Value, Fields}
use jupyter_pair_ext.Base.Int.{ℤ, pos, negsuc}
use jupyter_pair_ext.Transfer.{
  max_transfer_chunk_size, max_transfer_bytes, max_transfer_chunks, Shape, is_sha256,
  required_chunks, validate_incoming_transfer, expected_transfer_chunk_bytes,
}

pub record IsValid (s : Shape) : Type 0 where
  pub size_bound : s.size ≤ max_transfer_bytes
  pub chunk_positive : 1 ≤ s.chunk_size
  pub chunk_bound : s.chunk_size ≤ max_transfer_chunk_size
  pub count : s.expected_chunks ≡ required_chunks s.size s.chunk_size
  pub count_bound : s.expected_chunks ≤ max_transfer_chunks
  pub hash_valid : is_sha256 s.hash ≡ true

module _ (to_number : Value → Number) (lower_text : Value → String) where
  -- A shape is accepted only within every bound, with the chunk count that its size requires.
  pub validate-IsValid :
      (meta : Fields) (default_chunk_size : ℕ) {s : Shape}
      → validate_incoming_transfer to_number lower_text meta default_chunk_size ≡ ok s
      → IsValid s
  unfolding validate_incoming_transfer
  validate-IsValid meta d h = ground arith

required_cover :
    (size chunk : ℕ)
    → 1 ≤ chunk
    → let n = required_chunks size chunk in
      (1 ≤ n) × (chunk * (n - 1) ≤ size) × (size ≤ chunk * n) × (0 < size → chunk * (n - 1) < size)
unfolding required_chunks
required_cover size chunk h = grind arith

-- The size of chunk `i`, where there is one.
abbrev pub chunk_bytes : Shape → ℕ → ℤ
chunk_bytes s i = expected_transfer_chunk_bytes s (whole (pos i))

chunk_bytes-inner :
    (s : Shape) (i : ℕ) → IsValid s → i < s.expected_chunks - 1 → chunk_bytes s i ≡ pos s.chunk_size
unfolding expected_transfer_chunk_bytes
chunk_bytes-inner s i v h = ground (arith, v.count_bound)

chunk_bytes-last :
    (s : Shape)
    → IsValid s
    → chunk_bytes s (s.expected_chunks - 1) ≡ pos (s.size - s.chunk_size * (s.expected_chunks - 1))
unfolding expected_transfer_chunk_bytes
chunk_bytes-last s v =
    let cover = required_cover s.size s.chunk_size v.chunk_positive in
    let inside : s.chunk_size * (s.expected_chunks - 1) ≤ s.size = rw v.count (cover.1) in
    let some_chunk : 1 ≤ s.expected_chunks = rw v.count (cover.0) in ground (arith, v.count_bound)

chunk_bytes-outside : (s : Shape) (i : ℕ) → s.expected_chunks ≤ i → chunk_bytes s i ≡ negsuc 0
unfolding expected_transfer_chunk_bytes
chunk_bytes-outside s i h = ground arith

last_chunk-le :
    (s : Shape) → IsValid s → s.size - s.chunk_size * (s.expected_chunks - 1) ≤ s.chunk_size
last_chunk-le s v = rw v.count (
    cover _ (required_cover s.size s.chunk_size v.chunk_positive).2
      (required_cover s.size s.chunk_size v.chunk_positive).0)
  where
    cover :
        (n : ℕ) → s.size ≤ s.chunk_size * n → 1 ≤ n → s.size - s.chunk_size * (n - 1) ≤ s.chunk_size
    cover zero h k = elim k [ ]
    cover (suc n) h k = grind arith

index_bytes :
    (s : Shape) (i : ℕ)
    → IsValid s
    → ((i < s.expected_chunks)
        × ((n : ℕ) × (chunk_bytes s i ≡ pos n) × (n ≤ s.chunk_size) × ((s.size ≡ 0) ⊎ (0 < n))))
      ⊎ ((s.expected_chunks ≤ i) × (chunk_bytes s i ≡ negsuc 0))
index_bytes s i v = elim (dec_lt i (s.expected_chunks - 1)) [
  | yes inner ↦ inl (
    omega arith,
    (s.chunk_size, chunk_bytes-inner s i v inner, omega arith, inr v.chunk_positive),
  )
  | no outer ↦ elim (dec_lt i s.expected_chunks) [
    | yes last ↦
        let (_, _, above, more) = required_cover s.size s.chunk_size v.chunk_positive in
        let at_last : s.expected_chunks - 1 ≡ i = omega arith in
        let n = s.size - s.chunk_size * (s.expected_chunks - 1) in
        let bytes : chunk_bytes s i ≡ pos n = rw (← at_last) (chunk_bytes-last s v) in
        inl (
          last,
          (
            n,
            bytes,
            last_chunk-le s v,
            elim (dec_lt 0 s.size) [
              | yes h ↦ inr (rw v.count (omega (arith, more h)))
              | no h ↦ inl (omega (arith, h))
            ],
          ),
        )
    | no none_left ↦ inr (omega arith, chunk_bytes-outside s i (omega arith))
  ]
]

-- Of all numbers exactly the whole ones from 0 below the count have a chunk, of at most the chunk
-- size and empty only in an empty file; every other number, be it negative, a fraction or too
-- large, is refused with -1.
pub chunk_bytes_lem :
    (s : Shape) (index : Number)
    → IsValid s
    → ((i : ℕ) × (index ≡ whole (pos i))
        × (i < s.expected_chunks)
        × ((n : ℕ) × (expected_transfer_chunk_bytes s index ≡ pos n)
            × (n ≤ s.chunk_size)
            × ((s.size ≡ 0) ⊎ (0 < n))))
      ⊎ (((i : ℕ) → index ≡ whole (pos i) → s.expected_chunks ≤ i)
          × (expected_transfer_chunk_bytes s index ≡ negsuc 0))
unfolding expected_transfer_chunk_bytes
chunk_bytes_lem s not_whole v = inr (λ i e. cc e, refl)
chunk_bytes_lem s (whole (negsuc k)) v = inr (λ i e. cc e, refl)
chunk_bytes_lem s (whole (pos i)) v = elim (index_bytes s i v) [
  | inl (below, has_chunk) ↦ inl (i, refl, below, has_chunk)
  | inr (above, refused) ↦ inr (λ j e. same_index i j e above, refused)
]
  where
    same_index :
        (i j : ℕ)
        → Path Number (whole (pos i)) (whole (pos j))
        → s.expected_chunks ≤ i
        → s.expected_chunks ≤ j
    same_index i j e h = let same : i ≡ j = cc e in omega (arith, same, h)

-- The sizes of the first `k` chunks, added up.
abbrev pub part : ℤ → ℕ
part (pos n) = n
part (negsuc n) = 0

pub chunk_total : Shape → ℕ → ℕ
chunk_total s zero = 0
chunk_total s (suc k) = chunk_total s k + part (chunk_bytes s k)

chunk_total-inner :
    (s : Shape) (k : ℕ) → IsValid s → k ≤ s.expected_chunks - 1 → chunk_total s k ≡ s.chunk_size * k
unfolding chunk_total
chunk_total-inner s zero v h = omega arith
chunk_total-inner s (suc k) v h =
    rw (chunk_bytes-inner s k v (omega arith))
      (omega (arith, chunk_total-inner s k v (omega arith)))

-- The chunks of an accepted shape add up to the file: nothing is missing, nothing is sent twice.
pub chunk_total-size : (s : Shape) → IsValid s → chunk_total s s.expected_chunks ≡ s.size
unfolding chunk_total
chunk_total-size s v =
    let (some_chunk, below, _, _) = required_cover s.size s.chunk_size v.chunk_positive in
    let last : s.expected_chunks ≡ suc (s.expected_chunks - 1) = rw v.count (omega arith) in
    let inner = chunk_total-inner s (s.expected_chunks - 1) v (omega arith) in
    let fits : s.chunk_size * (s.expected_chunks - 1) ≤ s.size = rw v.count below in
    ap (chunk_total s) last ∙ sum_last inner (chunk_bytes-last s v) fits
  where
    sum_last :
        chunk_total s (s.expected_chunks - 1) ≡ s.chunk_size * (s.expected_chunks - 1)
        → chunk_bytes s (s.expected_chunks - 1)
          ≡ pos (s.size - s.chunk_size * (s.expected_chunks - 1))
        → s.chunk_size * (s.expected_chunks - 1) ≤ s.size
        → chunk_total s (suc (s.expected_chunks - 1)) ≡ s.size
    sum_last p q r = rw (p, q) (omega arith)
