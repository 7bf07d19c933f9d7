-- ===== src/StdDht/Text.antt =====
-- bdStdNodeId reads back the text that bdStdPrintNodeId writes.
use bitdht.Base.{
  ℕ, zero, suc, ◌+◌, ◌*◌, ◌/◌, ◌%◌, ◌^◌, ◌≤◌, ◌<◌, ◌≡◌, refl, sym, ap, ◌∙◌, false, List, [], ◌∷◌,
  ◌++◌, ltb, length, take, drop, bit_or, All, arith,
}
use native.Mathlib.Nat.{mod-eq_of_lt, mul-zero, mul_assoc, mul-lt-mul_of_pos_right}
use bitdht.Base.Bits.{bit_or_shifted, bit_or_comm, zero-bit_or}
use bitdht.Peer.{BdNodeId, IsByte, IsNodeId}
use bitdht.StdDht.{
  word_bytes, hex_value, node_id_word, nibble_offset, node_id_words, std_node_id, hex_digit,
  std_print_node_id,
}

hex_value-hex_digit : (d : ℕ) → d < 16 → hex_value (hex_digit d) ≡ d
hex_value-hex_digit d h = ground arith

-- A byte goes in by its high nibble and then its low one.
two_nibbles :
    (k lo h g : ℕ)
    → lo < 2 ^ k
    → g < 16
    → bit_or (bit_or lo (h * 16 * 2 ^ k)) (g * 2 ^ k) ≡ (h * 16 + g) * 2 ^ k + lo
two_nibbles k lo h g p q = ground (
  arith,
  bit_or_shifted k 0 (h * 16) lo,
  zero-bit_or (h * 16),
  bit_or_shifted k (h * 16) g lo,
  bit_or_comm (h * 16) g,
  bit_or_shifted 4 0 h g,
  zero-bit_or h,
)

-- A nibble that fits the word is not cut off.
no_overflow : (u m : ℕ) → u < 16 → m * 16 ≤ 2 ^ 32 → u * m % 2 ^ 32 ≡ u * m
no_overflow u m h k = mod-eq_of_lt (nibble_lt u m h k)
  where
    nibble_lt : (u m : ℕ) → u < 16 → m * 16 ≤ 2 ^ 32 → u * m < 2 ^ 32
    nibble_lt u zero h k = omega (arith, mul-zero u)
    nibble_lt u (suc m) h k = grind (arith, mul-lt-mul_of_pos_right {m = u} {n = 16} {k = suc m} h)

-- Two characters of the text, written to the byte at bit `k` of the word.
byte_step :
    (k lo b : ℕ)
    → lo < 2 ^ k
    → IsByte b
    → 256 * 2 ^ k ≤ 2 ^ 32
    → bit_or
        (bit_or lo (hex_value (hex_digit (b / 16)) * (16 * 2 ^ k) % 2 ^ 32))
        (hex_value (hex_digit (b % 16)) * 2 ^ k % 2 ^ 32)
      ≡ b * 2 ^ k + lo
byte_step k lo b p q fits =
    rw
      (
        hex_value-hex_digit (b / 16) (omega arith),
        hex_value-hex_digit (b % 16) (omega arith),
        no_overflow (b / 16) (16 * 2 ^ k) (omega arith) (omega arith),
        no_overflow (b % 16) (2 ^ k) (omega arith) (omega arith),
      )
      (ap (λ t. bit_or (bit_or lo t) (b % 16 * 2 ^ k)) (sym (mul_assoc (b / 16) 16 (2 ^ k)))
        ∙ two_nibbles k lo (b / 16) (b % 16) p (omega arith)
        ∙ ap (λ t. t * 2 ^ k + lo) (omega arith))

-- The eight characters of four bytes.
node_id_word_lem :
    (b0 b1 b2 b3 : ℕ)
    → IsByte b0
    → IsByte b1
    → IsByte b2
    → IsByte b3
    → node_id_word nibble_offset (std_print_node_id (b0 ∷ b1 ∷ b2 ∷ b3 ∷ [])) 0
      ≡ b3 * 16777216 + (b2 * 65536 + (b1 * 256 + (b0 * 1 + 0)))
unfolding node_id_word std_print_node_id
node_id_word_lem b0 b1 b2 b3 h0 h1 h2 h3 =
    rw
      (
        byte_step 0 0 b0 (omega arith) h0 (omega arith),
        byte_step 8 (b0 * 1 + 0) b1 (omega arith) h1 (omega arith),
        byte_step 16 (b1 * 256 + (b0 * 1 + 0)) b2 (omega arith) h2 (omega arith),
      )
      (byte_step 24 (b2 * 65536 + (b1 * 256 + (b0 * 1 + 0))) b3 (omega arith) h3 (omega arith))

node_id_words_step :
    (n : ℕ) (chars : List ℕ)
    → 8 ≤ length chars
    → node_id_words (suc n) chars
      ≡ word_bytes (node_id_word nibble_offset (take 8 chars) 0) ++ node_id_words n (drop 8 chars)
unfolding node_id_words
node_id_words_step n chars h = let long : ltb (length chars) 8 ≡ false = ground arith in rw long

word_bytes_lem :
    (b0 b1 b2 b3 : ℕ)
    → IsByte b0
    → IsByte b1
    → IsByte b2
    → IsByte b3
    → word_bytes (b3 * 16777216 + (b2 * 65536 + (b1 * 256 + (b0 * 1 + 0)))) ≡ b0 ∷ b1 ∷ b2 ∷ b3 ∷ []
word_bytes_lem b0 b1 b2 b3 h0 h1 h2 h3 = ground arith

node_id_words-print :
    (n : ℕ) (bs : List ℕ)
    → length bs ≡ 4 * n
    → All IsByte bs
    → node_id_words n (std_print_node_id bs) ≡ bs
unfolding node_id_words std_print_node_id
node_id_words-print zero [] e h = refl
node_id_words-print zero (b ∷ bs) e h = absurd (omega arith)
node_id_words-print (suc n) [] e h = absurd (omega arith)
node_id_words-print (suc n) (b0 ∷ []) e h = absurd (omega arith)
node_id_words-print (suc n) (b0 ∷ b1 ∷ []) e h = absurd (omega arith)
node_id_words-print (suc n) (b0 ∷ b1 ∷ b2 ∷ []) e h = absurd (omega arith)
node_id_words-print (suc n) (b0 ∷ b1 ∷ b2 ∷ b3 ∷ bs) e (h0, (h1, (h2, (h3, h)))) =
    node_id_words_step n (std_print_node_id (b0 ∷ b1 ∷ b2 ∷ b3 ∷ bs)) (omega arith)
    ∙ ap (λ w. word_bytes w ++ node_id_words n (std_print_node_id bs))
        (node_id_word_lem b0 b1 b2 b3 h0 h1 h2 h3)
    ∙ ap (λ l. l ++ node_id_words n (std_print_node_id bs)) (word_bytes_lem b0 b1 b2 b3 h0 h1 h2 h3)
    ∙ ap (λ l. b0 ∷ b1 ∷ b2 ∷ b3 ∷ l) (node_id_words-print n bs (omega arith) h)

-- bdStdNodeId reads back every node id that bdStdPrintNodeId writes.
pub std_node_id-std_print_node_id :
    (id : BdNodeId) → IsNodeId id → std_node_id (std_print_node_id id) ≡ id
unfolding std_node_id
std_node_id-std_print_node_id id h = node_id_words-print 5 id (h.len ∙ refl) h.bytes
