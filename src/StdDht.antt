-- ===== src/StdDht.antt =====
-- bitdht/bdstddht.cc: the key space of the standard DHT. A random number is an argument.
pub mod Metric
pub mod MidPoint
pub mod Text
pub mod Buckets
use bitdht.Base.{
  ℕ, zero, suc, ◌+◌, ◌-◌, ◌*◌, ◌/◌, ◌%◌, ◌^◌, ◌≡◌, Bool, true, false, not, ◌&&◌, List, [], ◌∷◌,
  ◌++◌, ltb, leb, ◌==◌, if◌then◌else◌, length, get_or, take, drop, bit_and, bit_or, bit_xor,
}
use bitdht.Peer.{BdNodeId, BdMetric, BdId, id_eq, key_len}
use bitdht.DhtFunctions.{DhtFunctions}

abbrev pub standard_bucket_size : ℕ
standard_bucket_size = 10

abbrev pub standard_bucket_size_bits : ℕ
standard_bucket_size_bits = 5

abbrev pub key_bitlen : ℕ
key_bitlen = 160

-- The four bytes of a word as they lie in memory, the lowest first.
abbrev pub word_bytes : ℕ → List ℕ
word_bytes w = (w % 256) ∷ (w / 256 % 256) ∷ (w / 65536 % 256) ∷ (w / 16777216 % 256) ∷ []

-- `words` are the results of the five calls of rand().
unfoldable pub std_random_node_id : List ℕ → BdNodeId
std_random_node_id [] = []
std_random_node_id (w ∷ words) = word_bytes w ++ std_random_node_id words

abbrev pub hex_value : ℕ → ℕ
hex_value c =
    if leb b'0' c && leb c b'9'
    then c - b'0'
    else if leb b'A' c && leb c b'F'
    then c - (b'A' - 10)
    else if leb b'a' c && leb c b'f'
    then c - (b'a' - 10)
    else 15

-- The loop over the eight characters of a word, with the offsets of their nibbles.
unfoldable pub node_id_word : List ℕ → List ℕ → ℕ → ℕ
node_id_word (o ∷ offset) (c ∷ chars) w =
    node_id_word offset chars (bit_or w (hex_value c * 2 ^ (o * 4) % 2 ^ 32))
node_id_word offset chars w = w

abbrev pub nibble_offset : List ℕ
nibble_offset = 1 ∷ 0 ∷ 3 ∷ 2 ∷ 5 ∷ 4 ∷ 7 ∷ 6 ∷ []

-- Both loops over the words: those that the text has, and zeros for the others.
unfoldable pub node_id_words : ℕ → List ℕ → BdNodeId
node_id_words zero chars = []
node_id_words (suc rounds) chars =
    let word = if ltb (length chars) 8 then 0 else node_id_word nibble_offset (take 8 chars) 0 in
    word_bytes word ++ node_id_words rounds (drop 8 chars)

unfoldable pub std_node_id : List ℕ → BdNodeId
std_node_id chars = node_id_words 5 chars

abbrev pub hex_digit : ℕ → ℕ
hex_digit d = if ltb d 10 then b'0' + d else b'a' + (d - 10)

-- Two digits a byte.
unfoldable pub std_print_node_id : BdNodeId → List ℕ
std_print_node_id [] = []
std_print_node_id (b ∷ bs) = hex_digit (b / 16) ∷ hex_digit (b % 16) ∷ std_print_node_id bs

unfoldable pub std_likely_same_node : BdId → BdId → ℕ
std_likely_same_node n1 n2 = if id_eq n1 n2 then 1 else 0

-- The loop over the bytes of two arrays of one length.
unfoldable pub std_distance : BdNodeId → BdNodeId → BdMetric
std_distance [] ys = []
std_distance (x ∷ xs) [] = []
std_distance (x ∷ xs) (y ∷ ys) = bit_xor x y ∷ std_distance xs ys

-- The loop over the bits from the first one; `rounds` is what is left of the 160.
unfoldable pub bucket_distance_loop : BdMetric → ℕ → ℕ → ℕ
bucket_distance_loop m zero i = 0
bucket_distance_loop m (suc rounds) i =
    let rest = bucket_distance_loop m rounds (i + 1) in
    let comp = 2 ^ (7 - i % 8) in
    if not (bit_and comp (get_or m (i / 8) 0) == 0) then key_bitlen - i - 1 else rest

unfoldable pub std_bucket_distance : BdMetric → ℕ
std_bucket_distance m = bucket_distance_loop m key_bitlen 0

-- `random` is the id that bdStdRandomNodeId gave. Copies the target up to and with the first byte of the distance that is not zero.
unfoldable pub mid_loop : BdMetric → BdNodeId → BdNodeId → BdNodeId
mid_loop (d ∷ ds) (t ∷ ts) (r ∷ rs) =
    let rest = t ∷ mid_loop ds ts rs in if not (d == 0) then t ∷ rs else rest
mid_loop ds ts rs = rs

unfoldable pub std_random_mid_id : BdNodeId → BdNodeId → BdNodeId → BdNodeId
std_random_mid_id target other random = mid_loop (std_distance target other) target random

abbrev pub std_dht : DhtFunctions
std_dht = record {
  num_buckets = key_bitlen;
  nodes_per_bucket = standard_bucket_size;
  bucket_bit_size = standard_bucket_size_bits;
  distance = std_distance;
  bucket_distance = std_bucket_distance;
  likely_same_node = std_likely_same_node;
  random_mid_id = std_random_mid_id;
}
