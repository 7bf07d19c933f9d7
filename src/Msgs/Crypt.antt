-- ===== src/Msgs/Crypt.antt =====
-- bitdht_ecrypt and bitdht_decrypt of bitdht/bdmsgs.cc, which add a checksum and a token to a datagram and take them
-- off. The buffer is the list of its first `size` bytes; a `char` is signed, so a byte from 128 on is negative when
-- it is added.
pub mod Overrun
use bitdht.Base.{
  ℕ, zero, suc, ◌+◌, ◌-◌, ◌*◌, ◌/◌, ◌%◌, ◌^◌, Bool, true, false, Option, none, some, List, [], ◌∷◌,
  ◌++◌, ltb, ◌==◌, if◌then◌else◌, length, take, drop, set,
}

-- The 32 bits of a signed char.
abbrev pub sign_extend : ℕ → ℕ
sign_extend b = if ltb b 128 then b else b + (2 ^ 32 - 256)

-- A sum of chars in a uint32_t.
abbrev pub add_chars : List ℕ → ℕ → ℕ
add_chars [] sum = sum
add_chars (b ∷ bs) sum = add_chars bs ((sum + sign_extend b) % 2 ^ 32)

-- The bytes of a union with a uint32_t, in memory.
abbrev pub word_bytes : ℕ → List ℕ
word_bytes w = (w % 256) ∷ (w / 256 % 256) ∷ (w / 65536 % 256) ∷ (w / 16777216 % 256) ∷ []

-- The loop that writes at `i`: it counts `j` up with `i`, and tests their sum.
abbrev pub put_bytes : List ℕ → ℕ → ℕ → ℕ → List ℕ
put_bytes [] i j avail = []
put_bytes (b ∷ bs) i j avail =
    if ltb (i + j) avail then b ∷ put_bytes bs (suc i) (suc j) avail else []

-- The bytes that are sent; their number is what the function returns.
unfoldable pub ecrypt : List ℕ → ℕ → ℕ → List ℕ
ecrypt msg avail token =
    let sum = add_chars msg (length msg % 2 ^ 32) % (2 ^ 32 - 1) in
    let first = put_bytes (word_bytes sum) (length msg) 0 avail in
    let second = put_bytes (word_bytes token) (length msg + length first) 0 avail in
    msg ++ (first ++ second)

-- The word that the four bytes of the union spell.
abbrev pub word_of : List ℕ → ℕ
word_of [] = 0
word_of (b ∷ bs) = b + 256 * word_of bs

-- The loop that reads the token: the rest of the buffer from `j` on goes to `byte[j]` and behind. `none` is the write
-- past the array, which has four bytes.
abbrev pub read_token : List ℕ → ℕ → List ℕ → Option (List ℕ)
read_token [] j byte = some byte
read_token (b ∷ bs) j byte =
    let rest = read_token bs (suc j) (set byte j b) in if ltb j 4 then rest else none

-- The checksum of what is in front of the last eight bytes, and whether the four behind it agree. In a shorter buffer
-- nothing is summed, and its first four bytes are compared.
abbrev pub check_sum : List ℕ → List ℕ → Bool × ℕ
check_sum msg byte =
    let i = length msg - 8 in
    let sum = (add_chars (take i msg) 0 + i) % 2 ^ 32 % (2 ^ 32 - 1) in
    (word_of (take 4 (drop i msg)) == sum, word_of byte)

abbrev pub checked : List ℕ → Option (List ℕ) → Option (Bool × ℕ)
checked msg none = none
checked msg (some byte) = some (check_sum msg byte)

-- Whether the checksum is right, and the token; `none` is undefined behaviour. In a buffer below four bytes the loop
-- starts at a negative index. What the union holds at first is written over or not used.
unfoldable pub decrypt : List ℕ → Option (Bool × ℕ)
decrypt msg =
    let start = length msg - 4 in
    if ltb (length msg) 4
    then none
    else checked msg (read_token (drop start msg) start (0 ∷ 0 ∷ 0 ∷ 0 ∷ []))
