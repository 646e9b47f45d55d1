-- ===== src/Commerce/Uuid.antt =====
-- `str` of a UUID: 32 hexadecimal digits in groups of 8, 4, 4, 4 and 12.
use Prim.Native.Char.{Char}
use sitescore.Common.{ℕ, zero, suc, ◌/◌, ◌%◌, String, List, [], ◌∷◌, ◌≡◌, refl}

hex_digits : List Char
hex_digits =
    "0" ∷ "1" ∷ "2" ∷ "3" ∷ "4" ∷ "5" ∷ "6" ∷ "7" ∷ "8" ∷ "9" ∷ "a" ∷ "b" ∷ "c" ∷ "d" ∷ "e" ∷ "f"
    ∷ []

get_or : List Char → ℕ → Char → Char
get_or [] i d = d
get_or (c ∷ cs) zero d = c
get_or (c ∷ cs) (suc i) d = get_or cs i d

hex_digit : ℕ → Char
unfolding hex_digits get_or
hex_digit n = get_or hex_digits n "0"

-- The `k` last digits of `n`, in front of `rest`.
digits : ℕ → ℕ → String → String
digits zero n rest = rest
digits (suc k) n rest = digits k (n / 16) (String.◌∷◌ (hex_digit (n % 16)) rest)

unfoldable pub uuid_text : ℕ → String
unfolding digits hex_digit
uuid_text n =
    let node = String.◌∷◌ "-" (digits 12 n "") in
    let n4 = n / 281474976710656 in
    let clock = String.◌∷◌ "-" (digits 4 n4 node) in
    let n3 = n4 / 65536 in
    let version = String.◌∷◌ "-" (digits 4 n3 clock) in
    let n2 = n3 / 65536 in
    let mid = String.◌∷◌ "-" (digits 4 n2 version) in digits 8 (n2 / 65536) mid

uuid_text_example :
    uuid_text 0x0123456789abcdef0123456789abcdef ≡ "01234567-89ab-cdef-0123-456789abcdef"
unfolding uuid_text
uuid_text_example = refl
