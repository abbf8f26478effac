-- ===== src/Format.antt =====
-- The regular expressions of helper_protocol.py, each used by `fullmatch`, on code points.
pub mod Labels
use Prim.Native.Char.{code}
use nixos_control_manager.Prelude.{
  ℕ, String, Bool, true, false, not, ◌&&◌, ◌||◌, Option, none, some, List, [], ◌∷◌, leb, nat_eq,
  all, zero, suc, length, if◌then◌else◌, ◌≤◌, ◌≡◌, ◌⊎◌, All, and_elim, arith,
}

abbrev pub codes : String → List ℕ
codes String.[] = []
codes (String.◌∷◌ c s) = code c ∷ codes s

abbrev between : ℕ → ℕ → ℕ → Bool
between lo hi c = leb lo c && leb c hi

lower : ℕ → Bool
lower c = between b'a' b'z' c

upper : ℕ → Bool
upper c = between b'A' b'Z' c

digit : ℕ → Bool
digit c = between b'0' b'9' c

-- [0-9a-f]
unfoldable pub hex : ℕ → Bool
unfolding digit
hex c = digit c || between b'a' b'f' c

-- [A-Za-z0-9_-]
unfoldable pub word : ℕ → Bool
unfolding lower upper digit
word c = lower c || upper c || digit c || nat_eq c b'_' || nat_eq c b'-'

-- One character class, repeated between `lo` and `hi` times.
unfoldable pub repeated : (ℕ → Bool) → ℕ → ℕ → List ℕ → Bool
repeated p lo hi cs = all p cs && leb lo (length cs) && leb (length cs) hi

-- A first character, and up to `hi` of another class.
unfoldable pub headed : (ℕ → Bool) → (ℕ → Bool) → ℕ → List ℕ → Bool
headed first p hi [] = false
headed first p hi (c ∷ cs) = first c && all p cs && leb (length cs) hi

-- `_REQUEST_ID`
unfoldable pub is_request_id : String → Bool
unfolding repeated word
is_request_id s = repeated word 8 64 (codes s)

abbrev target_char : ℕ → Bool
target_char c = lower c || digit c || nat_eq c b'-'

-- `_TARGET_ID`
unfoldable pub is_target_id : String → Bool
unfolding headed lower digit
is_target_id s = headed lower target_char 31 (codes s)

-- `_SHA256`
unfoldable pub is_sha256 : String → Bool
unfolding repeated hex
is_sha256 s = repeated hex 64 64 (codes s)

-- `_RECEIPT`
unfoldable pub is_receipt : String → Bool
unfolding repeated word
is_receipt s = repeated word 32 128 (codes s)

-- `_TRANSACTION_ID`, also `_SESSION_ID` of activation_session.py
unfoldable pub is_transaction_id : String → Bool
unfolding repeated hex
is_transaction_id s = repeated hex 24 24 (codes s)

abbrev user_first : ℕ → Bool
user_first c = lower c || nat_eq c b'_'

abbrev user_char : ℕ → Bool
user_char c = lower c || digit c || nat_eq c b'_' || nat_eq c b'.' || nat_eq c b'@' || nat_eq c b'-'

-- `_USER_NAME`
unfoldable pub is_user_name : String → Bool
unfolding headed lower digit
is_user_name s = headed user_first user_char 63 (codes s)

-- The input name of a flake.lock update, [A-Za-z0-9_-]{1,128}
unfoldable pub is_input_name : String → Bool
unfolding repeated word
is_input_name s = repeated word 1 128 (codes s)

abbrev identifier_first : ℕ → Bool
identifier_first c = lower c || upper c || nat_eq c b'_'

abbrev identifier_char : ℕ → Bool
identifier_char c = identifier_first c || digit c || nat_eq c b'\'' || nat_eq c b'-'

-- Identifiers joined by dots; the flag is set where an identifier must begin.
attribute_from : Bool → List ℕ → Bool
unfolding lower upper digit
attribute_from true [] = false
attribute_from false [] = true
attribute_from true (c ∷ cs) = identifier_first c && attribute_from false cs
attribute_from false (c ∷ cs) =
    (nat_eq c b'.' || identifier_char c) && attribute_from (nat_eq c b'.') cs

-- `_ATTRIBUTE_PATH`
unfoldable pub is_attribute_path : String → Bool
unfolding attribute_from
is_attribute_path s = attribute_from true (codes s)

-- What is left of a text behind a prefix.
after : List ℕ → List ℕ → Option (List ℕ)
after [] cs = some cs
after (p ∷ ps) [] = none
after (p ∷ ps) (c ∷ cs) = let rest = after ps cs in if nat_eq p c then rest else none

-- `\s` of a pattern over `str`
abbrev space : ℕ → Bool
space c =
    between 9 13 c
    || between 28 32 c
    || nat_eq c 133
    || nat_eq c 160
    || nat_eq c 5760
    || between 8192 8202 c
    || between 8232 8233 c
    || nat_eq c 8239
    || nat_eq c 8287
    || nat_eq c 12288

abbrev name_char : ℕ → Bool
name_char c = not (nat_eq c b'/' || space c)

-- `n` characters of [0-9a-z], a dash, and a name of one character or more.
store_name : ℕ → List ℕ → Bool
unfolding lower digit
store_name n [] = false
store_name zero (c ∷ cs) = nat_eq c b'-' && all name_char cs && leb 1 (length cs)
store_name (suc n) (c ∷ cs) = (digit c || lower c) && store_name n cs

store_name_after : Option (List ℕ) → Bool
unfolding store_name
store_name_after none = false
store_name_after (some cs) = store_name 32 cs

-- `_STORE_PATH`
unfoldable pub is_store_path : String → Bool
unfolding store_name_after after
is_store_path s = store_name_after (after (codes "/nix/store/") (codes s))

-- What `hex` lets through.
abbrev pub IsHexDigit : ℕ → Type 0
IsHexDigit c = ((b'0' ≤ c) × (c ≤ b'9')) ⊎ ((b'a' ≤ c) × (c ≤ b'f'))

hex-IsHexDigit : (c : ℕ) → hex c ≡ true → IsHexDigit c
unfolding hex digit
hex-IsHexDigit c e = ground arith

All-hex : (cs : List ℕ) → all hex cs ≡ true → All IsHexDigit cs
All-hex [] e = tt
All-hex (c ∷ cs) e =
    let (a, b) = and_elim (hex c) (all hex cs) e in (hex-IsHexDigit c a, All-hex cs b)

-- A digest in hexadecimal: 64 digits.
abbrev pub IsSha256 : String → Type 0
IsSha256 s = (length (codes s) ≡ 64) × All IsHexDigit (codes s)

pub is_sha256-IsSha256 : (s : String) → is_sha256 s ≡ true → IsSha256 s
unfolding is_sha256 repeated
is_sha256-IsSha256 s e =
    let (a, top) = and_elim (all hex (codes s) && leb 64 (length (codes s))) _ e in
    let (digits, low) = and_elim (all hex (codes s)) _ a in (ground arith, All-hex (codes s) digits)
