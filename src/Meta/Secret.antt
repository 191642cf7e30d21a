-- ===== src/Meta/Secret.antt =====
-- Secrets at rest: `encryptSecret` and `decryptSecret` of meta-conversion-api lib/crypto.ts. A text
-- is the list of its character codes. The cipher, base64, hexadecimal and UTF-8 are Node's: a record
-- of operations with the laws that the code relies on.
pub mod Trips
pub mod Tests
use msq_lms.Base.{
  ℕ, suc, Bool, true, false, not, ◌&&◌, Option, none, some, List, [], ◌∷◌, ◌++◌, any, length,
  is_empty, ◌==◌, if◌then◌else◌, ◌≡◌, ◌||◌, ltb, leb,
}
use msq_lms.Errors.{internal, Result, ok, err, ◌>>=◌}

abbrev pub Codes : Type 0
Codes = List ℕ

abbrev pub colon : ℕ
colon = 58

-- 'enc:v1:'
abbrev pub enc_prefix : Codes
enc_prefix = 101 ∷ 110 ∷ 99 ∷ 58 ∷ 118 ∷ 49 ∷ 58 ∷ []

-- The first and the second half of a surrogate pair.
abbrev pub is_high : ℕ → Bool
is_high c = leb 55296 c && ltb c 56320

abbrev pub is_low : ℕ → Bool
is_low c = leb 56320 c && ltb c 57344

-- A first half waits for its second one.
pub well_formed_from : Bool → Codes → Bool
well_formed_from waits [] = not waits
well_formed_from waits (c ∷ cs) =
    let rest = well_formed_from (is_high c) cs in
    (if waits then is_low c else not (is_low c)) && rest

-- Text that String.prototype.isWellFormed accepts: no half of a surrogate pair stands alone.
unfoldable pub is_well_formed : Codes → Bool
unfolding well_formed_from
is_well_formed text = well_formed_from false text

pub record Crypto : Type 0 where
  pub from_hex : Codes → Codes
  pub from_base64 : Codes → Codes
  pub to_base64 : Codes → Codes
  pub to_utf8 : Codes → Codes
  pub from_utf8 : Codes → Codes
  pub cipher_text : Codes → Codes → Codes → Codes
  pub auth_tag : Codes → Codes → Codes → Codes
  pub decipher : Codes → Codes → Codes → Codes → Option Codes
  pub from-to_base64 : (bytes : Codes) → from_base64 (to_base64 bytes) ≡ bytes
  pub base64_colon : (bytes : Codes) → any (λ c. c == colon) (to_base64 bytes) ≡ false
  pub base64_length : (bytes : Codes) → is_empty (to_base64 bytes) ≡ is_empty bytes
  pub from-to_utf8 : (text : Codes) → is_well_formed text ≡ true → from_utf8 (to_utf8 text) ≡ text
  pub utf8_length : (text : Codes) → is_empty (to_utf8 text) ≡ is_empty text
  pub cipher_length : (key iv bytes : Codes) → is_empty (cipher_text key iv bytes) ≡ is_empty bytes
  pub tag_length : (key iv bytes : Codes) → is_empty (auth_tag key iv bytes) ≡ false
  pub deciphers :
      (key iv bytes : Codes)
      → decipher key iv (auth_tag key iv bytes) (cipher_text key iv bytes) ≡ some bytes

-- value.startsWith(prefix), and value.slice(prefix.length) where it does.
pub after_prefix : Codes → Codes → Option Codes
after_prefix [] value = some value
after_prefix (p ∷ ps) [] = none
after_prefix (p ∷ ps) (c ∷ cs) = let rest = after_prefix ps cs in if p == c then rest else none

-- The text up to the first colon, and what follows the colon.
pub cut : Codes → Codes × Option Codes
cut [] = ([], none)
cut (c ∷ cs) = let rest = cut cs in if c == colon then ([], some cs) else (c ∷ rest.0, rest.1)

-- The first three parts of value.split(':'); a part that is missing or empty fails the guard.
third_part : Codes → Codes → Option Codes → Option (Codes × Codes × Codes)
unfolding cut
third_part iv tag none = none
third_part iv tag (some rest) =
    if is_empty iv || is_empty tag || is_empty (cut rest).0
    then none
    else some (iv, tag, (cut rest).0)

second_part : Codes → Option Codes → Option (Codes × Codes × Codes)
unfolding third_part
second_part iv none = none
second_part iv (some rest) = third_part iv (cut rest).0 (cut rest).1

pub three_parts : Codes → Option (Codes × Codes × Codes)
unfolding second_part
three_parts value = second_part (cut value).0 (cut value).1

module _ (crypto : Crypto) where
  open crypto use {
    from_hex, from_base64, to_base64, to_utf8, from_utf8, cipher_text, auth_tag, decipher,
  }

  -- `none` is an empty or absent META_ENCRYPTION_KEY.
  pub get_key : Option Codes → Result (Option Codes)
  get_key none = ok none
  get_key (some raw) =
      let key = if length raw == 64 then from_hex raw else from_base64 raw in
      if length key == 32 then ok (some key) else err internal

  seal : Codes → Codes → Option Codes → Result Codes
  seal iv plaintext none = ok plaintext
  seal iv plaintext (some key) =
      let bytes = to_utf8 plaintext in
      ok (
        enc_prefix
        ++ (to_base64 iv
            ++ colon
              ∷ (to_base64 (auth_tag key iv bytes)
                  ++ colon ∷ to_base64 (cipher_text key iv bytes))))

  -- `iv` is the twelve random bytes.
  pub encrypt_secret : Option Codes → Codes → Codes → Result Codes
  unfolding get_key seal
  encrypt_secret raw_key iv plaintext = get_key raw_key >>= seal iv plaintext

  decoded : Option Codes → Result Codes
  decoded none = err internal
  decoded (some bytes) = ok (from_utf8 bytes)

  open_parts : Codes → Option (Codes × Codes × Codes) → Result Codes
  unfolding decoded
  open_parts key none = err internal
  open_parts key (some (iv, tag, ct)) =
      decoded (decipher key (from_base64 iv) (from_base64 tag) (from_base64 ct))

  with_key : Codes → Option Codes → Result Codes
  unfolding open_parts three_parts
  with_key sealed none = err internal
  with_key sealed (some key) = open_parts key (three_parts sealed)

  unprefixed : Option Codes → Codes → Option Codes → Result Codes
  unfolding with_key get_key
  unprefixed raw_key value none = ok value
  unprefixed raw_key value (some sealed) = get_key raw_key >>= with_key sealed

  pub decrypt_secret : Option Codes → Option Codes → Result Codes
  unfolding unprefixed after_prefix
  decrypt_secret raw_key none = ok []
  decrypt_secret raw_key (some value) =
      if is_empty value then ok [] else unprefixed raw_key value (after_prefix enc_prefix value)
