-- ===== src/Meta/Secret/Tests.antt =====
-- A cipher that hides nothing, with codes shifted past the colon for base64.
use msq_lms.Base.{◌+◌, ◌-◌, ◌≡◌, refl, ap₂, false, some, [], ◌∷◌, any, is_empty, ◌==◌, arith}
use msq_lms.Errors.{ok}
use msq_lms.Meta.Secret.{
  Codes, colon, is_well_formed, Crypto, get_key, seal, encrypt_secret, decrypt_secret,
}
use msq_lms.Meta.Secret.Trips.{decrypt_secret-encrypt_secret}

shift : Codes → Codes
shift [] = []
shift (c ∷ cs) = (c + 100) ∷ shift cs

unshift : Codes → Codes
unshift [] = []
unshift (c ∷ cs) = (c - 100) ∷ unshift cs

unshift-shift : (cs : Codes) → unshift (shift cs) ≡ cs
unfolding shift unshift
unshift-shift [] = refl
unshift-shift (c ∷ cs) = ap₂ (λ x xs. x ∷ xs) (omega arith) (unshift-shift cs)

shift-colon : (cs : Codes) → any (λ c. c == colon) (shift cs) ≡ false
unfolding shift
shift-colon [] = refl
shift-colon (c ∷ cs) = ground (arith, shift-colon cs)

shift_length : (cs : Codes) → is_empty (shift cs) ≡ is_empty cs
unfolding shift
shift_length [] = refl
shift_length (c ∷ cs) = refl

abbrev plain_crypto : Crypto
plain_crypto = record {
  from_hex = λ raw. raw;
  from_base64 = unshift;
  to_base64 = shift;
  to_utf8 = λ text. text;
  from_utf8 = λ bytes. bytes;
  cipher_text = λ key iv bytes. bytes;
  auth_tag = λ key iv bytes. 7 ∷ [];
  decipher = λ key iv tag bytes. some bytes;
  from-to_base64 = unshift-shift;
  base64_colon = shift-colon;
  base64_length = shift_length;
  from-to_utf8 = λ text e. refl;
  utf8_length = λ text. refl;
  cipher_length = λ key iv bytes. refl;
  tag_length = λ key iv bytes. refl;
  deciphers = λ key iv bytes. refl;
}

-- A key of 32 bytes.
abbrev raw_key : Codes
raw_key =
    101 ∷ 102 ∷ 103 ∷ 104 ∷ 105 ∷ 106 ∷ 107 ∷ 108 ∷ 109 ∷ 110 ∷ 111 ∷ 112 ∷ 113 ∷ 114 ∷ 115 ∷ 116
    ∷ 117 ∷ 118 ∷ 119 ∷ 120 ∷ 121 ∷ 122 ∷ 123 ∷ 124 ∷ 125 ∷ 126 ∷ 127 ∷ 128 ∷ 129 ∷ 130 ∷ 131 ∷ 132
    ∷ []

abbrev stored_secret : Codes
stored_secret = 101 ∷ 110 ∷ 99 ∷ 58 ∷ 118 ∷ 49 ∷ 58 ∷ 101 ∷ 102 ∷ 58 ∷ 107 ∷ 58 ∷ 215 ∷ 216 ∷ []

run : Unit {0}
unfolding is_well_formed shift unshift encrypt_secret get_key seal
run = tt

decrypt_secret-encrypt_secret_example :
    decrypt_secret plain_crypto (some raw_key) (some stored_secret) ≡ ok (115 ∷ 116 ∷ [])
unfolding run
decrypt_secret-encrypt_secret_example =
    decrypt_secret-encrypt_secret plain_crypto (some raw_key) (1 ∷ 2 ∷ []) (115 ∷ 116 ∷ [])
      stored_secret refl refl refl refl refl
