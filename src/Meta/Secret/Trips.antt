-- ===== src/Meta/Secret/Trips.antt =====
-- What is encrypted decrypts to itself.
use msq_lms.Base.{
  ◌≡◌, refl, ap, ◌∙◌, subst, true, false, ◌||◌, Option, none, some, [], ◌∷◌, ◌++◌, any, is_empty,
  is_some, is_none, ◌==◌, arith, if◌then◌else◌,
}
use msq_lms.Errors.{ok, ok-injective, >>=-ok}
use msq_lms.Meta.Secret.{
  Codes, colon, enc_prefix, Crypto, after_prefix, cut, third_part, second_part, three_parts,
  is_well_formed, get_key, seal, decoded, encrypt_secret, open_parts, with_key, unprefixed,
  decrypt_secret,
}

cut-append :
    (front back : Codes)
    → any (λ c. c == colon) front ≡ false
    → cut (front ++ colon ∷ back) ≡ (front, some back)
unfolding cut
cut-append [] back h = refl
cut-append (c ∷ front) back h =
    let other : (c == colon) ≡ false = ground arith in
    let rest = cut-append front back (ground arith) in rw (other, rest) refl

cut_whole : (text : Codes) → any (λ c. c == colon) text ≡ false → cut text ≡ (text, none)
unfolding cut
cut_whole [] h = refl
cut_whole (c ∷ text) h =
    let other : (c == colon) ≡ false = ground arith in
    let rest = cut_whole text (ground arith) in rw (other, rest) refl

three_parts-join :
    (a b c : Codes)
    → any (λ x. x == colon) a ≡ false
    → any (λ x. x == colon) b ≡ false
    → any (λ x. x == colon) c ≡ false
    → (is_empty a || is_empty b || is_empty c) ≡ false
    → three_parts (a ++ colon ∷ (b ++ colon ∷ c)) ≡ some (a, b, c)
unfolding three_parts second_part third_part
three_parts-join a b c ha hb hc full =
    ap (λ x. second_part x.0 x.1) (cut-append a (b ++ colon ∷ c) ha)
    ∙ ap (λ x. third_part a x.0 x.1) (cut-append b c hb)
    ∙ ap (λ x. if is_empty a || is_empty b || is_empty x.0 then none else some (a, b, x.0))
        (cut_whole c hc)
    ∙ rw full refl

is_none-none : (o : Option Codes) → is_none o ≡ true → o ≡ none
is_none-none none h = refl
is_none-none (some x) h = cc

module _ (crypto : Crypto) where
  open crypto use {
    to_base64, from_base64, to_utf8, from_utf8, cipher_text, auth_tag, decipher, from-to_base64,
    base64_colon, base64_length, from-to_utf8, utf8_length, cipher_length, tag_length, deciphers,
  }

  -- The part after the prefix opens under the same key.
  open_parts-sealed :
      (key iv plaintext : Codes)
      → is_empty iv ≡ false
      → is_empty plaintext ≡ false
      → is_well_formed plaintext ≡ true
      → open_parts crypto key (
          three_parts (
            to_base64 iv
            ++ colon
              ∷ (to_base64 (auth_tag key iv (to_utf8 plaintext))
                  ++ colon ∷ to_base64 (cipher_text key iv (to_utf8 plaintext)))))
        ≡ ok plaintext
  unfolding open_parts decoded
  open_parts-sealed key iv plaintext has_iv has_text whole =
      let bytes = to_utf8 plaintext in
      let tag = auth_tag key iv bytes in
      let ct = cipher_text key iv bytes in
      let a = base64_length iv ∙ has_iv in
      let b = base64_length tag ∙ tag_length key iv bytes in
      let c = base64_length ct ∙ cipher_length key iv bytes ∙ utf8_length plaintext ∙ has_text in
      let parts =
        three_parts-join (to_base64 iv) (to_base64 tag) (to_base64 ct) (base64_colon iv)
          (base64_colon tag) (base64_colon ct) (rw (a, b, c) refl) in
      ap (open_parts crypto key) parts
      ∙ ap
          (λ x.
            decoded crypto
              (decipher key x (from_base64 (to_base64 tag)) (from_base64 (to_base64 ct))))
          (from-to_base64 iv)
      ∙ ap (λ x. decoded crypto (decipher key iv x (from_base64 (to_base64 ct))))
          (from-to_base64 tag)
      ∙ ap (λ x. decoded crypto (decipher key iv tag x)) (from-to_base64 ct)
      ∙ ap (decoded crypto) (deciphers key iv bytes)
      ∙ ap ok (from-to_utf8 plaintext whole)

  sealed_opens :
      (raw_key : Option Codes) (key : Option Codes) (iv plaintext stored : Codes)
      → get_key crypto raw_key ≡ ok key
      → is_empty iv ≡ false
      → is_empty plaintext ≡ false
      → is_well_formed plaintext ≡ true
      → (is_some key || is_none (after_prefix enc_prefix plaintext)) ≡ true
      → seal crypto iv plaintext key ≡ ok stored
      → decrypt_secret crypto raw_key (some stored) ≡ ok plaintext
  unfolding decrypt_secret seal unprefixed with_key after_prefix
  sealed_opens raw_key none iv plaintext stored has_key has_iv has_text whole plain e =
      let same : plaintext ≡ stored = ok-injective e in
      let bare : after_prefix enc_prefix plaintext ≡ none =
        is_none-none (after_prefix enc_prefix plaintext) plain in
      subst (λ v. decrypt_secret crypto raw_key (some v) ≡ ok plaintext) same
        (rw (has_text, bare) refl)
  sealed_opens raw_key (some key) iv plaintext stored has_key has_iv has_text whole plain e =
      let bytes = to_utf8 plaintext in
      let body =
        to_base64 iv
        ++ colon
          ∷ (to_base64 (auth_tag key iv bytes) ++ colon ∷ to_base64 (cipher_text key iv bytes)) in
      subst (λ v. decrypt_secret crypto raw_key (some v) ≡ ok plaintext) (ok-injective e)
        (rw has_key (open_parts-sealed key iv plaintext has_iv has_text whole))

  get_key-some :
      (raw : Codes) (key : Option Codes) → get_key crypto (some raw) ≡ ok key → is_some key ≡ true
  unfolding get_key
  get_key-some raw key h = ground arith

  -- Where a secret that is not empty and is well-formed text is encrypted, what is stored decrypts
  -- to it under the same key, whatever random bytes, not none, were drawn; without a key this holds
  -- of a secret that does not begin with the mark of encrypted ones.
  pub decrypt_secret-encrypt_secret :
      (raw_key : Option Codes) (iv plaintext stored : Codes)
      → is_empty iv ≡ false
      → is_empty plaintext ≡ false
      → is_well_formed plaintext ≡ true
      → (is_some raw_key || is_none (after_prefix enc_prefix plaintext)) ≡ true
      → encrypt_secret crypto raw_key iv plaintext ≡ ok stored
      → decrypt_secret crypto raw_key (some stored) ≡ ok plaintext
  unfolding encrypt_secret get_key
  decrypt_secret-encrypt_secret none iv plaintext stored has_iv has_text whole plain e =
      sealed_opens none none iv plaintext stored refl has_iv has_text whole plain e
  decrypt_secret-encrypt_secret (some raw) iv plaintext stored has_iv has_text whole plain e =
      let (key, has_key, sealed) =
        >>=-ok (get_key crypto (some raw)) (seal crypto iv plaintext) e in
      sealed_opens (some raw) key iv plaintext stored has_key has_iv has_text whole
        (rw (get_key-some raw key has_key) refl) sealed
