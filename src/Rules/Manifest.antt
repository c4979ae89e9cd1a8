-- ===== src/Rules/Manifest.antt =====
-- src/rules.rs: `check_token_meta`, the limits of a token's manifest. `decode` is the standard base64
-- decoding.
use sth_core_pq.Base.{
  ℕ, Bool, false, not, ◌&&◌, ◌||◌, Option, none, some, List, [], ◌∷◌, length, any, Text, text_eq,
  ascii, ltb, leb, ◌==◌, if◌then◌else◌, Result, ok, err, ◌>>=◌, ◌>>◌, fail_if, ok_or, chars,
  is_utf8, is_control, is_whitespace, trim_start, starts_with, contains, to_ascii_lowercase,
}
use sth_core_pq.Models.{TokenMeta}
use sth_core_pq.Rules.{meta_invalid, logo_too_large, logo_invalid, TokenError}

abbrev pub meta_max_name : ℕ
meta_max_name = 64

abbrev pub meta_max_description : ℕ
meta_max_description = 512

abbrev pub meta_max_website : ℕ
meta_max_website = 128

abbrev pub meta_max_logo : ℕ
meta_max_logo = 8192

unfoldable pub text_ok : Text → ℕ → Bool
text_ok s max = ltb 0 (length s) && leb (length s) max && not (any is_control (chars s))

-- `o.is_some_and(p)`
abbrev pub is_some_and : {A : Type 0} → (A → Bool) → Option A → Bool
is_some_and p none = false
is_some_and p (some a) = p a

abbrev pub png_magic : List ℕ
png_magic = 0x89 ∷ 0x50 ∷ 0x4e ∷ 0x47 ∷ 0x0d ∷ 0x0a ∷ 0x1a ∷ 0x0a ∷ []

unfoldable pub check_png : List ℕ → Result TokenError (Unit {0})
check_png bytes = fail_if (not (starts_with png_magic bytes)) logo_invalid

unfoldable pub check_svg : List ℕ → Result TokenError (Unit {0})
check_svg bytes =
    let lower = to_ascii_lowercase bytes in
    let head = trim_start (chars lower) in
    fail_if (not (is_utf8 bytes)) logo_invalid
    >> fail_if
        (not (starts_with (ascii "<svg") head || starts_with (ascii "<?xml") head)
          || not (contains (ascii "<svg") lower))
        logo_invalid
    >> fail_if
        (contains (ascii "<script") lower
          || contains (ascii "javascript:") lower
          || contains (ascii "<foreignobject") lower)
        logo_invalid

module _ (base64 : Text → Option (List ℕ)) where
  unfoldable pub check_logo : Text → Text → Result TokenError (Unit {0})
  check_logo kind logo = ok_or (base64 logo) meta_invalid >>= λ bytes.
      fail_if (length bytes == 0 || ltb meta_max_logo (length bytes)) logo_too_large
      >> (if text_eq kind (ascii "png") then check_png bytes else check_svg bytes)

  unfoldable pub check_logos : Option Text → Option Text → Result TokenError (Unit {0})
  check_logos none none = ok tt
  check_logos (some kind) (some logo) =
      if text_eq kind (ascii "svg") || text_eq kind (ascii "png")
      then check_logo kind logo
      else err meta_invalid
  check_logos none (some logo) = err meta_invalid
  check_logos (some kind) none = err meta_invalid

  unfoldable pub check_token_meta : TokenMeta → Result TokenError (Unit {0})
  check_token_meta m =
      fail_if (not (text_ok m.name meta_max_name)) meta_invalid
      >> fail_if (is_some_and (λ d. not (text_ok d meta_max_description)) m.description)
          meta_invalid
      >> fail_if
          (is_some_and (λ w. not (text_ok w meta_max_website) || any is_whitespace (chars w))
            m.website)
          meta_invalid
      >> check_logos m.logo_type m.logo
