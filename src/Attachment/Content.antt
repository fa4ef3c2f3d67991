-- ===== src/Attachment/Content.antt =====
-- internal/attachment/content_policy.go: which files are taken, by their extension, declared type and
-- first bytes. `mime.ParseMediaType` and `http.DetectContentType` are parameters.
pub mod Words
pub mod Binary
use vibe_bridge.Base.{
  ℕ, zero, suc, ◌+◌, ◌*◌, Bool, true, false, not, ◌&&◌, ◌||◌, List, [], ◌∷◌, Option, none, some,
  Bytes, ltb, leb, ◌==◌, if◌then◌else◌, length, drop, is_empty, dec_bytes, ite, all_of,
}
use vibe_bridge.Base.Map.{lookup}
use vibe_bridge.Base.Trim.{starts_with, strip_prefix, trim_space}
use Words.{
  txt, log, md, markdown, json, yaml, yml, toml, csv, png, jpg, jpeg, webp, gif, pdf, text_plain,
  text_markdown, application_json, application_yaml, application_x_yaml, text_yaml, text_x_yaml,
  application_toml, text_toml, text_csv, image_png, image_jpeg, image_webp, image_gif,
  application_pdf, charset, utf_8, active_prefixes, png_signature, ihdr, gif_87a, gif_89a, riff,
  webp_mark, vp8_lossy, vp8_lossless, vp8_extended, pdf_mark,
}

-- `Kind` is the field `binaryKind`, and `none_kind` the empty string.
pub data Kind : Type 0 where
  none_kind png_kind jpeg_kind gif_kind webp_kind pdf_kind : Kind

pub record ContentPolicy : Type 0 where
  pub extension : Bytes
  pub content_type : Bytes
  pub text : Bool
  pub binary_kind : Kind

pub record Definition : Type 0 where
  pub content_types : List Bytes
  pub canonical : Bytes
  pub text : Bool
  pub binary_kind : Kind

-- `mime.ParseMediaType`, with the parameters in some order, and `http.DetectContentType`.
pub record Mime : Type 0 where
  pub parse_media_type : Bytes → Option (Bytes × List (Bytes × Bytes))
  pub detect_content_type : Bytes → Bytes

abbrev text_definition : Bytes → List Bytes → Definition
text_definition canonical types = record {
  content_types = types;
  canonical = canonical;
  text = true;
  binary_kind = none_kind;
}

abbrev binary_definition : Bytes → Kind → Definition
binary_definition canonical kind = record {
  content_types = canonical ∷ [];
  canonical = canonical;
  text = false;
  binary_kind = kind;
}

abbrev supported_content_policies : List (Bytes × Definition)
supported_content_policies =
    (txt, text_definition text_plain (text_plain ∷ []))
    ∷ (log, text_definition text_plain (text_plain ∷ []))
    ∷ (md, text_definition text_markdown (text_markdown ∷ text_plain ∷ []))
    ∷ (markdown, text_definition text_markdown (text_markdown ∷ text_plain ∷ []))
    ∷ (json, text_definition application_json (application_json ∷ []))
    ∷ (
      yaml,
      text_definition application_yaml
          (application_yaml ∷ application_x_yaml ∷ text_yaml ∷ text_x_yaml ∷ []),
    )
    ∷ (
      yml,
      text_definition application_yaml
          (application_yaml ∷ application_x_yaml ∷ text_yaml ∷ text_x_yaml ∷ []),
    )
    ∷ (toml, text_definition application_toml (application_toml ∷ text_toml ∷ []))
    ∷ (csv, text_definition text_csv (text_csv ∷ []))
    ∷ (png, binary_definition image_png png_kind)
    ∷ (jpg, binary_definition image_jpeg jpeg_kind)
    ∷ (jpeg, binary_definition image_jpeg jpeg_kind)
    ∷ (webp, binary_definition image_webp webp_kind)
    ∷ (gif, binary_definition image_gif gif_kind)
    ∷ (pdf, binary_definition application_pdf pdf_kind)
    ∷ []

abbrev lower : ℕ → ℕ
lower b = if leb 65 b && leb b 90 then b + 32 else b

-- `strings.ToLower` and `bytes.ToLower` as far as they yield an ASCII letter: the runes that fold to
-- one are the capitals, U+0130 and U+212A. What is left is part of no word compared with. On fuel:
-- each round takes a byte at least.
unfoldable pub lower_all : ℕ → Bytes → Bytes
lower_all zero s = s
lower_all (suc n) s = elim (strip_prefix (0xc4 ∷ 0xb0 ∷ []) s) [
  | some rest ↦ 105 ∷ lower_all n rest
  | none ↦ elim (strip_prefix (0xe2 ∷ 0x84 ∷ 0xaa ∷ []) s) [
    | some rest ↦ 107 ∷ lower_all n rest
    | none ↦ elim s [ [] ↦ [] | b ∷ p ↦ lower b ∷ lower_all n p ]
  ]
]

unfoldable pub to_lower : Bytes → Bytes
unfolding lower_all
to_lower s = lower_all (length s) s

abbrev same : Bytes → Bytes → Bool
same a b = ite (dec_bytes a b) true false

-- `strings.EqualFold` with a word of small ASCII letters, digits and dashes.
abbrev equal_fold : Bytes → Bytes → Bool
equal_fold [] [] = true
equal_fold (a ∷ s) (b ∷ word) = lower a == b && equal_fold s word
equal_fold (a ∷ s) [] = false
equal_fold [] (b ∷ word) = false

unfoldable pub contains_string : List Bytes → Bytes → Bool
contains_string [] target = false
contains_string (value ∷ values) target = same value target || contains_string values target

-- `strings.ContainsAny(extension, ". /\\\x00")`.
abbrev separator : ℕ → Bool
separator b = b == 46 || b == 32 || b == 47 || b == 92 || b == 0

abbrev trim_dot : Bytes → Bytes
trim_dot [] = []
trim_dot (b ∷ s) = if b == 46 then s else b ∷ s

unfoldable pub well_formed_extension : Bytes → Bool
unfolding to_lower
well_formed_extension extension =
    not (is_empty extension)
    && same extension (to_lower extension)
    && all_of (λ b. not (separator b)) extension

-- The loop over the media type's parameters.
unfoldable pub parameters_allowed : Definition → List (Bytes × Bytes) → Bool
parameters_allowed d [] = true
parameters_allowed d ((key, value) ∷ parameters) =
    d.text && equal_fold key charset && equal_fold value utf_8 && parameters_allowed d parameters

abbrev policy_of : Bytes → Definition → ContentPolicy
policy_of extension d = record {
  extension = 46 ∷ extension;
  content_type = d.canonical;
  text = d.text;
  binary_kind = d.binary_kind;
}

-- What follows the lookup of the extension.
unfoldable pub check_media_type :
    Bytes → Definition → Option (Bytes × List (Bytes × Bytes)) → Option ContentPolicy
unfolding to_lower contains_string parameters_allowed
check_media_type extension d none = none
check_media_type extension d (some (media_type, parameters)) =
    if contains_string d.content_types (to_lower media_type) && parameters_allowed d parameters
    then some (policy_of extension d)
    else none

unfoldable pub check_extension : Mime → Bytes → Option Definition → Bytes → Option ContentPolicy
unfolding check_media_type
check_extension mime extension none declared = none
check_extension mime extension (some d) declared =
    check_media_type extension d (mime.parse_media_type (trim_space declared))

unfoldable pub parse_content_policy : Mime → Bytes → Bytes → Option ContentPolicy
unfolding well_formed_extension check_extension
parse_content_policy mime declared_extension declared_content_type =
    let extension = trim_dot (trim_space declared_extension) in
    if well_formed_extension extension
    then check_extension mime extension (lookup extension supported_content_policies)
        declared_content_type
    else none

-- The file's first bytes -----------------------------------------------------------------------

abbrev at : ℕ → Bytes → ℕ
at n s = elim (drop n s) [ [] ↦ 0 | b ∷ p ↦ b ]

abbrev stands_at : ℕ → Bytes → Bytes → Bool
stands_at n mark s = starts_with mark (drop n s)

pub valid_png_header : Bytes → Bool
valid_png_header s =
    leb 24 (length s)
    && starts_with png_signature s
    && (((at 8 s * 256 + at 9 s) * 256 + at 10 s) * 256 + at 11 s) == 13
    && stands_at 12 ihdr s

pub valid_jpeg_header : Bytes → Bool
valid_jpeg_header s =
    leb 4 (length s)
    && at 0 s == 0xff
    && at 1 s == 0xd8
    && at 2 s == 0xff
    && not (at 3 s == 0)
    && not (at 3 s == 0xff)
    && not (at 3 s == 0xd8)
    && not (at 3 s == 0xd9)

pub valid_gif_header : Bytes → Bool
valid_gif_header s =
    leb 10 (length s)
    && (starts_with gif_87a s || starts_with gif_89a s)
    && not ((at 6 s + 256 * at 7 s) == 0)
    && not ((at 8 s + 256 * at 9 s) == 0)

pub valid_webp_header : Bytes → ℕ → Bool
valid_webp_header s total_size =
    leb 16 (length s)
    && starts_with riff s
    && stands_at 8 webp_mark s
    && (at 4 s + 256 * (at 5 s + 256 * (at 6 s + 256 * at 7 s)) + 8) == total_size
    && (stands_at 12 vp8_lossy s || stands_at 12 vp8_lossless s || stands_at 12 vp8_extended s)

pub valid_pdf_header : Bytes → Bool
valid_pdf_header s =
    leb 8 (length s)
    && starts_with pdf_mark s
    && (at 5 s == 49 || at 5 s == 50)
    && at 6 s == 46
    && leb 48 (at 7 s)
    && leb (at 7 s) 57

abbrev any_prefix : List Bytes → Bytes → Bool
any_prefix [] s = false
any_prefix (p ∷ ps) s = starts_with p s || any_prefix ps s

unfoldable pub looks_like_active_markup : Bytes → Bool
unfolding to_lower
looks_like_active_markup s = any_prefix active_prefixes (to_lower (trim_space s))

-- Without the byte-order mark.
abbrev unmarked : Bytes → Bytes
unmarked s = elim (strip_prefix (0xef ∷ 0xbb ∷ 0xbf ∷ []) s) [ some rest ↦ rest | none ↦ s ]

abbrev detected_as : Mime → Bytes → Bytes → Bool
detected_as mime s wanted = elim (mime.parse_media_type (mime.detect_content_type s)) [
  | none ↦ false
  | some (media_type, parameters) ↦ same media_type wanted
]

abbrev valid_header : Kind → Bytes → ℕ → Bool
valid_header none_kind s total_size = false
valid_header png_kind s total_size = valid_png_header s
valid_header jpeg_kind s total_size = valid_jpeg_header s
valid_header gif_kind s total_size = valid_gif_header s
valid_header webp_kind s total_size = valid_webp_header s total_size
valid_header pdf_kind s total_size = valid_pdf_header s

unfoldable pub matches_bytes : Mime → ContentPolicy → Bytes → ℕ → Bool → Bool
unfolding valid_png_header valid_jpeg_header valid_gif_header valid_webp_header valid_pdf_header
    looks_like_active_markup
matches_bytes mime p sniff total_size valid_text =
    if p.text
    then valid_text
      && detected_as mime (unmarked sniff) text_plain
      && not (looks_like_active_markup (unmarked sniff))
    else detected_as mime sniff p.content_type && valid_header p.binary_kind sniff total_size
