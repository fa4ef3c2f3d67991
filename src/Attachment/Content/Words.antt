-- ===== src/Attachment/Content/Words.antt =====
-- internal/attachment/content_policy.go: the strings of the content policies, as bytes.
use vibe_bridge.Base.{Bytes, List, [], ◌∷◌}

-- "txt".
abbrev pub txt : Bytes
txt = 116 ∷ 120 ∷ 116 ∷ []

-- "log".
abbrev pub log : Bytes
log = 108 ∷ 111 ∷ 103 ∷ []

-- "md".
abbrev pub md : Bytes
md = 109 ∷ 100 ∷ []

-- "markdown".
abbrev pub markdown : Bytes
markdown = 109 ∷ 97 ∷ 114 ∷ 107 ∷ 100 ∷ 111 ∷ 119 ∷ 110 ∷ []

-- "json".
abbrev pub json : Bytes
json = 106 ∷ 115 ∷ 111 ∷ 110 ∷ []

-- "yaml".
abbrev pub yaml : Bytes
yaml = 121 ∷ 97 ∷ 109 ∷ 108 ∷ []

-- "yml".
abbrev pub yml : Bytes
yml = 121 ∷ 109 ∷ 108 ∷ []

-- "toml".
abbrev pub toml : Bytes
toml = 116 ∷ 111 ∷ 109 ∷ 108 ∷ []

-- "csv".
abbrev pub csv : Bytes
csv = 99 ∷ 115 ∷ 118 ∷ []

-- "png".
abbrev pub png : Bytes
png = 112 ∷ 110 ∷ 103 ∷ []

-- "jpg".
abbrev pub jpg : Bytes
jpg = 106 ∷ 112 ∷ 103 ∷ []

-- "jpeg".
abbrev pub jpeg : Bytes
jpeg = 106 ∷ 112 ∷ 101 ∷ 103 ∷ []

-- "webp".
abbrev pub webp : Bytes
webp = 119 ∷ 101 ∷ 98 ∷ 112 ∷ []

-- "gif".
abbrev pub gif : Bytes
gif = 103 ∷ 105 ∷ 102 ∷ []

-- "pdf".
abbrev pub pdf : Bytes
pdf = 112 ∷ 100 ∷ 102 ∷ []

-- "text/plain".
abbrev pub text_plain : Bytes
text_plain = 116 ∷ 101 ∷ 120 ∷ 116 ∷ 47 ∷ 112 ∷ 108 ∷ 97 ∷ 105 ∷ 110 ∷ []

-- "text/markdown".
abbrev pub text_markdown : Bytes
text_markdown = 116 ∷ 101 ∷ 120 ∷ 116 ∷ 47 ∷ 109 ∷ 97 ∷ 114 ∷ 107 ∷ 100 ∷ 111 ∷ 119 ∷ 110 ∷ []

-- "application/json".
abbrev pub application_json : Bytes
application_json =
    97 ∷ 112 ∷ 112 ∷ 108 ∷ 105 ∷ 99 ∷ 97 ∷ 116 ∷ 105 ∷ 111 ∷ 110 ∷ 47 ∷ 106 ∷ 115 ∷ 111 ∷ 110 ∷ []

-- "application/yaml".
abbrev pub application_yaml : Bytes
application_yaml =
    97 ∷ 112 ∷ 112 ∷ 108 ∷ 105 ∷ 99 ∷ 97 ∷ 116 ∷ 105 ∷ 111 ∷ 110 ∷ 47 ∷ 121 ∷ 97 ∷ 109 ∷ 108 ∷ []

-- "application/x-yaml".
abbrev pub application_x_yaml : Bytes
application_x_yaml =
    97 ∷ 112 ∷ 112 ∷ 108 ∷ 105 ∷ 99 ∷ 97 ∷ 116 ∷ 105 ∷ 111 ∷ 110 ∷ 47 ∷ 120 ∷ 45 ∷ 121 ∷ 97 ∷ 109
    ∷ 108 ∷ []

-- "text/yaml".
abbrev pub text_yaml : Bytes
text_yaml = 116 ∷ 101 ∷ 120 ∷ 116 ∷ 47 ∷ 121 ∷ 97 ∷ 109 ∷ 108 ∷ []

-- "text/x-yaml".
abbrev pub text_x_yaml : Bytes
text_x_yaml = 116 ∷ 101 ∷ 120 ∷ 116 ∷ 47 ∷ 120 ∷ 45 ∷ 121 ∷ 97 ∷ 109 ∷ 108 ∷ []

-- "application/toml".
abbrev pub application_toml : Bytes
application_toml =
    97 ∷ 112 ∷ 112 ∷ 108 ∷ 105 ∷ 99 ∷ 97 ∷ 116 ∷ 105 ∷ 111 ∷ 110 ∷ 47 ∷ 116 ∷ 111 ∷ 109 ∷ 108 ∷ []

-- "text/toml".
abbrev pub text_toml : Bytes
text_toml = 116 ∷ 101 ∷ 120 ∷ 116 ∷ 47 ∷ 116 ∷ 111 ∷ 109 ∷ 108 ∷ []

-- "text/csv".
abbrev pub text_csv : Bytes
text_csv = 116 ∷ 101 ∷ 120 ∷ 116 ∷ 47 ∷ 99 ∷ 115 ∷ 118 ∷ []

-- "image/png".
abbrev pub image_png : Bytes
image_png = 105 ∷ 109 ∷ 97 ∷ 103 ∷ 101 ∷ 47 ∷ 112 ∷ 110 ∷ 103 ∷ []

-- "image/jpeg".
abbrev pub image_jpeg : Bytes
image_jpeg = 105 ∷ 109 ∷ 97 ∷ 103 ∷ 101 ∷ 47 ∷ 106 ∷ 112 ∷ 101 ∷ 103 ∷ []

-- "image/webp".
abbrev pub image_webp : Bytes
image_webp = 105 ∷ 109 ∷ 97 ∷ 103 ∷ 101 ∷ 47 ∷ 119 ∷ 101 ∷ 98 ∷ 112 ∷ []

-- "image/gif".
abbrev pub image_gif : Bytes
image_gif = 105 ∷ 109 ∷ 97 ∷ 103 ∷ 101 ∷ 47 ∷ 103 ∷ 105 ∷ 102 ∷ []

-- "application/pdf".
abbrev pub application_pdf : Bytes
application_pdf =
    97 ∷ 112 ∷ 112 ∷ 108 ∷ 105 ∷ 99 ∷ 97 ∷ 116 ∷ 105 ∷ 111 ∷ 110 ∷ 47 ∷ 112 ∷ 100 ∷ 102 ∷ []

-- "charset".
abbrev pub charset : Bytes
charset = 99 ∷ 104 ∷ 97 ∷ 114 ∷ 115 ∷ 101 ∷ 116 ∷ []

-- "utf-8".
abbrev pub utf_8 : Bytes
utf_8 = 117 ∷ 116 ∷ 102 ∷ 45 ∷ 56 ∷ []

-- "<!doctype html", "<html", "<head", "<body", "<script", "<svg", "<?xml".
abbrev pub active_prefixes : List Bytes
active_prefixes =
    (60 ∷ 33 ∷ 100 ∷ 111 ∷ 99 ∷ 116 ∷ 121 ∷ 112 ∷ 101 ∷ 32 ∷ 104 ∷ 116 ∷ 109 ∷ 108 ∷ [])
    ∷ (60 ∷ 104 ∷ 116 ∷ 109 ∷ 108 ∷ [])
    ∷ (60 ∷ 104 ∷ 101 ∷ 97 ∷ 100 ∷ [])
    ∷ (60 ∷ 98 ∷ 111 ∷ 100 ∷ 121 ∷ [])
    ∷ (60 ∷ 115 ∷ 99 ∷ 114 ∷ 105 ∷ 112 ∷ 116 ∷ [])
    ∷ (60 ∷ 115 ∷ 118 ∷ 103 ∷ [])
    ∷ (60 ∷ 63 ∷ 120 ∷ 109 ∷ 108 ∷ [])
    ∷ []

-- "\x89PNG\r\n\x1a\n".
abbrev pub png_signature : Bytes
png_signature = 137 ∷ 80 ∷ 78 ∷ 71 ∷ 13 ∷ 10 ∷ 26 ∷ 10 ∷ []

-- "IHDR".
abbrev pub ihdr : Bytes
ihdr = 73 ∷ 72 ∷ 68 ∷ 82 ∷ []

-- "GIF87a".
abbrev pub gif_87a : Bytes
gif_87a = 71 ∷ 73 ∷ 70 ∷ 56 ∷ 55 ∷ 97 ∷ []

-- "GIF89a".
abbrev pub gif_89a : Bytes
gif_89a = 71 ∷ 73 ∷ 70 ∷ 56 ∷ 57 ∷ 97 ∷ []

-- "RIFF".
abbrev pub riff : Bytes
riff = 82 ∷ 73 ∷ 70 ∷ 70 ∷ []

-- "WEBP".
abbrev pub webp_mark : Bytes
webp_mark = 87 ∷ 69 ∷ 66 ∷ 80 ∷ []

-- "VP8 ".
abbrev pub vp8_lossy : Bytes
vp8_lossy = 86 ∷ 80 ∷ 56 ∷ 32 ∷ []

-- "VP8L".
abbrev pub vp8_lossless : Bytes
vp8_lossless = 86 ∷ 80 ∷ 56 ∷ 76 ∷ []

-- "VP8X".
abbrev pub vp8_extended : Bytes
vp8_extended = 86 ∷ 80 ∷ 56 ∷ 88 ∷ []

-- "%PDF-".
abbrev pub pdf_mark : Bytes
pdf_mark = 37 ∷ 80 ∷ 68 ∷ 70 ∷ 45 ∷ []
