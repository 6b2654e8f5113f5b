-- ===== src/MimeTypes.antt =====
-- MIMETypes.h: the content types of the file extensions, in a map of juce::HashMap that is filled
-- when it is first asked.
pub mod Lookup
use juce_simpleweb.Prelude.{
  Bool, true, false, Option, none, some, List, [], ◌∷◌, if◌then◌else◌, Bytes, codes,
}
use juce_simpleweb.HashMap.{HashMap}

-- The calls of `set` in `init`.
unfoldable pub mime_types : List (Bytes × Bytes)
mime_types =
    (codes ".aac", codes "audio/aac")
    ∷ (codes ".abw", codes "application/x-abiword")
    ∷ (codes ".arc", codes "application/octet-stream")
    ∷ (codes ".avi", codes "video/x-msvideo")
    ∷ (codes ".azw", codes "application/vnd.amazon.ebook")
    ∷ (codes ".bin", codes "application/octet-stream")
    ∷ (codes ".bmp", codes "image/bmp")
    ∷ (codes ".bz", codes "application/x-bzip")
    ∷ (codes ".bz2", codes "application/x-bzip2")
    ∷ (codes ".csh", codes "application/x-csh")
    ∷ (codes ".css", codes "text/css")
    ∷ (codes ".csv", codes "text/csv")
    ∷ (codes ".doc", codes "application/msword")
    ∷ (
      codes ".docx",
      codes "application/vnd.openxmlformats-officedocument.wordprocessingml.document",
    )
    ∷ (codes ".eot", codes "application/vnd.ms-fontobject")
    ∷ (codes ".epub", codes "application/epub+zip")
    ∷ (codes ".gif", codes "image/gif")
    ∷ (codes ".html", codes "text/html")
    ∷ (codes ".html", codes "text/html")
    ∷ (codes ".ico", codes "image/x-icon")
    ∷ (codes ".ics", codes "text/calendar")
    ∷ (codes ".jar", codes "application/java-archive")
    ∷ (codes ".jpeg", codes "image/jpeg")
    ∷ (codes ".jpg", codes "image/jpeg")
    ∷ (codes ".js", codes "application/javascript")
    ∷ (codes ".json", codes "application/json")
    ∷ (codes ".mid", codes "audio/midi")
    ∷ (codes ".midi", codes "audio/midi")
    ∷ (codes ".mpeg", codes "video/mpeg")
    ∷ (codes ".mp4", codes "video/mp4s")
    ∷ (codes ".mpkg", codes "application/vnd.apple.installer+xml")
    ∷ (codes ".odp", codes "application/vnd.oasis.opendocument.presentation")
    ∷ (codes ".ods", codes "application/vnd.oasis.opendocument.spreadsheet")
    ∷ (codes ".odt", codes "application/vnd.oasis.opendocument.text")
    ∷ (codes ".oga", codes "audio/ogg")
    ∷ (codes ".ogv", codes "video/ogg")
    ∷ (codes ".ogx", codes "application/ogg")
    ∷ (codes ".otf", codes "font/otf")
    ∷ (codes ".png", codes "image/png")
    ∷ (codes ".pdf", codes "application/pdf")
    ∷ (codes ".ppt", codes "application/vnd.ms-powerpoint")
    ∷ (
      codes ".pptx",
      codes "application/vnd.openxmlformats-officedocument.presentationml.presentation",
    )
    ∷ (codes ".rar", codes "application/x-rar-compressed")
    ∷ (codes ".rtf", codes "application/rtf")
    ∷ (codes ".sh", codes "application/x-sh")
    ∷ (codes ".svg", codes "image/svg+xml")
    ∷ (codes ".swf", codes "application/x-shockwave-flash")
    ∷ (codes ".tar", codes "application/x-tar")
    ∷ (codes ".tif", codes "image/tiff")
    ∷ (codes ".tiff", codes "image/tiff")
    ∷ (codes ".ts", codes "application/typescript")
    ∷ (codes ".ttf", codes "font/ttf")
    ∷ (codes ".vsd", codes "application/vnd.visio")
    ∷ (codes ".wav", codes "audio/x-wav")
    ∷ (codes ".weba", codes "audio/webm")
    ∷ (codes ".webm", codes "video/webm")
    ∷ (codes ".webp", codes "image/webp")
    ∷ (codes ".woff", codes "font/woff")
    ∷ (codes ".woff2", codes "font/woff2")
    ∷ (codes ".xhtml", codes "application/xhtml+xml")
    ∷ (codes ".xls", codes "application/vnd.ms-excel")
    ∷ (codes ".xlsx", codes "application/vnd.openxmlformats-officedocument.spreadsheetml.sheet")
    ∷ (codes ".xml", codes "application/xml")
    ∷ (codes ".xul", codes "application/vnd.mozilla.xul+xml")
    ∷ (codes ".zip", codes "application/zip")
    ∷ (codes ".3gp", codes "video/3gpp")
    ∷ (codes ".3g2", codes "video/3gpp2")
    ∷ (codes ".7z", codes "application/x-7z-compressed")
    ∷ []

-- `isInit`, and the map.
pub record MimeTypes (Table : Type 0) : Type 0 where
  pub is_init : Bool
  pub types : Table

abbrev pub or_empty : Option Bytes → Bytes
or_empty none = []
or_empty (some type) = type

module _ (maps : HashMap Bytes) where
  open maps use {Table, created, set, get}

  unfoldable pub set_all : List (Bytes × Bytes) → Table → Table
  set_all [] t = t
  set_all ((extension, type) ∷ rows) t = set_all rows (set extension type t)

  unfoldable pub init : MimeTypes Table → MimeTypes Table
  unfolding set_all
  init m = record { is_init = true; types = set_all mime_types m.types }

  unfoldable pub start : MimeTypes Table
  start = record { is_init = false; types = created }

  -- `getMIMEType`, with what it does to the two static members.
  unfoldable pub get_mime_type : Bytes → MimeTypes Table → Bytes × MimeTypes Table
  unfolding init
  get_mime_type extension m =
      let m' = if m.is_init then m else init m in
      (if maps.contains extension m'.types then or_empty (get extension m'.types) else [], m')
