-- ===== src/MimeTypes/Lookup.antt =====
-- MIMETypes.h: what `getMIMEType` answers, whether or not it was asked before.
use juce_simpleweb.Prelude.{
  ◌≡◌, refl, ap, ◌∙◌, ◌⊎◌, inl, inr, Bool, true, false, Option, none, some, List, [], ◌∷◌, arith,
  if◌then◌else◌, Bytes, bytes_eq, not, ◌&&◌, ◌==◌,
}
use juce_simpleweb.Bytes.Search.{Free, one_line, one_line-Free, and_both}
use juce_simpleweb.HttpHeader.RoundTrip.{IsValue}
use juce_simpleweb.HashMap.{HashMap, is_some}
use juce_simpleweb.MimeTypes.{MimeTypes, mime_types, set_all, init, start, or_empty, get_mime_type}

-- The last row of an extension.
unfoldable pub last_row : Bytes → List (Bytes × Bytes) → Option Bytes
last_row extension [] = none
last_row extension ((key, type) ∷ rows) = elim (last_row extension rows) [
  | none ↦ if bytes_eq key extension then some type else none
  | some later ↦ some later
]

abbrev or_else : Option Bytes → Option Bytes → Option Bytes
or_else none b = b
or_else (some a) b = some a

module _ (maps : HashMap Bytes) where
  open maps use {Table, created, set, get}

  get-set_all :
      (rows : List (Bytes × Bytes)) (t : Table) (extension : Bytes)
      → get extension (set_all maps rows t) ≡ or_else (last_row extension rows) (get extension t)
  unfolding set_all last_row
  get-set_all [] t extension = refl
  get-set_all ((key, type) ∷ rows) t extension =
      get-set_all rows (set key type t) extension
      ∙ ap (or_else (last_row extension rows)) (maps.get-set key extension type t)
      ∙ prefer (last_row extension rows) (bytes_eq key extension) type (get extension t)
    where
      prefer :
          (a : Option Bytes) (b : Bool) (type : Bytes) (c : Option Bytes)
          → or_else a (if b then some type else c)
            ≡ or_else (elim a [ none ↦ if b then some type else none | some later ↦ some later ]) c
      prefer none true type c = refl
      prefer none false type c = refl
      prefer (some x) b type c = refl

  -- A state of the static members: nothing was asked yet, or the map is filled.
  abbrev pub IsReady : MimeTypes Table → Type 0
  IsReady m = (m ≡ start maps) ⊎ (m ≡ init maps (start maps))

  answered : (o a : Option Bytes) → o ≡ a → (if is_some o then or_empty o else []) ≡ or_empty a
  answered none a e = ap or_empty e
  answered (some type) a e = ap or_empty e

  filled :
      (extension : Bytes)
      → (if maps.contains extension (set_all maps mime_types created)
          then or_empty (get extension (set_all maps mime_types created))
          else [])
        ≡ or_empty (last_row extension mime_types)
  filled extension = rw (maps.contains_lem extension (set_all maps mime_types created)) (
      answered _ _ (
        get-set_all mime_types created extension
        ∙ ap (or_else (last_row extension mime_types)) (maps.get-created extension)
        ∙ or_else_none (last_row extension mime_types)))
    where
      or_else_none : (a : Option Bytes) → or_else a none ≡ a
      or_else_none none = refl
      or_else_none (some a) = refl

  -- `getMIMEType` gives the type of the last row of the table with that extension, and the empty
  -- text if there is none, whether it is asked for the first time or the map is filled; afterwards
  -- the map is filled, in the same state every time.
  pub get_mime_type_lem :
      (extension : Bytes) (m : MimeTypes Table)
      → IsReady m
      → ((get_mime_type maps extension m).0 ≡ or_empty (last_row extension mime_types))
        × ((get_mime_type maps extension m).1 ≡ init maps (start maps))
  unfolding get_mime_type start init
  get_mime_type_lem extension m (inl e) = rw e (filled extension, refl)
  get_mime_type_lem extension m (inr e) = rw e (filled extension, refl)

-- The content types are one line each, with no space in front.
plain : Bytes → Bool
unfolding one_line
plain [] = true
plain (c ∷ s) = not (c == b' ') && one_line (c ∷ s)

plain_rows : List (Bytes × Bytes) → Bool
unfolding plain
plain_rows [] = true
plain_rows ((key, type) ∷ rows) = plain type && plain_rows rows

last_row-plain :
    (extension : Bytes) (rows : List (Bytes × Bytes))
    → plain_rows rows ≡ true
    → plain (or_empty (last_row extension rows)) ≡ true
unfolding plain_rows last_row
last_row-plain extension [] h = refl
last_row-plain extension ((key, type) ∷ rows) h =
    let (here, there) = and_both (plain type) (plain_rows rows) h in
    chosen (last_row extension rows) (bytes_eq key extension) type here
      (last_row-plain extension rows there)
  where
    chosen :
        (a : Option Bytes) (b : Bool) (type : Bytes)
        → plain type ≡ true
        → plain (or_empty a) ≡ true
        → plain
            (or_empty (elim a [ none ↦ if b then some type else none | some later ↦ some later ]))
          ≡ true
    chosen none true type h k = h
    chosen none false type h k = k
    chosen (some later) b type h k = k

pub mime_type-IsValue :
    (extension : Bytes)
    → Free b'\n' (or_empty (last_row extension mime_types))
      × IsValue (or_empty (last_row extension mime_types))
unfolding plain plain_rows one_line mime_types
mime_type-IsValue extension =
    split (or_empty (last_row extension mime_types)) (last_row-plain extension mime_types refl)
  where
    split : (s : Bytes) → plain s ≡ true → Free b'\n' s × IsValue s
    split [] h = (tt, tt)
    split (c ∷ s) h =
        let (first, line) = and_both (not (c == b' ')) (one_line (c ∷ s)) h in
        (one_line-Free (c ∷ s) line, ground (arith, first))
