-- ===== src/Tests/Attribute.antt =====
-- The theorem on attributes, applied to an attribute whose value is empty.
use juce_simpleweb.Prelude.{◌≡◌, [], ◌∷◌, arith, codes}
use juce_simpleweb.Percent
use juce_simpleweb.Attributes.{parse_attributes}
use juce_simpleweb.Attributes.Single.{parse_attributes-single}

parse_attributes-single_example :
    parse_attributes (codes "ab=; c=d") ≡ (codes "ab", Percent.decode (codes "; c=d")) ∷ []
parse_attributes-single_example =
    parse_attributes-single b'a' (codes "b") b';' (codes " c=d") (omega arith) (omega arith)
      (omega arith) (omega arith) (omega arith) (omega arith)
