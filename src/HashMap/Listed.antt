-- ===== src/HashMap/Listed.antt =====
-- A list of entries without repeated keys meets the interface of juce::HashMap.
use juce_simpleweb.Prelude.{
  ◌≡◌, ap, refl, ◌∙◌, inl, inr, none, some, List, [], ◌∷◌, arith, length, if◌then◌else◌, Bytes,
  bytes_eq, bytes_eq→≡, bytes_eq_refl, Bool-cases,
}
use juce_simpleweb.HashMap.Entries.{is_some, lookup, Apart, bytes_eq_comm}
use juce_simpleweb.HashMap.{HashMap}

abbrev pub Held : Type 0 → Type 0
Held V = (entries : List (Bytes × V)) × Apart entries

module _ {V : Type 0} where
  abbrev pub erase : Bytes → List (Bytes × V) → List (Bytes × V)
  erase k [] = []
  erase k ((j, v) ∷ entries) =
      let rest = erase k entries in if bytes_eq j k then rest else (j, v) ∷ rest

  pub lookup-erase :
      (k j : Bytes) (entries : List (Bytes × V))
      → lookup j (erase k entries) ≡ (if bytes_eq k j then none else lookup j entries)
  lookup-erase k j [] = ground arith
  lookup-erase k j ((i, v) ∷ entries) = elim (Bool-cases (bytes_eq i k)) [
    | inl e ↦ rw (bytes_eq→≡ i k e, bytes_eq_refl k) (ground (arith, lookup-erase k j entries))
    | inr e ↦ elim (Bool-cases (bytes_eq i j)) [
      | inl f ↦ ground (arith, bytes_eq_comm k i, ap (bytes_eq k) (bytes_eq→≡ i j f))
      | inr f ↦ rw (e, f) (lookup-erase k j entries)
    ]
  ]

  pub erase-Apart :
      (k : Bytes) (entries : List (Bytes × V)) → Apart entries → Apart (erase k entries)
  erase-Apart k [] h = tt
  erase-Apart k ((i, v) ∷ entries) (h, hs) = elim (Bool-cases (bytes_eq i k)) [
    | inl e ↦ rw e (erase-Apart k entries hs)
    | inr e ↦
        rw e (
          lookup-erase k i entries ∙ ground (arith, h, bytes_eq_comm k i),
          erase-Apart k entries hs,
        )
  ]

  pub lookup-erase_self :
      (k : Bytes) (entries : List (Bytes × V)) → lookup k (erase k entries) ≡ none
  lookup-erase_self k entries = lookup-erase k k entries ∙ ground (arith, bytes_eq_refl k)

  abbrev pub set_first : Bytes → V → Held V → Held V
  set_first k v (entries, h) =
      ((k, v) ∷ erase k entries, (lookup-erase_self k entries, erase-Apart k entries h))

  pub lookup-set_first :
      (k j : Bytes) (v : V) (t : Held V)
      → lookup j (set_first k v t).0 ≡ (if bytes_eq k j then some v else lookup j t.0)
  lookup-set_first k j v (entries, h) = ground (arith, lookup-erase k j entries)

  -- The interface can be met.
  abbrev pub listed : HashMap V
  listed = record {
    Table = Held V;
    created = ([], tt);
    set = set_first;
    remove = λ k t. (erase k t.0, erase-Apart k t.0 t.1);
    clear = λ t. ([], tt);
    get = λ k t. lookup k t.0;
    contains = λ k t. is_some (lookup k t.0);
    entries = λ t. t.0;
    size = λ t. length t.0;
    get-created = λ k. refl;
    get-set = lookup-set_first;
    get-remove = λ k j t. lookup-erase k j t.0;
    get-clear = λ k t. refl;
    contains_lem = λ k t. refl;
    get_entries = λ k t. refl;
    entries_apart = λ t. t.1;
    size_lem = λ t. refl;
  }
