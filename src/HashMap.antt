-- ===== src/HashMap.antt =====
-- The map of juce::HashMap that SimpleWebSocketServer.h keeps its connections in: JUCE is no part
-- of the repository, so the map is an interface with the behaviour that JUCE documents. The keys
-- are texts, and the entries are in the order in which an iterator visits them.
mod Entries
pub mod Listed
pub use Entries.*
use juce_simpleweb.Prelude.{
  ℕ, ◌≡◌, Bool, true, false, Option, none, some, List, length, Bytes, bytes_eq, if◌then◌else◌,
}

pub record HashMap (V : Type 0) : Type 1 where
  pub Table : Type 0
  pub created : Table
  pub set : Bytes → V → Table → Table
  pub remove : Bytes → Table → Table
  pub clear : Table → Table
  pub get : Bytes → Table → Option V
  pub contains : Bytes → Table → Bool
  pub entries : Table → List (Bytes × V)
  pub size : Table → ℕ
  pub get-created : (k : Bytes) → get k created ≡ none
  pub get-set :
      (k j : Bytes) (v : V) (t : Table)
      → get j (set k v t) ≡ (if bytes_eq k j then some v else get j t)
  pub get-remove :
      (k j : Bytes) (t : Table) → get j (remove k t) ≡ (if bytes_eq k j then none else get j t)
  pub get-clear : (k : Bytes) (t : Table) → get k (clear t) ≡ none
  pub contains_lem : (k : Bytes) (t : Table) → contains k t ≡ is_some (get k t)
  pub get_entries : (k : Bytes) (t : Table) → get k t ≡ lookup k (entries t)
  pub entries_apart : (t : Table) → Apart (entries t)
  pub size_lem : (t : Table) → size t ≡ length (entries t)
