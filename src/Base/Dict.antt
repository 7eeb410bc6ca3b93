-- ===== src/Base/Dict.antt =====
-- Python's `dict` with text keys, in insertion order: writing an existing key keeps its place, and
-- a new key goes to the end.
use Prim.Native.Nat.{◌+◌}
use Prim.Native.String.{String}
use mathlib.Core.Path.{◌≡◌, refl}
use mathlib.Core.Logic.{◌≢◌}
use mathlib.Core.Bool.{Bool, true, false}
use mathlib.Core.Option.{Option, none, some}
use mathlib.Core.List.{List, [], ◌∷◌}
use native.Mathlib.Omega.{arith}
use text.Mathlib.TextEquality.{eq_iff}
use net_conduit.Base.Tests.{str_eq, if◌then◌else◌}
use net_conduit.Base.Lists.{length}

abbrev pub Dict {ℓ} : Type ℓ → Type ℓ
Dict V = List (String × V)

module _ {ℓ} {V : Type ℓ} where
  -- d.get(k)
  unfoldable pub lookup : String → Dict V → Option V
  lookup k [] = none
  lookup k ((j, v) ∷ d) = if str_eq j k then some v else lookup k d

  -- k in d
  unfoldable pub contains : String → Dict V → Bool
  contains k [] = false
  contains k ((j, v) ∷ d) = if str_eq j k then true else contains k d

  -- d[k] = v
  unfoldable pub insert : String → V → Dict V → Dict V
  insert k v [] = (k, v) ∷ []
  insert k v ((j, w) ∷ d) = if str_eq j k then (j, v) ∷ d else (j, w) ∷ insert k v d

  -- del d[k]
  unfoldable pub erase : String → Dict V → Dict V
  erase k [] = []
  erase k ((j, w) ∷ d) = if str_eq j k then d else (j, w) ∷ erase k d

  -- d.keys()
  unfoldable pub keys : Dict V → List String
  keys [] = []
  keys ((j, w) ∷ d) = j ∷ keys d

  -- d.values()
  unfoldable pub values : Dict V → List V
  values [] = []
  values ((j, w) ∷ d) = w ∷ values d

  -- No key stands twice: what every dict built from {} satisfies.
  abbrev pub HasKeys : Dict V → Type 0
  HasKeys [] = Unit
  HasKeys ((j, w) ∷ d) = (contains j d ≡ false) × HasKeys d

  pub lookup-insert :
      (k j : String) (v : V) (d : Dict V)
      → lookup j (insert k v d) ≡ (if str_eq k j then some v else lookup j d)
  unfolding lookup insert
  lookup-insert k j v [] = refl
  lookup-insert k j v ((i, w) ∷ d) =
      ground (arith, eq_iff k j, eq_iff i k, eq_iff i j, lookup-insert k j v d)

  pub lookup-insert_self : (k : String) (v : V) (d : Dict V) → lookup k (insert k v d) ≡ some v
  lookup-insert_self k v d = ground (arith, lookup-insert k k v d, eq_iff k k)

  pub contains-insert :
      (k j : String) (v : V) (d : Dict V)
      → contains j (insert k v d) ≡ (if str_eq k j then true else contains j d)
  unfolding contains insert
  contains-insert k j v [] = refl
  contains-insert k j v ((i, w) ∷ d) =
      ground (arith, eq_iff k j, eq_iff i k, eq_iff i j, contains-insert k j v d)

  pub lookup_of_contains : (k : String) (d : Dict V) → contains k d ≡ false → lookup k d ≡ none
  unfolding lookup contains
  lookup_of_contains k [] h = refl
  lookup_of_contains k ((i, w) ∷ d) h = ground (arith, lookup_of_contains k d)

  pub contains_of_lookup :
      (k : String) (d : Dict V) {v : V} → lookup k d ≡ some v → contains k d ≡ true
  unfolding lookup contains
  contains_of_lookup k [] h = ground arith
  contains_of_lookup k ((i, w) ∷ d) {v} h = ground (arith, contains_of_lookup k d {v = v})

  pub lookup-erase_ne : (k j : String) (d : Dict V) → k ≢ j → lookup j (erase k d) ≡ lookup j d
  unfolding lookup erase
  lookup-erase_ne k j [] h = refl
  lookup-erase_ne k j ((i, w) ∷ d) h =
      ground (arith, eq_iff i k, eq_iff i j, lookup-erase_ne k j d h)

  pub contains-erase_ne :
      (k j : String) (d : Dict V) → k ≢ j → contains j (erase k d) ≡ contains j d
  unfolding contains erase
  contains-erase_ne k j [] h = refl
  contains-erase_ne k j ((i, w) ∷ d) h =
      ground (arith, eq_iff i k, eq_iff i j, contains-erase_ne k j d h)

  pub contains-erase_self : (k : String) (d : Dict V) → HasKeys d → contains k (erase k d) ≡ false
  unfolding contains erase
  contains-erase_self k [] h = refl
  contains-erase_self k ((i, w) ∷ d) h = ground (arith, eq_iff i k, contains-erase_self k d h.1)

  pub insert-HasKeys : (k : String) (v : V) (d : Dict V) → HasKeys d → HasKeys (insert k v d)
  unfolding insert contains
  insert-HasKeys k v [] h = (refl, tt)
  insert-HasKeys k v ((i, w) ∷ d) h =
      ground (arith, eq_iff i k, eq_iff k i, insert-HasKeys k v d h.1, contains-insert k i v d)

  pub contains-erase_le :
      (k j : String) (d : Dict V) → contains j d ≡ false → contains j (erase k d) ≡ false
  unfolding contains erase
  contains-erase_le k j [] h = refl
  contains-erase_le k j ((i, w) ∷ d) h = ground (arith, contains-erase_le k j d)

  pub erase-HasKeys : (k : String) (d : Dict V) → HasKeys d → HasKeys (erase k d)
  unfolding erase
  erase-HasKeys k [] h = tt
  erase-HasKeys k ((i, w) ∷ d) h =
      ground (arith, erase-HasKeys k d h.1, contains-erase_le k i d h.0)

  pub length-insert :
      (k : String) (v : V) (d : Dict V)
      → length (insert k v d) ≡ (if contains k d then length d else length d + 1)
  unfolding contains insert
  length-insert k v [] = omega arith
  length-insert k v ((i, w) ∷ d) = ground (arith, length-insert k v d)

  pub length-erase :
      (k : String) (d : Dict V) → contains k d ≡ true → length (erase k d) + 1 ≡ length d
  unfolding contains erase
  length-erase k [] h = ground arith
  length-erase k ((i, w) ∷ d) h = ground (arith, length-erase k d)
