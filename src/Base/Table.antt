-- ===== src/Base/Table.antt =====
-- An SQL table with a text primary key, as an association list: the statements that the store runs
-- on it, and what each does to every row.
use Prim.Native.String.{String}
use mathlib.Core.Path.{◌≡◌, refl}
use mathlib.Core.Option
use mathlib.Core.Option.{Option, none, some}
use mathlib.Core.List.{List, [], ◌∷◌}
use native.Mathlib.Omega.{arith}
use text.Mathlib.Text.{◌==◌}
use text.Mathlib.TextEquality.{eq_iff}
use ocis_mcp_server.Base.Tests.{if◌then◌else◌}

abbrev pub Table {ℓ} : Type ℓ → Type ℓ
Table V = List (String × V)

module _ {ℓ} {V : Type ℓ} where
  -- SELECT … WHERE key = k
  unfoldable pub find : String → Table V → Option V
  find k [] = none
  find k ((j, v) ∷ t) = if j == k then some v else find k t

  -- INSERT OR REPLACE
  unfoldable pub upsert : String → V → Table V → Table V
  upsert k v [] = (k, v) ∷ []
  upsert k v ((j, w) ∷ t) = if j == k then (k, v) ∷ t else (j, w) ∷ upsert k v t

  -- UPDATE … WHERE key = k
  unfoldable pub modify : String → (V → V) → Table V → Table V
  modify k f [] = []
  modify k f ((j, v) ∷ t) =
      let rest = modify k f t in if j == k then (j, f v) ∷ rest else (j, v) ∷ rest

  -- DELETE … WHERE key = k
  unfoldable pub remove : String → Table V → Table V
  remove k [] = []
  remove k ((j, v) ∷ t) = let rest = remove k t in if j == k then rest else (j, v) ∷ rest

  -- INSERT: the primary key constraint refuses a key that is there
  unfoldable pub insert : String → V → Table V → Option (Table V)
  insert k v t = elim (find k t) [ none ↦ some (upsert k v t) | some w ↦ none ]

  pub find-upsert :
      (k j : String) (v : V) (t : Table V)
      → find j (upsert k v t) ≡ (if k == j then some v else find j t)
  unfolding find upsert
  find-upsert k j v [] = refl
  find-upsert k j v ((i, w) ∷ t) =
      ground (arith, eq_iff k j, eq_iff i k, eq_iff i j, find-upsert k j v t)

  pub find-remove :
      (k j : String) (t : Table V) → find j (remove k t) ≡ (if k == j then none else find j t)
  unfolding find remove
  find-remove k j [] = ground arith
  find-remove k j ((i, w) ∷ t) =
      ground (arith, eq_iff k j, eq_iff i k, eq_iff i j, find-remove k j t)

  pub find-modify :
      (k j : String) (f : V → V) (t : Table V)
      → find j (modify k f t) ≡ (if k == j then Option.map f (find j t) else find j t)
  unfolding find modify
  find-modify k j f [] = ground arith
  find-modify k j f ((i, w) ∷ t) =
      ground (arith, eq_iff k j, eq_iff i k, eq_iff i j, find-modify k j f t)

  -- An accepted insert has met no row of that key, and writes as a replace does.
  pub insert-eq-some :
      (k : String) (v : V) (t : Table V) {u : Table V}
      → insert k v t ≡ some u
      → (find k t ≡ none) × (u ≡ upsert k v t)
  unfolding insert
  insert-eq-some k v t h = ground arith

  -- An accepted insert keeps every row that was there.
  pub find-insert :
      (k j : String) (v w : V) (t u : Table V)
      → insert k v t ≡ some u
      → find j t ≡ some w
      → find j u ≡ some w
  find-insert k j v w t u h e =
      let (absent, written) = insert-eq-some k v t h in
      ground (arith, absent, written, find-upsert k j v t, eq_iff k j)
