-- ===== src/Store/Marks.antt =====
-- Rows with a flag that is set once: `used` of auth_codes and `revoked` of refresh_tokens.
use ocis_mcp_server.Base.{ℕ, String, ◌≡◌, ◌≢◌, inl, inr, some, ◌==◌, arith, eq_refl, Bool-cases}
use ocis_mcp_server.Base.Table.{Table, find, insert, modify, find-modify, find-insert}

module _ {V : Type 0} (flag : V → ℕ) where
  -- the row of that key is there and its flag is set
  abbrev pub IsMarked : String → Table V → Type 0
  IsMarked k t = (row : V) × (find k t ≡ some row) × (flag row ≢ 0)

  pub insert-IsMarked :
      (j k : String) (v : V) (t u : Table V) → insert k v t ≡ some u → IsMarked j t → IsMarked j u
  insert-IsMarked j k v t u h (row, found, set) = (row, find-insert k j v row t u h found, set)

module _ {V : Type 0} (flag : V → ℕ) (mark : V → V) (marks : (v : V) → flag (mark v) ≢ 0) where
  pub modify-IsMarked :
      (j k : String) (t : Table V) → IsMarked flag j t → IsMarked flag j (modify k mark t)
  modify-IsMarked j k t (row, found, set) = elim (Bool-cases (k == j)) [
    | inl e ↦ (mark row, ground (arith, find-modify k j mark t), marks row)
    | inr e ↦ (row, ground (arith, find-modify k j mark t), set)
  ]

  pub modify-marks :
      (k : String) (t : Table V) (row : V) → find k t ≡ some row → IsMarked flag k (modify k mark t)
  modify-marks k t row found =
      (mark row, ground (arith, found, find-modify k k mark t, eq_refl k), marks row)
