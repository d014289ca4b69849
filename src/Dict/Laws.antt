-- ===== src/Dict/Laws.antt =====
-- What a lookup sees after each change of a `Map`.
use mathlib.Core.Option
use machina_sol.Prelude.{
  String, ◌≡◌, refl, Bool, false, some, [], ◌∷◌, arith, any, ◌==◌, eq_iff, eq_refl, if◌then◌else◌,
}
use machina_sol.Dict.{Dict, get, put, values, update_where}

module _ {ℓ} {V : Type ℓ} where
  pub get-put :
      (j k : String) (v : V) (m : Dict V) → get j (put k v m) ≡ (if k == j then some v else get j m)
  unfolding get put
  get-put j k v [] = refl
  get-put j k v ((i, w) ∷ m) = ground (arith, eq_iff k j, eq_iff i k, eq_iff i j, get-put j k v m)

  pub get-put_self : (k : String) (v : V) (m : Dict V) → get k (put k v m) ≡ some v
  get-put_self k v m = ground (arith, get-put k k v m, eq_refl k)

  -- An entry passes through an update of the entries that fit.
  pub get-update_where :
      (k : String) (p : String → V → Bool) (f : V → V) (m : Dict V)
      → get k (update_where p f m) ≡ Option.map (λ v. if p k v then f v else v) (get k m)
  unfolding get update_where
  get-update_where k p f [] = refl
  get-update_where k p f ((i, v) ∷ m) = ground (arith, eq_iff i k, get-update_where k p f m)

  -- An update that fits no entry of the value's kind leaves it; one that fits changes it.
  pub any-values-false :
      (p : V → Bool) (k : String) (v : V) (m : Dict V)
      → any p (values m) ≡ false
      → get k m ≡ some v
      → p v ≡ false
  unfolding get values any
  any-values-false p k v [] h e = ground arith
  any-values-false p k v ((i, w) ∷ m) h e = ground (arith, any-values-false p k v m)
