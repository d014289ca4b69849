-- ===== src/Dict.antt =====
-- JavaScript's `Map` with string keys: entries in the order of their first insertion.
pub mod Laws
pub mod Unique
use machina_sol.Prelude.{
  String, Bool, true, false, Option, none, some, List, [], ◌∷◌, map, is_some, ◌==◌, if◌then◌else◌,
}

abbrev pub Dict {ℓ} : Type ℓ → Type ℓ
Dict V = List (String × V)

module _ {ℓ} {V : Type ℓ} where
  -- m.get(k)
  unfoldable pub get : String → Dict V → Option V
  get k [] = none
  get k ((j, v) ∷ m) = if j == k then some v else get k m

  -- m.has(k)
  unfoldable pub has : String → Dict V → Bool
  has k m = is_some (get k m)

  -- m.set(k, v): a known key keeps its place
  unfoldable pub put : String → V → Dict V → Dict V
  put k v [] = (k, v) ∷ []
  put k v ((j, w) ∷ m) = if j == k then (j, v) ∷ m else (j, w) ∷ put k v m

  -- [...m.values()]
  unfoldable pub values : Dict V → List V
  values m = map (λ e. e.1) m

  -- for (const [k, v] of m) if (p(k, v)) m.set(k, f(v))
  unfoldable pub update_where : (String → V → Bool) → (V → V) → Dict V → Dict V
  update_where p f [] = []
  update_where p f ((j, v) ∷ m) = (j, if p j v then f v else v) ∷ update_where p f m

  -- for (const [k, v] of m) if (p(k, v)) m.delete(k)
  unfoldable pub delete_where : (String → V → Bool) → Dict V → Dict V
  delete_where p [] = []
  delete_where p ((j, v) ∷ m) = let rest = delete_where p m in if p j v then rest else (j, v) ∷ rest
