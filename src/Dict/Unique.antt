-- ===== src/Dict/Unique.antt =====
-- At most one entry of a `Map` has a given tag.
use machina_sol.Prelude.{
  String, ◌≡◌, Bool, inl, inr, Option, none, some, arith, eq_iff, Bool-cases, Option-cases, ◌==◌,
}
use machina_sol.Dict.{Dict, get, put, update_where}
use machina_sol.Dict.Laws.{get-put, get-update_where}

module _ {ℓ κ} {V : Type ℓ} {T : Type κ} (tag : V → Option T) where
  -- Entries with one tag are one entry.
  pub record IsUnique (m : Dict V) : Type (ℓ ⊔ κ) where
    pub agree :
        (j k : String) (v w : V) (t : T)
        → get j m ≡ some v
        → get k m ≡ some w
        → tag v ≡ some t
        → tag w ≡ some t
        → j ≡ k

  -- Every tagged entry of `n` had the tag in `m`.
  pub record Inherits (m n : Dict V) : Type (ℓ ⊔ κ) where
    pub origin :
        (k : String) (w : V) (t : T)
        → get k n ≡ some w
        → tag w ≡ some t
        → (v : V) × (get k m ≡ some v) × (tag v ≡ some t)

  pub Inherits-refl : (m : Dict V) → Inherits m m
  Inherits-refl m = record { origin = λ k w t e f. (w, e, f) }

  pub Inherits-trans : {l m n : Dict V} → Inherits l m → Inherits m n → Inherits l n
  Inherits-trans a b = record {
    origin = λ k w t e f. let (v, e', f') = b.origin k w t e f in a.origin k v t e' f';
  }

  pub Inherits-IsUnique : {m n : Dict V} → Inherits m n → IsUnique m → IsUnique n
  Inherits-IsUnique i u = record {
    agree = λ j k a b t p q x y.
        let (a', p', x') = i.origin j a t p x in
        let (b', q', y') = i.origin k b t q y in u.agree j k a' b' t p' q' x' y';
  }

  pub put-IsUnique :
      (k : String) (v : V) (m : Dict V)
      → IsUnique m
      → ((j : String) (w : V) (t : T) → get j m ≡ some w → tag w ≡ some t → tag v ≡ some t → j ≡ k)
      → IsUnique (put k v m)
  put-IsUnique k v m u fresh = record {
    agree = λ i j a b t p q x y. ground (
      arith,
      get-put i k v m,
      get-put j k v m,
      eq_iff k i,
      eq_iff k j,
      u.agree i j a b t,
      fresh i a t,
      fresh j b t,
    );
  }

  -- Writing an entry that keeps its tag, or loses it.
  pub put-Inherits :
      (k : String) (v : V) (m : Dict V)
      → ((t : T) → tag v ≡ some t → (w : V) × (get k m ≡ some w) × (tag w ≡ some t))
      → Inherits m (put k v m)
  put-Inherits k v m old = record {
    origin = λ j w t e f. elim (Bool-cases (k == j)) [
      | inl same ↦ go j w t ((eq_iff k j).0 same) (ground (arith, get-put j k v m)) f
      | inr other ↦ (w, ground (arith, get-put j k v m), f)
    ];
  }
    where
      go :
          (j : String) (w : V) (t : T)
          → k ≡ j
          → v ≡ w
          → tag w ≡ some t
          → (x : V) × (get j m ≡ some x) × (tag x ≡ some t)
      go j w t p q f = let (x, e, g) = old t (cc) in (x, (cc), g)

  pub update_where-Inherits :
      (p : String → V → Bool) (f : V → V) (m : Dict V)
      → ((v : V) → tag (f v) ≡ none)
      → Inherits m (update_where p f m)
  update_where-Inherits p f m loses = record {
    origin = λ k w t e g. elim (Option-cases (get k m)) [
      | inl absent ↦ absurd (ground (arith, get-update_where k p f m))
      | inr (v, found) ↦ (v, found, ground (arith, get-update_where k p f m, loses v))
    ];
  }
