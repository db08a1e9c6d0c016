-- ===== src/Coverage/Dict.antt =====
-- A `dict` in insertion order with any kind of key, and `sorted` on its items.
use wake_sol.Prelude.{
  ◌≡◌, refl, ap, ◌∙◌, ◌↔◌, Bool, true, Option, none, some, List, [], ◌∷◌, ◌++◌, if◌then◌else◌,
  Bool-cases, inl, inr, arith,
}

module _ {K V : Type 0} (same : K → K → Bool) where
  unfoldable pub get : K → List (K × V) → Option V
  get k [] = none
  get k ((j, v) ∷ m) = if same j k then some v else get k m

  -- `m[k] = v`
  unfoldable pub put : K → V → List (K × V) → List (K × V)
  put k v [] = (k, v) ∷ []
  put k v ((j, w) ∷ m) = if same j k then (j, v) ∷ m else (j, w) ∷ put k v m

  -- No key stands twice.
  abbrev pub Distinct : List (K × V) → Type 0
  Distinct [] = Unit {0}
  Distinct ((k, v) ∷ m) = (get k m ≡ none) × Distinct m

module _ {K V : Type 0} (less : K → K → Bool) where
  unfoldable pub insert_item : K → V → List (K × V) → List (K × V)
  insert_item k v [] = (k, v) ∷ []
  insert_item k v ((j, w) ∷ m) =
      if less j k then (j, w) ∷ insert_item k v m else (k, v) ∷ ((j, w) ∷ m)

  -- `sorted`, of keys of which no two are equal.
  unfoldable pub sort_items : List (K × V) → List (K × V)
  sort_items [] = []
  sort_items ((k, v) ∷ m) = insert_item k v (sort_items m)

module _ {K V : Type 0} (same : K → K → Bool)
    (same_iff : (a b : K) → (same a b ≡ true) ↔ (a ≡ b)) where
  pub get-put :
      (k j : K) (v : V) (m : List (K × V))
      → get same j (put same k v m) ≡ (if same k j then some v else get same j m)
  unfolding get put
  get-put k j v [] = refl
  get-put k j v ((i, w) ∷ m) =
      ground (arith, same_iff i k, same_iff i j, same_iff k j, get-put k j v m)

  pub put_fresh :
      (k : K) (v : V) (m : List (K × V)) → get same k m ≡ none → put same k v m ≡ m ++ (k, v) ∷ []
  unfolding get put
  put_fresh k v [] h = refl
  put_fresh k v ((i, w) ∷ m) h = ground (arith, put_fresh k v m)

  pub put_last :
      (k : K) (u v : V) (m : List (K × V))
      → get same k m ≡ none
      → put same k v (m ++ (k, u) ∷ []) ≡ m ++ (k, v) ∷ []
  unfolding get put
  put_last k u v [] h = ground (arith, same_iff k k)
  put_last k u v ((i, w) ∷ m) h = ground (arith, put_last k u v m)

  pub get_last :
      (k : K) (u : V) (m : List (K × V))
      → get same k m ≡ none
      → get same k (m ++ (k, u) ∷ []) ≡ some u
  unfolding get
  get_last k u [] h = ground (arith, same_iff k k)
  get_last k u ((i, w) ∷ m) h = ground (arith, get_last k u m)

  pub put-Distinct :
      (k : K) (v : V) (m : List (K × V)) → Distinct same m → Distinct same (put same k v m)
  unfolding get put
  put-Distinct k v [] h = (refl, tt)
  put-Distinct k v ((i, w) ∷ m) (fresh, h) = elim (Bool-cases (same i k)) [
    | inl it ↦ rw it (fresh, h)
    | inr other ↦
        rw other (ground (arith, get-put k i v m, same_iff k i, same_iff i k), put-Distinct k v m h)
  ]

  pub get-insert_item :
      (less : K → K → Bool) (k j : K) (v : V) (m : List (K × V))
      → get same k m ≡ none
      → get same j (insert_item less k v m) ≡ (if same k j then some v else get same j m)
  unfolding get insert_item
  get-insert_item less k j v [] h = refl
  get-insert_item less k j v ((i, w) ∷ m) h =
      ground (arith, same_iff i k, same_iff i j, same_iff k j, get-insert_item less k j v m)

  pub insert_item-Distinct :
      (less : K → K → Bool) (k : K) (v : V) (m : List (K × V))
      → get same k m ≡ none
      → Distinct same m
      → Distinct same (insert_item less k v m)
  unfolding get insert_item
  insert_item-Distinct less k v [] h d = (refl, tt)
  insert_item-Distinct less k v ((i, w) ∷ m) h (fresh, d) = elim (Bool-cases (less i k)) [
    | inl smaller ↦ rw smaller (
      ground (arith, get-insert_item less k i v m, same_iff i k, same_iff k i),
      insert_item-Distinct less k v m (ground arith) d,
    )
    | inr not_smaller ↦ rw not_smaller (h, (fresh, d))
  ]

  pub get-sort_items :
      (less : K → K → Bool) (j : K) (m : List (K × V))
      → Distinct same m
      → get same j (sort_items less m) ≡ get same j m
  unfolding get sort_items
  get-sort_items less j [] h = refl
  get-sort_items less j ((k, v) ∷ m) (fresh, h) =
      get-insert_item less k j v (sort_items less m) (get-sort_items less k m h ∙ fresh)
      ∙ ap (λ o. if same k j then some v else o) (get-sort_items less j m h)

  pub sort_items-Distinct :
      (less : K → K → Bool) (m : List (K × V)) → Distinct same m → Distinct same (sort_items less m)
  unfolding sort_items
  sort_items-Distinct less [] h = tt
  sort_items-Distinct less ((k, v) ∷ m) (fresh, h) =
      insert_item-Distinct less k v (sort_items less m) (get-sort_items less k m h ∙ fresh)
        (sort_items-Distinct less m h)
