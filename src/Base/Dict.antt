-- ===== src/Base/Dict.antt =====
-- Python's dict with byte-string keys, which are numbers here: an association list in insertion
-- order. Assigning to a key that is there keeps its place, and a new key goes to the end.
use Prim.Native.Nat.{ℕ, ◌+◌, ◌≤◌, ◌<◌}
use mathlib.Core.Path.{◌≡◌, refl}
use mathlib.Core.Logic.{inl, inr}
use mathlib.Core.Bool.{Bool, true}
use mathlib.Core.Option.{Option, none, some}
use mathlib.Core.List.{List, [], ◌∷◌}
use native.Mathlib.Omega.{arith}
use project_aurora.Base.Tests.{if◌then◌else◌, ltb, ◌==◌, Bool-cases, is_some}
use project_aurora.Base.Lists.{length, All}

abbrev pub Dict {ℓ} : Type ℓ → Type ℓ
Dict V = List (ℕ × V)

module _ {ℓ} {V : Type ℓ} where
  -- `d.get(k)`
  unfoldable pub get : ℕ → Dict V → Option V
  get k [] = none
  get k ((j, v) ∷ d) = if j == k then some v else get k d

  -- `d[k] = v`
  unfoldable pub put : ℕ → V → Dict V → Dict V
  put k v [] = (k, v) ∷ []
  put k v ((j, w) ∷ d) = if j == k then (k, v) ∷ d else (j, w) ∷ put k v d

  -- `d.pop(k, None)`; the keys of a dict differ, so one entry at most goes.
  unfoldable pub remove : ℕ → Dict V → Dict V
  remove k [] = []
  remove k ((j, w) ∷ d) = let rest = remove k d in if j == k then rest else (j, w) ∷ rest

  -- The entries of which a test on the value holds.
  unfoldable pub retain : (V → Bool) → Dict V → Dict V
  retain p [] = []
  retain p ((j, w) ∷ d) = let rest = retain p d in if p w then (j, w) ∷ rest else rest

  -- `min(d, key=lambda k: f(d[k]))` of a dict that is not empty, from its first entry on.
  unfoldable pub min_from : (V → ℕ) → ℕ × V → Dict V → ℕ
  min_from f (k, v) [] = k
  min_from f (k, v) ((j, w) ∷ d) = min_from f (if ltb (f w) (f v) then (j, w) else (k, v)) d

  -- `del d[min(d, key=...)]`; the empty dict, on which `min` raises, stays.
  unfoldable pub remove_min : (V → ℕ) → Dict V → Dict V
  unfolding min_from
  remove_min f [] = []
  remove_min f (e ∷ d) = remove (min_from f e d) (e ∷ d)

  pub get-put :
      (k j : ℕ) (v : V) (d : Dict V) → get j (put k v d) ≡ (if k == j then some v else get j d)
  unfolding get put
  get-put k j v [] = refl
  get-put k j v ((i, w) ∷ d) = ground (arith, get-put k j v d)

  pub get-remove : (k j : ℕ) (d : Dict V) → get j (remove k d) ≡ (if k == j then none else get j d)
  unfolding get remove
  get-remove k j [] = ground arith
  get-remove k j ((i, w) ∷ d) = ground (arith, get-remove k j d)

  pub length-put-le : (k : ℕ) (v : V) (d : Dict V) → length (put k v d) ≤ length d + 1
  unfolding put
  length-put-le k v [] = omega arith
  length-put-le k v ((j, w) ∷ d) = ground (arith, length-put-le k v d)

  pub length-put_known :
      (k : ℕ) (v : V) (d : Dict V) → is_some (get k d) ≡ true → length (put k v d) ≡ length d
  unfolding put get
  length-put_known k v [] h = cc
  length-put_known k v ((j, w) ∷ d) h = ground (arith, length-put_known k v d)

  pub length-remove-le : (k : ℕ) (d : Dict V) → length (remove k d) ≤ length d
  unfolding remove
  length-remove-le k [] = omega arith
  length-remove-le k ((j, w) ∷ d) = ground (arith, length-remove-le k d)

  pub length-retain-le : (p : V → Bool) (d : Dict V) → length (retain p d) ≤ length d
  unfolding retain
  length-retain-le p [] = omega arith
  length-retain-le p ((j, w) ∷ d) = ground (arith, length-retain-le p d)

  length-remove_known :
      (k : ℕ) (d : Dict V) → is_some (get k d) ≡ true → length (remove k d) < length d
  unfolding remove get
  length-remove_known k [] h = cc
  length-remove_known k ((j, w) ∷ d) h =
      ground (arith, length-remove_known k d, length-remove-le k d)

  -- The key that `min` finds is there.
  get-min_from :
      (f : V → ℕ) (e : ℕ × V) (d : Dict V) → is_some (get (min_from f e d) (e ∷ d)) ≡ true
  unfolding get min_from
  get-min_from f (k, v) [] = ground arith
  get-min_from f (k, v) ((j, w) ∷ d) =
      ground (arith, get-min_from f (j, w) d, get-min_from f (k, v) d)

  pub length-remove_min :
      (f : V → ℕ) (d : Dict V) → 0 < length d → length (remove_min f d) < length d
  unfolding remove_min
  length-remove_min f [] h = elim h [ ]
  length-remove_min f (e ∷ d) h = length-remove_known (min_from f e d) (e ∷ d) (get-min_from f e d)

  -- A key that is not there stays away.
  pub get-remove-none : (j k : ℕ) (d : Dict V) → get k d ≡ none → get k (remove j d) ≡ none
  get-remove-none j k d h = ground (arith, get-remove j k d)

  pub get-remove_min-none :
      (f : V → ℕ) (k : ℕ) (d : Dict V) → get k d ≡ none → get k (remove_min f d) ≡ none
  unfolding remove_min
  get-remove_min-none f k [] h = h
  get-remove_min-none f k (e ∷ d) h = get-remove-none (min_from f e d) k (e ∷ d) h

  pub get-retain-none :
      (p : V → Bool) (k : ℕ) (d : Dict V) → get k d ≡ none → get k (retain p d) ≡ none
  unfolding get retain
  get-retain-none p k [] h = refl
  get-retain-none p k ((j, w) ∷ d) h = ground (arith, get-retain-none p k d)

  -- A predicate on the values.
  abbrev pub AllValues {κ} : (V → Type κ) → Dict V → Type κ
  AllValues P d = All (λ e. P e.1) d

  pub put-AllValues {κ} :
      (P : V → Type κ) (k : ℕ) (v : V) (d : Dict V) → P v → AllValues P d → AllValues P (put k v d)
  unfolding put
  put-AllValues P k v [] h a = (h, tt)
  put-AllValues P k v ((j, w) ∷ d) h a = elim (Bool-cases (j == k)) [
    | inl e ↦ rw e (h, a.1)
    | inr e ↦ rw e (a.0, put-AllValues P k v d h a.1)
  ]

  pub remove-AllValues {κ} :
      (P : V → Type κ) (k : ℕ) (d : Dict V) → AllValues P d → AllValues P (remove k d)
  unfolding remove
  remove-AllValues P k [] a = tt
  remove-AllValues P k ((j, w) ∷ d) a = elim (Bool-cases (j == k)) [
    | inl e ↦ rw e (remove-AllValues P k d a.1)
    | inr e ↦ rw e (a.0, remove-AllValues P k d a.1)
  ]

  pub retain-AllValues {κ} :
      (P : V → Type κ) (p : V → Bool) (d : Dict V) → AllValues P d → AllValues P (retain p d)
  unfolding retain
  retain-AllValues P p [] a = tt
  retain-AllValues P p ((j, w) ∷ d) a = elim (Bool-cases (p w)) [
    | inl e ↦ rw e (a.0, retain-AllValues P p d a.1)
    | inr e ↦ rw e (retain-AllValues P p d a.1)
  ]

  pub remove_min-AllValues {κ} :
      (P : V → Type κ) (f : V → ℕ) (d : Dict V) → AllValues P d → AllValues P (remove_min f d)
  unfolding remove_min
  remove_min-AllValues P f [] a = tt
  remove_min-AllValues P f (e ∷ d) a = remove-AllValues P (min_from f e d) (e ∷ d) a

  pub weaken-AllValues {κ} :
      (P Q : V → Type κ) (d : Dict V) → ((v : V) → P v → Q v) → AllValues P d → AllValues Q d
  weaken-AllValues P Q [] h a = tt
  weaken-AllValues P Q ((j, w) ∷ d) h a = (h w a.0, weaken-AllValues P Q d h a.1)
