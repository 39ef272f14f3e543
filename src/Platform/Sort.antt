-- ===== src/Platform/Sort.antt =====
-- `sort.Strings`.
use sociomile.Prelude.{
  String, ◌≡◌, ◌⊎◌, inl, inr, true, List, [], ◌∷◌, if◌then◌else◌, Bool-cases, Member,
}
use sociomile.Platform.Names.{at_most, at_most_total, at_most_trans}

abbrev insert : String → List String → List String
insert x [] = x ∷ []
insert x (y ∷ ys) = if at_most x y then x ∷ y ∷ ys else y ∷ insert x ys

-- `sort.Strings`
unfoldable pub sort : List String → List String
sort [] = []
sort (x ∷ xs) = insert x (sort xs)

-- Each text is at most those behind it.
abbrev pub IsSorted : List String → Type 0
IsSorted [] = Unit
IsSorted (x ∷ xs) = ((y : String) → Member y xs → at_most x y ≡ true) × IsSorted xs

Member-insert : (x y : String) (ys : List String) → Member y (insert x ys) → (y ≡ x) ⊎ Member y ys
Member-insert x y [] (inl e) = inl e
Member-insert x y [] (inr m) = absurd m
Member-insert x y (z ∷ zs) m = elim (Bool-cases (at_most x z)) [
  | inl before ↦ (rw before at m)
  | inr after ↦ elim (let m' : Member y (z ∷ insert x zs) = rw after at m in m') [
    | inl e ↦ inr (inl e)
    | inr n ↦ elim (Member-insert x y zs n) [ inl e ↦ inl e | inr k ↦ inr (inr k) ]
  ]
]

insert-Member : (x y : String) (ys : List String) → (y ≡ x) ⊎ Member y ys → Member y (insert x ys)
insert-Member x y [] m = m
insert-Member x y (z ∷ zs) m = elim (Bool-cases (at_most x z)) [
  | inl before ↦ rw before m
  | inr after ↦ rw after (elim m [
    | inl e ↦ inr (insert-Member x y zs (inl e))
    | inr (inl e) ↦ inl e
    | inr (inr n) ↦ inr (insert-Member x y zs (inr n))
  ])
]

insert-IsSorted : (x : String) (ys : List String) → IsSorted ys → IsSorted (insert x ys)
insert-IsSorted x [] h = (λ y m. elim m [ ], tt)
insert-IsSorted x (z ∷ zs) (first, rest) = elim (Bool-cases (at_most x z)) [
  | inl before ↦ rw before (
    λ y m. elim m [ inl e ↦ rw e before | inr n ↦ at_most_trans x z y before (first y n) ],
    (first, rest),
  )
  | inr after ↦ rw after (
    λ y m. elim (Member-insert x y zs m) [
      | inl e ↦ rw e (at_most_total x z after)
      | inr n ↦ first y n
    ],
    insert-IsSorted x zs rest,
  )
]

pub sort-IsSorted : (xs : List String) → IsSorted (sort xs)
unfolding sort
sort-IsSorted [] = tt
sort-IsSorted (x ∷ xs) = insert-IsSorted x (sort xs) (sort-IsSorted xs)

pub Member-sort : (y : String) (xs : List String) → Member y (sort xs) → Member y xs
unfolding sort
Member-sort y [] m = m
Member-sort y (x ∷ xs) m = elim (Member-insert x y (sort xs) m) [
  | inl e ↦ inl e
  | inr n ↦ inr (Member-sort y xs n)
]

pub sort-Member : (y : String) (xs : List String) → Member y xs → Member y (sort xs)
unfolding sort
sort-Member y [] m = m
sort-Member y (x ∷ xs) (inl e) = insert-Member x y (sort xs) (inl e)
sort-Member y (x ∷ xs) (inr n) = insert-Member x y (sort xs) (inr (sort-Member y xs n))
