-- ===== src/Gorm/Paged.antt =====
-- The rows of a page are rows of its table. `Find` gives some order of the rows that match, so where a
-- row stands in the table is not known, only that it does.
use mathlib.Core.Logic.{∥∥₁_map}
use mathlib.Core.List.{Permᴰ}
use sociomile.Prelude.{
  ℕ, zero, suc, inl, inr, ◌∙◌, subst, Bool, Option, none, some, List, [], ◌∷◌, Member, select, take,
  drop, Bool-cases,
}
use sociomile.Gorm.{Query, IsPage, cut}

module _ {R : Type 0} where
  Member-take : (n : ℕ) (xs : List R) (x : R) → Member x (take n xs) → Member x xs
  Member-take zero xs x m = elim m [ ]
  Member-take (suc n) [] x m = elim m [ ]
  Member-take (suc n) (y ∷ ys) x (inl e) = inl e
  Member-take (suc n) (y ∷ ys) x (inr m) = inr (Member-take n ys x m)

  Member-drop : (n : ℕ) (xs : List R) (x : R) → Member x (drop n xs) → Member x xs
  Member-drop zero xs x m = m
  Member-drop (suc n) [] x m = elim m [ ]
  Member-drop (suc n) (y ∷ ys) x m = inr (Member-drop n ys x m)

  Member-cut :
      (offset : ℕ) (limit : Option ℕ) (xs : List R) (x : R)
      → Member x (cut offset limit xs)
      → Member x xs
  Member-cut offset none xs x m = Member-drop offset xs x m
  Member-cut offset (some limit) xs x m =
      Member-drop offset xs x (Member-take limit (drop offset xs) x m)

  Member-select_back : (p : R → Bool) (xs : List R) (x : R) → Member x (select p xs) → Member x xs
  Member-select_back p [] x m = elim m [ ]
  Member-select_back p (y ∷ ys) x m = elim (Bool-cases (p y)) [
    | inl kept ↦ elim (let m' : Member x (y ∷ select p ys) = rw kept at m in m') [
      | inl e ↦ inl e
      | inr rest ↦ inr (Member-select_back p ys x rest)
    ]
    | inr left_out ↦ inr (Member-select_back p ys x (rw left_out at m))
  ]

  Member-Permᴰ : (xs ys : List R) (x : R) → Permᴰ xs ys → Member x xs → Member x ys
  Member-Permᴰ _ _ x Permᴰ.nil m = m
  Member-Permᴰ _ _ x (Permᴰ.cons e p) (inl h) = inl (h ∙ e)
  Member-Permᴰ _ _ x (Permᴰ.cons e p) (inr m) = inr (Member-Permᴰ _ _ x p m)
  Member-Permᴰ _ _ x (Permᴰ.swap e f) (inl h) = inr (inl (h ∙ e))
  Member-Permᴰ _ _ x (Permᴰ.swap e f) (inr (inl h)) = inl (h ∙ f)
  Member-Permᴰ _ _ x (Permᴰ.swap e f) (inr (inr m)) = inr (inr m)
  Member-Permᴰ _ _ x (Permᴰ.trans p q) m = Member-Permᴰ _ _ x q (Member-Permᴰ _ _ x p m)

  pub IsPage-Member :
      (q : Query R) (offset : ℕ) (limit : Option ℕ) (rows xs : List R)
      → IsPage q offset limit rows xs
      → (x : R) → Member x xs
      → ∥ Member x rows ∥₁
  IsPage-Member q offset limit rows xs p x m = ∥∥₁_map p.same (λ d.
      Member-select_back q.matches rows x
        (Member-Permᴰ _ _ x d (Member-cut offset limit p.listed x (subst (Member x) p.page m))))
