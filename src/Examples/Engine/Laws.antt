-- ===== src/Examples/Engine/Laws.antt =====
-- The engine in memory does what is assumed of GORM.
use mathlib.Core.Bool.{false≢true}
use sociomile.Prelude.{
  ℕ, String, ◌≡◌, ◌≢◌, inl, inr, refl, sym, ap, ◌∙◌, subst, true, false, Option, none, some, List,
  [], Member, select, upsert, Bool-cases, if◌then◌else◌, arith,
}
use sociomile.Apperror.{record_not_found, other}
use sociomile.Model.Schema.{Schema, key, created, saved}
use sociomile.Exec.{Result, ok, err}
use sociomile.Gorm.{Query, IsPage, cut}
use sociomile.Gorm.Laws.{GormLaws, IsCreated, IsSaved, pos_option}
use sociomile.Examples.Engine.{
  least, sort, in_order, nat_option, found_or, by_key, add_row, engine, uuid,
}
use sociomile.Examples.Engine.Facts.{
  Member-select, select-Member, least_found, first_good, first_bad, sort_perm, in_order-IsOrdered,
  by_key_found, with_key_missing, added, refused, IsEngine-error, settled, unsettled,
}
use sociomile.Exec.Results.{ok_injective}

nat_option_pos : (l : Option ℕ) → nat_option (pos_option l) ≡ l
nat_option_pos none = refl
nat_option_pos (some n) = refl

module _ {R : Type 0} (q : Query R) (rows : List R) where
  first_lem :
      (r : R)
      → found_or
          (select q.matches rows)
          (least q.before (select q.matches rows) (select q.matches rows))
        ≡ ok r
      → Member r rows
        × (q.matches r ≡ true)
        × ((x : R) → Member x rows → q.matches x ≡ true → q.before x r ≡ false)
  first_lem r h =
      let (m, min) = least_found q.before _ _ r (first_good (select q.matches rows) _ r h) in
      let (listed, fits) = Member-select q.matches rows r m in
      (listed, fits, λ x mx fx. min x (select-Member q.matches rows x mx fx))

  nothing : select q.matches rows ≡ [] → (x : R) → Member x rows → q.matches x ≡ false
  nothing h x m = elim (Bool-cases (q.matches x)) [
    | inl fits ↦ absurd (subst (Member x) h (select-Member q.matches rows x m fits))
    | inr differs ↦ differs
  ]

  page_lem :
      (offset : ℕ) (limit : Option ℕ) (xs : List R)
      → (if in_order q.before (sort q.before (select q.matches rows))
          then ok
              (cut offset (nat_option (pos_option limit)) (sort q.before (select q.matches rows)))
          else err (other "no order"))
        ≡ ok xs
      → IsPage q offset limit rows xs
  page_lem offset limit xs h =
      elim (Bool-cases (in_order q.before (sort q.before (select q.matches rows)))) [
        | inl good ↦ record {
          listed = sort q.before (select q.matches rows);
          same = sort_perm q.before (select q.matches rows);
          ordered = in_order-IsOrdered q.before _ good;
          page =
              sym (ok_injective _ _ (rw good at h))
              ∙ ap (λ l. cut offset l (sort q.before (select q.matches rows)))
                  (nat_option_pos limit);
        }
        | inr bad ↦ absurd (false≢true (sym bad ∙ ground arith))
      ]

created_row :
    {R : Type 0} (sc : Schema R) (r : R) (rows : List R) (w : ℕ) (r' : R) (rows' : List R)
    → add_row sc (created sc (uuid w) w r) rows ≡ ok (r', rows')
    → IsCreated sc r rows r' rows'
created_row sc r rows w r' rows' h =
    let (filled, more, fresh) = added sc (created sc (uuid w) w r) rows r' rows' h in
    record { uuid = uuid w; time = w; filled = filled; fresh = fresh; added = more }

saved_row :
    {R : Type 0} (sc : Schema R) (r : R) (rows : List R) (w : ℕ) (r' : R) (rows' : List R)
    → ◌≡◌ {A = R × List R}
        (saved sc w r, upsert (key sc) (sc.columns (saved sc w r)) rows)
        (r', rows')
    → IsSaved sc r rows r' rows'
saved_row sc r rows w r' rows' h =
    let same : saved sc w r ≡ r' = ap (λ p. p.0) h in
    record {
      time = w;
      filled = sym same;
      replaced = sym (ap (λ p. p.1) h) ∙ ap (λ x. upsert (key sc) (sc.columns x) rows) same;
    }

by_key_missing :
    {R : Type 0} (id : R → String) (k : String) (rows : List R)
    → by_key id (some k) rows ≡ none
    → (x : R) → Member x rows
    → id x ≢ k
by_key_missing id k rows h = with_key_missing id k rows h

abbrev result_of : {A : Type 0} → Result A × ℕ → Result A
result_of p = p.0

pub engine_laws : GormLaws engine
engine_laws = record {
  first_found = λ q rows w r w' h. first_lem q rows r (ap result_of h);
  first_missing = λ q rows w w' h.
      nothing q rows
        ((first_bad (select q.matches rows) _ record_not_found (ap result_of h)).1 refl);
  first_engine = λ q rows w e w' h. (first_bad (select q.matches rows) _ e (ap result_of h)).0;
  find_page = λ q offset limit rows w xs w' h. page_lem q rows offset limit xs (ap result_of h);
  find_engine = λ q p rows w e w' h. IsEngine-error "no order" e (ground arith);
  count_selected = λ p rows w n w' h. sym (ok_injective _ _ (ap result_of h));
  count_engine = λ p rows w e w' h. absurd (cc (ap result_of h));
  preload_found =
      λ id fk rows w r w' h. by_key_found id fk rows r (ok_injective _ _ (ap result_of h));
  preload_missing =
      λ id k rows w w' h. by_key_missing id k rows (ok_injective _ _ (ap result_of h));
  preload_engine = λ id fk rows w e w' h. absurd (cc (ap result_of h));
  create_row = λ sc r rows w r' rows' w' h. created_row sc r rows w r' rows' (ap result_of h);
  create_engine =
      λ sc r rows w e w' h. IsEngine-error "duplicate key" e (refused sc _ rows e (ap result_of h));
  save_row = λ sc r rows w r' rows' w' h.
      saved_row sc r rows w r' rows' (ok_injective _ _ (ap result_of h));
  save_engine = λ sc r rows w e w' h. absurd (cc (ap result_of h));
  updates_rows = λ p f rows w rows' w' h. (w, sym (ok_injective _ _ (ap result_of h)));
  updates_engine = λ p f rows w e w' h. absurd (cc (ap result_of h));
  commit = λ m s a s' h. (s.world, s'.world, settled s (m s) a s' h);
  rollback = λ m s e s' h.
      let (same, why) = unsettled s (m s) e s' h in
      (same, inr (s.world, (m s).1, λ i. (why i, (m s).1)));
}
