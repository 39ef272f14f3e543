-- ===== src/Http/Lists/Bounds.antt =====
-- backend/internal/http/handler: how long the lists are that the handlers send.
use mathlib.Core.Logic.{∥∥₁_elim}
use mathlib.Core.List.{Perm, Permᴰ}
use native.Mathlib.Nat.{ℕ_set}
use sociomile.Prelude.{
  ℕ, zero, suc, ◌≤◌, ℤ, pos, String, Option, none, ◌==◌, eq_iff, Bool-cases, subst, ◌≡◌, ◌⊎◌, inl,
  inr, refl, sym, ap, ◌∙◌, subst⁻¹, some, List, [], ◌∷◌, length, take, drop, select, arith,
}
use sociomile.Model.{Conversation}
use sociomile.Exec.{Result, ok, err, State, Exec, pure, ◌>>=◌, continue}
use sociomile.Gorm.{Gorm, Query}
use sociomile.Gorm.Laws.{GormLaws}
use sociomile.Redis.{Codec}
use sociomile.Auth.{Claims}
use sociomile.Cache.{Client}
use sociomile.Cache.Rules.{IsHit, IsVersion}
use sociomile.Repository.Store.Pages.{IsListed, IsEach}
use sociomile.Service.Listing.{ListConversationsInput, list_conversations}
use sociomile.Service.Listing.Page.{IsAnswer, from_cache, from_tables, list_conversations_ok}
use sociomile.Service.Listing.Asked.{conversations_kept, wanted_conversations}
use sociomile.Repository.Store.Rules.{IsPreloaded}
use sociomile.Strconv.{atoi}
use sociomile.Http.{current_claims}
use sociomile.Http.Lists.{
  Page, parse_pagination, paginated, query, number_or, conversations_handler,
}
use sociomile.Exec.Results.{ok_injective, ok≢err}

length-take : {A : Type 0} (n : ℕ) (xs : List A) → length (take n xs) ≤ n
length-take zero xs = omega arith
length-take (suc n) [] = omega arith
length-take (suc n) (x ∷ xs) = (let h = length-take n xs in omega arith)

length-take_all : {A : Type 0} (n : ℕ) (xs : List A) → length (take n xs) ≤ length xs
length-take_all zero xs = omega arith
length-take_all (suc n) [] = omega arith
length-take_all (suc n) (x ∷ xs) = (let h = length-take_all n xs in omega arith)

length-drop : {A : Type 0} (n : ℕ) (xs : List A) → length (drop n xs) ≤ length xs
length-drop zero xs = omega arith
length-drop (suc n) [] = omega arith
length-drop (suc n) (x ∷ xs) = (let h = length-drop n xs in omega arith)

length-Permᴰ : {A : Type 0} (xs ys : List A) → Permᴰ xs ys → length xs ≡ length ys
length-Permᴰ _ _ Permᴰ.nil = refl
length-Permᴰ _ _ (Permᴰ.cons e p) = ap suc (length-Permᴰ _ _ p)
length-Permᴰ _ _ (Permᴰ.swap e f) = refl
length-Permᴰ _ _ (Permᴰ.trans p q) = length-Permᴰ _ _ p ∙ length-Permᴰ _ _ q

length-Perm : {A : Type 0} (xs ys : List A) → Perm xs ys → length xs ≡ length ys
length-Perm xs ys p = ∥∥₁_elim p (ℕ_set (length xs) (length ys)) (λ q. length-Permᴰ xs ys q)

length-IsEach :
    {A B : Type 0} (P : A → B → Type 0) (xs : List A) (ys : List B)
    → IsEach P xs ys
    → length ys ≡ length xs
length-IsEach P [] [] h = refl
length-IsEach P [] (y ∷ ys) h = elim h [ ]
length-IsEach P (x ∷ xs) [] h = elim h [ ]
length-IsEach P (x ∷ xs) (y ∷ ys) h = ap suc (length-IsEach P xs ys h.1)

page_bounds :
    {A B : Type 0} (P : A → B → Type 0) (listed page : List A) (items : List B)
    (offset limit total : ℕ)
    → length listed ≡ total
    → page ≡ take limit (drop offset listed)
    → IsEach P page items
    → (length items ≤ limit) × (length items ≤ total)
page_bounds P listed page items offset limit total all same loaded =
    let a = length-IsEach P page items loaded in
    let b : length page ≤ limit =
      subst⁻¹ (λ xs. length xs ≤ limit) same (length-take limit (drop offset listed)) in
    let c : length page ≤ length (drop offset listed) =
      subst⁻¹ (λ xs. length xs ≤ length (drop offset listed)) same
        (length-take_all limit (drop offset listed)) in
    let d = length-drop offset listed in (omega arith, omega arith)

-- A number of the query: the `int` that the text says, and else the default.
abbrev pub IsNumber : String → ℤ → ℤ → Type 0
IsNumber value fallback n = (atoi value ≡ some n) ⊎ ((atoi value ≡ none) × (n ≡ fallback))

read-IsNumber :
    (value : String) (fallback : ℤ) (o : Option ℤ)
    → atoi value ≡ o
    → IsNumber value fallback (number_or fallback o)
read-IsNumber value fallback none e = inr (e, refl)
read-IsNumber value fallback (some n) e = inl e

-- A text that is not there is as good as the default.
query-IsNumber :
    (value text : String) (fallback : ℤ)
    → atoi "" ≡ none
    → atoi text ≡ some fallback
    → IsNumber value fallback (number_or fallback (atoi (query value text)))
unfolding query
query-IsNumber value text fallback blank given = elim (Bool-cases (value == "")) [
  | inl empty ↦
      rw empty (inr (ap atoi ((eq_iff value "").0 empty) ∙ blank, ap (number_or fallback) given))
  | inr there ↦ rw there (read-IsNumber value fallback (atoi value) refl)
]

blank_query : (value : String) → query value "" ≡ value
unfolding query
blank_query value = elim (Bool-cases (value == "")) [
  | inl empty ↦ rw empty (sym ((eq_iff value "").0 empty))
  | inr there ↦ rw there refl
]

blank_is_none : atoi "" ≡ none
unfolding atoi
blank_is_none = refl

zero_is_read : atoi "0" ≡ some (pos 0)
unfolding atoi
zero_is_read = refl

twenty_is_read : atoi "20" ≡ some (pos 20)
unfolding atoi
twenty_is_read = refl

-- The list that a query asks for, from these numbers.
abbrev pub asked : (String → String) → ℤ → ℤ → ListConversationsInput
asked params offset limit = record {
  status = params "status";
  assigned_agent_id = params "assigned_agent_id";
  offset = offset;
  limit = limit;
}

-- What a page says of itself is what was asked for; it is one that the cache holds under the key
-- of the tenant, its version and that list, or it has no more than 100 rows, and no more than there are.
pub record IsBounded {W : Type 0} (cache : Client W) (codec : Codec (List Conversation × ℕ)) (w : W)
    (claims : Claims) (params : String → String) (page : Page Conversation) : Type 0 where
  pub same_offset : IsNumber (params "offset") (pos 0) page.offset
  pub same_limit : IsNumber (params "limit") (pos 20) page.limit
  pub rows :
      ((v : ℤ) × IsVersion cache claims.tenant_id "conversations" w v
        × IsHit cache codec
            (conversations_kept claims.tenant_id (asked params page.offset page.limit) v)
            (page.items, page.total))
      ⊎ ((length page.items ≤ 100) × (length page.items ≤ page.total))

abbrev asked_as : String → String → ℤ → ℤ → ListConversationsInput
asked_as status agent offset limit = record {
  status = status;
  assigned_agent_id = agent;
  offset = offset;
  limit = limit;
}

-- The value that a last step returns.
mapped :
    {W A B : Type 0} (m : Exec W A) (f : A → B) (s : State W) (b : B) (s' : State W)
    → (m >>= λ a. pure (f a)) s ≡ (ok b, s')
    → (a : A) × (m s ≡ (ok a, s')) × (b ≡ f a)
unfolding ◌>>=◌ pure
mapped {W} {A} {B} m f s b s' e = go (m s).0 (m s).1 e
  where
    go :
        (r : Result A) (t : State W)
        → ◌≡◌ {A = Result B × State W} (continue (λ a. pure (f a)) r t) (ok b, s')
        → (a : A) × (◌≡◌ {A = Result A × State W} (r, t) (ok a, s')) × (b ≡ f a)
    go (ok a) t e = (a, (λ i. (ok a, (e i).1)), sym (ok_injective (f a) b (ap (λ p. p.0) e)))
    go (err x) t e = absurd (ok≢err b x (sym (ap (λ p. p.0) e)))

module _ {W : Type 0} (g : Gorm W) (laws : GormLaws g) (cache : Client W)
    (codec : Codec (List Conversation × ℕ)) (params : String → String) (claims : Claims)
    (s : State W) where
  answer_bounds :
      (IsCurrent : ℤ → Type 0) (k : ℤ → String) (offset limit : ℤ)
      (loaded : Conversation → Conversation → Type 0) (q : Query Conversation)
      (rows : List Conversation) (r : List Conversation × ℕ)
      → IsAnswer cache codec IsCurrent k (λ n m. IsListed loaded q n m rows) offset limit r
      → ((v : ℤ) × IsCurrent v × IsHit cache codec (k v) r)
        ⊎ ((length r.0 ≤ 100) × (length r.0 ≤ r.1))
  answer_bounds IsCurrent k offset limit loaded q rows r (from_cache v now hit) = inl (v, now, hit)
  answer_bounds IsCurrent k offset limit loaded q rows r (from_tables n m p p' least most listed) =
      let h = listed.is_page in
      let (short, few) =
        page_bounds loaded h.listed listed.page r.0 n m r.1
          (length-Perm h.listed (select q.matches rows) h.same ∙ sym listed.total) h.page
          listed.each_loaded in
      inr (omega arith, few)

  -- The list of conversations that a token is given changes no table. Its page repeats the offset and
  -- the limit of the query, or 0 and 20 where those are no `int`, and is one that the cache holds under the key of the tenant, its
  -- version and that list, or has at most 100 rows, whatever the limit, and at most as many as the total that it states.
  pub conversations_handler_ok :
      (page : Page Conversation) (s' : State W)
      → conversations_handler g cache codec params (some claims) s ≡ (ok page, s')
      → (s'.db ≡ s.db) × IsBounded cache codec s.world claims params page
  unfolding conversations_handler current_claims paginated parse_pagination pure ◌>>=◌
  conversations_handler_ok page s' e =
      let (found, ran, same) =
        mapped (list_conversations g cache codec claims.tenant_id _) _ s page s' e in
      let (kept, answer) =
        list_conversations_ok g laws cache claims.tenant_id s codec _ found s' ran in
      (
        kept,
        subst⁻¹ (IsBounded cache codec s.world claims params) same (record {
          same_offset = query-IsNumber (params "offset") "0" (pos 0) blank_is_none zero_is_read;
          same_limit = query-IsNumber (params "limit") "20" (pos 20) blank_is_none twenty_is_read;
          rows = answer_bounds _ _ _ _ _ _ _ found (
              subst
                (λ (input : ListConversationsInput).
                  IsAnswer cache codec (IsVersion cache claims.tenant_id "conversations" s.world)
                    (conversations_kept claims.tenant_id input)
                    (λ n m.
                      IsListed (IsPreloaded s.db) (wanted_conversations claims.tenant_id input) n m
                        s.db.conversations)
                    input.offset input.limit found)
                (λ i.
                  asked_as (blank_query (params "status") i)
                    (blank_query (params "assigned_agent_id") i)
                    (number_or (pos 0) (atoi (query (params "offset") "0")))
                    (number_or (pos 20) (atoi (query (params "limit") "20"))))
                answer);
        }),
      )
